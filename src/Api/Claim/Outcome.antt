-- ===== src/Api/Claim/Outcome.antt =====
-- ClaimVM of internal/api/lease.go, with what it calls.
use battery.Prelude.{
  ◌≡◌, refl, sym, ap, ◌∙◌, true, ◌&&◌, String, List, some, none, and_left, and_right, Bool-cases,
  inl, inr, ◌⊎◌, beq→eq, ◌==◌, string_eq, suc, ℕ,
}
use battery.Types.{VmRecord, PoolSpec, leased, phase_eq, vm_claimed}
use battery.Table.{any}
use battery.Store.Reads.{get_pool-row, get_lease_by_request_id-row}
use battery.Table.Laws.{find-matches}
use battery.Store.Error.{Error, Result, ok, err, is_not_found}
use battery.Store.Rows.{LeaseRow, row_to_pool}
use battery.Store.Db.{Db}
use battery.Store.Pools.{get_pool, is_pool, lease_in_pool}
use battery.Store.Leases.{get_lease_by_request_id, lease_vm}
use battery.Store.Outcomes.{Post-ok}
use battery.Store.Vms.{update_vm, claim_available_vm}
use battery.Reconciler.Policy.Kept.{emit_event-Safe}
use battery.Reconciler.Deletion.{emit_event}
use battery.World.{claimed, Prog, ◌>>◌, World, store, handle, try}
use battery.World.Quiet.{Quiet, Ends, Ends-store}
use battery.World.Steady.{Steady}
use battery.Api.Status.{Reply, reply, status, Code}
use battery.Api.Claim.{ClaimResponse, replay_claim, missed}
use battery.Api.Claim.{
  yield_claim, announce, lease_as, new_lease, unleased_claim, is_duplicate, after_hooks, claim_vm,
  take_vm, claim_fresh, claim_from, missed, withdrawn, hooked, give_up, run_pre_lease_hooks,
  is_vm_deleted, hook_failed, Hooked,
}
use battery.World.Steady.{Holds, Holds-store}
use battery.Types.{available}
use battery.Prelude.{ltb, ◌∷◌, if◌then◌else◌}
use battery.World.Steady.{Ends-safe, Ends-try}
use battery.Store.Outcomes.Vms.{claim_available_vm-Post}
use Prim.Native.String.{len}
use battery.Api.Status.{code_of, refuse, aborted, internal}
use battery.Api.Claim.{ClaimResponse}
use battery.Api.Claim.Replayed.{
  found-Recorded, IsBacked, Answered, Kept, respond-Answered, replay_claim-Answered, is_live,
}
use battery.Api.Claim.Backed.{lease_vm-IsBacked, append_event-tables, update_vm-Kept}
use battery.Api.Claim.Hooks.{give_up-Safe, run_pre_lease_hooks-Safe}

module _ (leases : List LeaseRow) (name namespace : String) where
  -- A read that may find nothing, and what follows.
  find_lease-Answered :
      (p : PoolSpec) (request : String) (w : World)
      → Steady (Kept leases) w
      → (g : Error → Prog (Reply ClaimResponse))
      → ((e : Error) (x : World)
          → Steady (Kept leases) x
          → Ends (g e x) (Answered leases name namespace))
      → Ends
          (try (store (get_lease_by_request_id request)) g (λ l. replay_claim l name namespace) w)
          (Answered leases name namespace)
  find_lease-Answered p request w s g k =
      Ends-store (get_lease_by_request_id request) w
        (λ o x.
          Ends (handle (o, x) g (λ l. replay_claim l name namespace))
            (Answered leases name namespace))
        s.0
        (λ l d e.
          let (same, (row, found, read)) = get_lease_by_request_id-row request w.db d l e in
          replay_claim-Answered leases name namespace l (record w { db = d; time = suc w.time })
            (s.0, rw same s.1) (rw (sym s.1) (found-Recorded request w.db.leases row l found read)))
        (λ e _. k e (record w { time = suc w.time }) s)

  missed-Answered :
      (e : Error) (x : World)
      → Steady (Kept leases) x
      → Ends (missed e x) (Answered leases name namespace)
  unfolding is_not_found
  missed-Answered e x s = elim (Bool-cases (is_not_found e)) [ inl m ↦ rw m s.1 | inr m ↦ rw m s.1 ]

  -- The error branch of a write to the claim's VM.
  lost-Answered :
      (p : PoolSpec) (vm : VmRecord) (e : Error) (x : World)
      → Steady (Kept leases) x
      → Ends
          ((if is_vm_deleted e then refuse aborted else do give_up p vm; refuse internal) x)
          (Answered leases name namespace)
  lost-Answered p vm e x s = elim (Bool-cases (is_vm_deleted e)) [
    | inl m ↦ rw m s.1
    | inr m ↦ rw m (
        Ends-safe (Kept leases) (give_up p vm) (λ _. refuse internal)
          (Answered leases name namespace) x (give_up-Safe leases p vm) s (λ _ y t. t.1))
  ]

  module _ (p : PoolSpec) (n : p.name ≡ name) (m : p.namespace ≡ namespace) where
    yield_claim-Answered :
        (vm : VmRecord) (request : String) (w : World)
        → Steady (Kept leases) w
        → Ends (yield_claim p vm request w) (Answered leases name namespace)
    unfolding yield_claim
    yield_claim-Answered vm request w s =
        let v = record vm {
          phase = available;
          lease_id = none;
          updated_at = some (w.env.clock w.time);
        } in
        Ends-try (Kept leases) (store (update_vm v)) _ _ (Answered leases name namespace) w
          (Holds-store (Kept leases) (update_vm v) (update_vm-Kept leases v)) s
          (λ e x t. lost-Answered p v e x t)
          (λ _ x t. rw (n, m) (find_lease-Answered p request x t missed missed-Answered))

    announce-Answered :
        (id : String) (vm : VmRecord) (w : World)
        → Quiet w
        → any
            (λ l. l.lease_id == id && (l.vm_uid == vm.uid && lease_in_pool name namespace l))
            w.db.leases
          ≡ true
        → any (is_live vm.uid) w.db.vms ≡ true
        → Ends (announce p id vm w) (Answered leases name namespace)
    announce-Answered id vm w q held live =
        Ends-safe P (emit_event p.name p.namespace vm.uid vm_claimed) _
          (Answered leases name namespace) w
          (emit_event-Safe P
            (λ e d d' i f h. let same = append_event-tables e d d' i f in rw (same.0, same.1) h)
            p.name p.namespace vm.uid vm_claimed)
          (q, (held, live))
          (λ _ x t.
            respond-Answered leases name namespace id vm
              (record x { effects = claimed p.name p.namespace ∷ x.effects }) t.0 t.1.0 t.1.1)
      where
        P : Db → Type 0
        P d =
            (any (λ l. l.lease_id == id && (l.vm_uid == vm.uid && lease_in_pool name namespace l))
                d.leases
              ≡ true)
            × (any (is_live vm.uid) d.vms ≡ true)

    lease_as-Answered :
        (vm : VmRecord) (request id : String) (at : ℕ) (w : World)
        → Steady (Kept leases) w
        → Ends (lease_as p vm request id at w) (Answered leases name namespace)
    lease_as-Answered vm request id at w s =
        let marked = record vm { phase = leased; lease_id = some id; updated_at = some at } in
        Ends-store (lease_vm marked (new_lease id at p vm request)) w
          (λ o x.
            Ends (handle (o, x) (unleased_claim p marked request) (λ _. announce p id marked))
              (Answered leases name namespace))
          s.0
          (λ u d e.
            let backed =
              lease_vm-IsBacked marked (new_lease id at p vm request) w.db d u refl refl e in
            announce-Answered id marked (record w { db = d; time = suc w.time }) s.0
              (rw (sym n, sym m) backed.0) backed.1)
          (λ e _. elim (Bool-cases (is_duplicate e)) [
            | inl t ↦ rw t (yield_claim-Answered marked request (record w { time = suc w.time }) s)
            | inr t ↦ rw t (lost-Answered p marked e (record w { time = suc w.time }) s)
          ])

    after_hooks-Answered :
        (request : String) (outcome : Hooked) (w : World)
        → Steady (Kept leases) w
        → Ends (after_hooks p request outcome w) (Answered leases name namespace)
    after_hooks-Answered request withdrawn w s = s.1
    after_hooks-Answered request hook_failed w s = s.1
    after_hooks-Answered request (hooked vm) w s =
        lease_as-Answered vm request (w.env.ids w.time) (w.env.clock (suc w.time))
          (record w { time = suc w.time }) s

    claim_fresh-Answered :
        (request : String) (w : World)
        → Steady (Kept leases) w
        → Ends (claim_fresh p name namespace request w) (Answered leases name namespace)
    claim_fresh-Answered request w s =
        Ends-try (Kept leases) (take_vm name namespace) _ _ (Answered leases name namespace) w
          take_vm-Holds s (λ e x t. t.1)
          (λ vm x t.
            Ends-safe (Kept leases) (run_pre_lease_hooks p vm) (after_hooks p request)
              (Answered leases name namespace) x (run_pre_lease_hooks-Safe leases p vm) t
              (λ o y u. after_hooks-Answered request o y u))
      where
        take_vm-Holds : Holds (Kept leases) (take_vm name namespace)
        take_vm-Holds x t =
            let at = x.env.clock x.time in
            let i = x.env.rows x.time in
            Holds-store (Kept leases) (claim_available_vm at i name namespace)
              (λ d d' v e k.
                Post-ok (claim_available_vm at i name namespace d) (λ _ y. y.leases ≡ leases)
                  (claim_available_vm-Post d at i name namespace _ λ _ _ _ _ _. k) e)
              x t

    claim_from-Answered :
        (request : String) (w : World)
        → Steady (Kept leases) w
        → Ends (claim_from p name namespace request w) (Answered leases name namespace)
    unfolding is_not_found
    claim_from-Answered request w s = elim (Bool-cases (request == "")) [
      | inl t ↦ rw t (claim_fresh-Answered request w s)
      | inr t ↦ rw t (
          find_lease-Answered p request w s
            (λ e. if is_not_found e then claim_fresh p name namespace request else refuse internal)
            (λ e x u. elim (Bool-cases (is_not_found e)) [
              | inl m ↦ rw m (claim_fresh-Answered request x u)
              | inr m ↦ rw m u.1
            ]))
    ]

get_pool-named :
    (n s : String) (d d' : Db) (p : PoolSpec)
    → get_pool n s d ≡ ok (p, d')
    → (d' ≡ d) × ((p.name ≡ n) × (p.namespace ≡ s))
unfolding row_to_pool
get_pool-named n s d d' p e =
    let (same, (row, found, read)) = get_pool-row n s d d' p e in
    let named = find-matches (is_pool n s) d.pools found in
    (
      same,
      (
        ap (λ (x : PoolSpec). x.name) read ∙ beq→eq row.name n (and_left _ _ named),
        ap (λ (x : PoolSpec). x.namespace) read ∙ beq→eq row.namespace s (and_right _ _ named),
      ),
    )

claim_vm-Answered :
    (name namespace request : String) (w : World)
    → Quiet w
    → Ends (claim_vm name namespace request w) (Answered w.db.leases name namespace)
unfolding claim_vm
claim_vm-Answered name namespace request w q = elim (Bool-cases (ltb 255 (len request))) [
  | inl t ↦ rw t refl
  | inr t ↦ rw t (
      Ends-store (get_pool name namespace) w
        (λ o x.
          Ends (handle (o, x) (λ e. refuse (code_of e)) (λ p. claim_from p name namespace request))
            (Answered w.db.leases name namespace))
        q
        (λ p d e.
          let (same, (n, m)) = get_pool-named name namespace w.db d p e in
          claim_from-Answered w.db.leases name namespace p n m request
            (record w { db = d; time = suc w.time }) (q, ap (λ (x : Db). x.leases) same))
        (λ e _. refl))
]

-- ClaimVM from pool `name` in `namespace`, with any request ID, while no other goroutine calls the store but
-- store calls may fail, flintlock may not answer and hooks may fail. It answers with a response, and
-- then the store has a lease with the response's ID and VM in that pool, and a row of that VM
-- that is not DELETING; or it answers with a status, and the leases are as they were.
pub claim_vm_outcomes :
    (name namespace request : String) (w : World)
    → Quiet w
    → ((r : ClaimResponse) × (x : World) × (claim_vm name namespace request w ≡ (ok (reply r), x))
        × IsBacked r name namespace x.db)
      ⊎ ((c : Code) × (x : World) × (claim_vm name namespace request w ≡ (ok (status c), x))
          × (x.db.leases ≡ w.db.leases))
claim_vm_outcomes name namespace request w q =
    outcomes (claim_vm name namespace request w) (claim_vm-Answered name namespace request w q)
  where
    outcomes :
        (r : Result (Reply ClaimResponse) × World)
        → Ends r (Answered w.db.leases name namespace)
        → ((a : ClaimResponse) × (x : World) × (r ≡ (ok (reply a), x))
            × IsBacked a name namespace x.db)
          ⊎ ((c : Code) × (x : World) × (r ≡ (ok (status c), x)) × (x.db.leases ≡ w.db.leases))
    outcomes (ok (reply a), x) h = inl (a, x, refl, h)
    outcomes (ok (status c), x) h = inr (c, x, refl, h)
    outcomes (err e, x) h = cc h
