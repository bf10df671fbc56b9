-- ===== src/Api/Claim/Replay.antt =====
-- ClaimVM of internal/api/lease.go with a request ID that has been used.
use battery.Prelude.{
  some-eq-some, ◌≡◌, refl, sym, ap, ◌∙◌, true, false, ◌&&◌, String, some, Bool-cases, inl, inr, ◌⊎◌,
  beq→eq, ◌==◌, string_eq, suc,
}
use battery.Types.{VmRecord, LeaseRecord, PoolSpec, deleting, phase_eq}
use battery.Table.{find}
use battery.Store.Reads.{get_vm-row, get_pool-row, get_lease_by_request_id-row}
use battery.Table.Laws.{find-matches}
use battery.Store.Error.{Error, Result, ok, err, is_not_found}
use battery.Store.Rows.{LeaseRow, row_to_lease, row_to_vm}
use battery.Store.Db.{Db}
use battery.Store.Pools.{get_pool}
use battery.Store.Vms.{has_uid, get_vm}
use battery.Store.Leases.{get_lease_by_request_id, has_request_id}
use battery.World.{World, handle, connect, get_interfaces}
use battery.World.Quiet.{Quiet, Ends, Ends-store}
use battery.World.Steady.{Steady, Holds-bind, Holds-connect, Holds-obtain}
use battery.Api.Status.{Reply, reply, status, Code}
use battery.Api.Claim.{ClaimResponse, respond, replay_found, replay_claim, missed}
use battery.Api.Claim.{claim_vm, claim_fresh, claim_from, missed}
use battery.Prelude.{ltb, if◌then◌else◌}
use Prim.Native.String.{len}
use battery.Api.Status.{code_of, refuse, internal}
use battery.Api.Claim.{ClaimResponse}
use battery.Reconciler.Deletion.Kept.{is_not_found-other}
use battery.Store.Error.{other}
use battery.Api.Claim.{replay_found, respond}

module _ (row : LeaseRow) (d : Db) where
  -- The same lease again, or a refusal, and nothing has changed.
  abbrev Repeated : Result (Reply ClaimResponse) → World → Type 0
  Repeated (ok (reply r)) x = (x.db ≡ d) × ((r.lease_id ≡ row.lease_id) × (r.vm_uid ≡ row.vm_uid))
  Repeated (ok (status c)) x = x.db ≡ d
  Repeated (err e) x = true ≡ false

  abbrev Same : Db → Type 0
  Same y = y ≡ d

  respond-Repeated :
      (lease : LeaseRecord) (vm : VmRecord) (w : World)
      → Steady Same w
      → lease.lease_id ≡ row.lease_id
      → vm.uid ≡ row.vm_uid
      → Ends (respond lease.lease_id vm w) Repeated
  respond-Repeated lease vm w s i u = (
    (Holds-bind Same connect (λ _. get_interfaces) (Holds-connect Same)
        (λ _ x t. Holds-obtain Same (x.env.interfaces x.time) _ t) w s).1,
    (i, u),
  )

  replay_claim-Repeated :
      (lease : LeaseRecord) (name namespace : String) (w : World)
      → Steady Same w
      → lease.lease_id ≡ row.lease_id
      → lease.vm_uid ≡ row.vm_uid
      → Ends (replay_claim lease name namespace w) Repeated
  unfolding replay_claim is_not_found row_to_vm
  replay_claim-Repeated lease name namespace w s i u =
      elim (Bool-cases (lease.pool_name == name && lease.pool_namespace == namespace)) [
        | inr t ↦ rw t s.1
        | inl t ↦ rw t (
            Ends-store (get_vm lease.vm_uid) w
              (λ o x. Ends (handle (o, x) missed (replay_found lease)) Repeated) s.0
              (λ vm y e.
                let (same, (found, there, read)) = get_vm-row lease.vm_uid w.db y vm e in
                let named : vm.uid ≡ row.vm_uid =
                  ap (λ (v : VmRecord). v.uid) read
                  ∙ beq→eq found.uid lease.vm_uid
                      (find-matches (has_uid lease.vm_uid) w.db.vms there)
                  ∙ u in
                let x = record w { db = y; time = suc w.time } in
                elim (Bool-cases (vm.phase == deleting)) [
                  | inl f ↦ rw f (same ∙ s.1)
                  | inr f ↦ rw f (respond-Repeated lease vm x (s.0, same ∙ s.1) i named)
                ])
              (λ e _. elim (Bool-cases (is_not_found e)) [ inl m ↦ rw m s.1 | inr m ↦ rw m s.1 ]))
      ]

-- The lookup by request ID finds this row, unless the call fails.
get_lease_by_request_id-found :
    (request : String) (d d' : Db) (l : LeaseRecord) (row : LeaseRow)
    → find (has_request_id request) d.leases ≡ some row
    → get_lease_by_request_id request d ≡ ok (l, d')
    → (d' ≡ d) × ((l.lease_id ≡ row.lease_id) × (l.vm_uid ≡ row.vm_uid))
unfolding row_to_lease
get_lease_by_request_id-found request d d' l row there e =
    let (same, (found, again, read)) = get_lease_by_request_id-row request d d' l e in
    let one : found ≡ row = some-eq-some (sym again ∙ there) in
    (
      same,
      (
        ap (λ (x : LeaseRecord). x.lease_id) read ∙ ap (λ (x : LeaseRow). x.lease_id) one,
        ap (λ (x : LeaseRecord). x.vm_uid) read ∙ ap (λ (x : LeaseRow). x.vm_uid) one,
      ),
    )

get_lease_by_request_id-fails :
    (request : String) (d : Db) (e : Error) (row : LeaseRow)
    → find (has_request_id request) d.leases ≡ some row
    → (get_lease_by_request_id request d ≡ err e) ⊎ (e ≡ other)
    → is_not_found e ≡ false
unfolding get_lease_by_request_id
get_lease_by_request_id-fails request d e row there (inl h) = cc (rw there at h)
get_lease_by_request_id-fails request d e row there (inr h) = ap is_not_found h ∙ is_not_found-other

claim_from-Repeated :
    (row : LeaseRow) (p : PoolSpec) (name namespace request : String) (w : World) (d : Db)
    → Steady (λ y. y ≡ d) w
    → (request == "") ≡ false
    → find (has_request_id request) d.leases ≡ some row
    → Ends (claim_from p name namespace request w) (Repeated row d)
claim_from-Repeated row p name namespace request w d s named there = rw named (
    Ends-store (get_lease_by_request_id request) w
      (λ o x.
        Ends
          (handle (o, x)
            (λ e. if is_not_found e then claim_fresh p name namespace request else refuse internal)
            (λ l. replay_claim l name namespace))
          (Repeated row d))
      s.0
      (λ l y e.
        let (same, (i, u)) = get_lease_by_request_id-found request w.db y l row (rw s.1 there) e in
        replay_claim-Repeated row d l name namespace (record w { db = y; time = suc w.time })
          (s.0, same ∙ s.1) i u)
      (λ e why. rw (get_lease_by_request_id-fails request w.db e row (rw s.1 there) why) (s.1)))

claim_vm-Repeated :
    (row : LeaseRow) (name namespace request : String) (w : World)
    → Quiet w
    → (request == "") ≡ false
    → find (has_request_id request) w.db.leases ≡ some row
    → Ends (claim_vm name namespace request w) (Repeated row w.db)
unfolding claim_vm
claim_vm-Repeated row name namespace request w q named there =
    elim (Bool-cases (ltb 255 (len request))) [
      | inl t ↦ rw t refl
      | inr t ↦ rw t (
          Ends-store (get_pool name namespace) w
            (λ o x.
              Ends
                (handle (o, x) (λ e. refuse (code_of e)) (λ p. claim_from p name namespace request))
                (Repeated row w.db))
            q
            (λ p y e.
              claim_from-Repeated row p name namespace request
                (record w { db = y; time = suc w.time }) w.db
                (q, (get_pool-row name namespace w.db y p e).0) named there)
            (λ e _. refl))
    ]

-- ClaimVM with a request ID that a lease has, while no other goroutine calls the store but store calls
-- may fail and flintlock may not answer: it claims no VM and leaves the database as it was, and if
-- it answers with a response, that has the ID and the VM of the lease.
pub claim_vm_replays :
    (row : LeaseRow) (name namespace request : String) (w : World)
    → Quiet w
    → (request == "") ≡ false
    → find (has_request_id request) w.db.leases ≡ some row
    → ((r : ClaimResponse) × (x : World) × (claim_vm name namespace request w ≡ (ok (reply r), x))
        × ((x.db ≡ w.db) × ((r.lease_id ≡ row.lease_id) × (r.vm_uid ≡ row.vm_uid))))
      ⊎ ((c : Code) × (x : World) × (claim_vm name namespace request w ≡ (ok (status c), x))
          × (x.db ≡ w.db))
claim_vm_replays row name namespace request w q named there =
    outcomes (claim_vm name namespace request w)
      (claim_vm-Repeated row name namespace request w q named there)
  where
    outcomes :
        (o : Result (Reply ClaimResponse) × World)
        → Ends o (Repeated row w.db)
        → ((r : ClaimResponse) × (x : World) × (o ≡ (ok (reply r), x))
            × ((x.db ≡ w.db) × ((r.lease_id ≡ row.lease_id) × (r.vm_uid ≡ row.vm_uid))))
          ⊎ ((c : Code) × (x : World) × (o ≡ (ok (status c), x)) × (x.db ≡ w.db))
    outcomes (ok (reply r), x) h = inl (r, x, refl, h)
    outcomes (ok (status c), x) h = inr (c, x, refl, h)
    outcomes (err e, x) h = cc h
