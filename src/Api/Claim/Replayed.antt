-- ===== src/Api/Claim/Replayed.antt =====
-- replayClaim and claimResponse of internal/api/lease.go.
use battery.Prelude.{
  ◌≡◌, refl, sym, ap, ◌∙◌, Bool, true, false, ◌&&◌, not, String, List, some, and_left, and_right,
  Bool-cases, inl, inr, beq→eq, beq_refl, ◌==◌, string_eq, suc,
}
use battery.Types.{VmRecord, LeaseRecord, deleting, phase_eq}
use battery.Table.{any, find}
use battery.Store.Reads.{get_vm-row}
use battery.Table.Laws.{find-matches, any-find}
use battery.Store.Error.{Result, ok, err, is_not_found}
use battery.Store.Rows.{VmRow, LeaseRow, row_to_lease, row_to_vm}
use battery.Store.Db.{Db}
use battery.Store.Pools.{lease_in_pool}
use battery.Store.Vms.{has_uid, get_vm}
use battery.Store.Leases.{has_request_id}
use battery.World.{World, handle, connect, get_interfaces}
use battery.World.Quiet.{Quiet, Ends, Ends-store}
use battery.World.Steady.{Steady, Holds-bind, Holds-connect, Holds-obtain}
use battery.Api.Status.{Reply, reply, status}
use battery.Api.Claim.{ClaimResponse, respond, replay_found, replay_claim, missed}

-- The lease of a response, and a VM that is not being deleted.
abbrev pub bears : ClaimResponse → String → String → LeaseRow → Bool
bears r name namespace l =
    l.lease_id == r.lease_id && (l.vm_uid == r.vm_uid && lease_in_pool name namespace l)

abbrev pub is_live : String → VmRow → Bool
is_live uid v = v.uid == uid && not (v.phase == deleting)

abbrev pub IsBacked : ClaimResponse → String → String → Db → Type 0
IsBacked r name namespace d =
    (any (bears r name namespace) d.leases ≡ true) × (any (is_live r.vm_uid) d.vms ≡ true)

is_live-row :
    (row : VmRow) (vm : VmRecord)
    → vm ≡ row_to_vm row
    → (vm.phase == deleting) ≡ false
    → is_live vm.uid row ≡ true
unfolding row_to_vm
is_live-row row vm read free =
    rw (ap (λ (v : VmRecord). v.uid) read, beq_refl row.uid)
      (ap not (rw (ap (λ (v : VmRecord). v.phase) read) at free))

-- The lease that a request ID finds is one of the leases.
abbrev pub Recorded : LeaseRecord → List LeaseRow → Type 0
Recorded lease ls =
    any
      (λ l.
        l.lease_id == lease.lease_id
        && (l.vm_uid == lease.vm_uid && lease_in_pool lease.pool_name lease.pool_namespace l))
      ls
    ≡ true

pub found-Recorded :
    (request : String) (ls : List LeaseRow) (row : LeaseRow) (l : LeaseRecord)
    → find (has_request_id request) ls ≡ some row
    → l ≡ row_to_lease row
    → Recorded l ls
unfolding row_to_lease
found-Recorded request ls row l found read = any-find (has_request_id request) _ ls found (
    rw
      (
        ap (λ (x : LeaseRecord). x.lease_id) read,
        ap (λ (x : LeaseRecord). x.vm_uid) read,
        ap (λ (x : LeaseRecord). x.pool_name) read,
        ap (λ (x : LeaseRecord). x.pool_namespace) read,
        beq_refl row.lease_id,
        beq_refl row.vm_uid,
        beq_refl row.pool_name,
        beq_refl row.pool_namespace,
      )
      refl)

abbrev pub Kept : List LeaseRow → Db → Type 0
Kept leases d = d.leases ≡ leases

module _ (leases : List LeaseRow) (name namespace : String) where
  -- How a claim ends.
  abbrev pub Answered : Result (Reply ClaimResponse) → World → Type 0
  Answered (ok (reply r)) x = IsBacked r name namespace x.db
  Answered (ok (status c)) x = x.db.leases ≡ leases
  Answered (err e) x = true ≡ false

  -- The best-effort part of a response.
  pub respond-Answered :
      (id : String) (vm : VmRecord) (w : World)
      → Quiet w
      → any
          (λ l. l.lease_id == id && (l.vm_uid == vm.uid && lease_in_pool name namespace l))
          w.db.leases
        ≡ true
      → any (is_live vm.uid) w.db.vms ≡ true
      → Ends (respond id vm w) Answered
  respond-Answered id vm w q held live =
      (Holds-bind P connect (λ _. get_interfaces) (Holds-connect P)
        (λ _ x s. Holds-obtain P (x.env.interfaces x.time) _ s) w (q, (held, live))).1
    where
      P : Db → Type 0
      P d =
          (any (λ l. l.lease_id == id && (l.vm_uid == vm.uid && lease_in_pool name namespace l))
              d.leases
            ≡ true)
          × (any (is_live vm.uid) d.vms ≡ true)

  get_vm-live :
      (uid : String) (d d' : Db) (vm : VmRecord)
      → get_vm uid d ≡ ok (vm, d')
      → (d' ≡ d)
        × ((vm.uid ≡ uid) × ((vm.phase == deleting) ≡ false → any (is_live vm.uid) d.vms ≡ true))
  unfolding row_to_vm
  get_vm-live uid d d' vm e =
      let (same, (row, found, read)) = get_vm-row uid d d' vm e in
      (
        same,
        (
          ap (λ (v : VmRecord). v.uid) read
              ∙ beq→eq row.uid uid (find-matches (has_uid uid) d.vms found),
          λ free.
              any-find (has_uid uid) (is_live vm.uid) d.vms found (is_live-row row vm read free),
        ),
      )

  replay_found-Answered :
      (lease : LeaseRecord) (vm : VmRecord) (w : World)
      → Steady (Kept leases) w
      → lease.pool_name ≡ name
      → lease.pool_namespace ≡ namespace
      → Recorded lease leases
      → vm.uid ≡ lease.vm_uid
      → ((vm.phase == deleting) ≡ false → any (is_live vm.uid) w.db.vms ≡ true)
      → Ends (replay_found lease vm w) Answered
  replay_found-Answered lease vm w s n m recorded same live =
      elim (Bool-cases (vm.phase == deleting)) [
        | inl e ↦ rw e s.1
        | inr e ↦ rw e (
            respond-Answered lease.lease_id vm w s.0 (rw (s.1, same, sym n, sym m) recorded)
              (live e))
      ]

  pub replay_claim-Answered :
      (lease : LeaseRecord) (w : World)
      → Steady (Kept leases) w
      → Recorded lease leases
      → Ends (replay_claim lease name namespace w) Answered
  unfolding replay_claim is_not_found
  replay_claim-Answered lease w s recorded =
      elim (Bool-cases (lease.pool_name == name && lease.pool_namespace == namespace)) [
        | inr other ↦ rw other s.1
        | inl mine ↦ rw mine (
            Ends-store (get_vm lease.vm_uid) w
              (λ o x. Ends (handle (o, x) missed (replay_found lease)) Answered) s.0
              (λ vm d e.
                let (same, (named, live)) = get_vm-live lease.vm_uid w.db d vm e in
                replay_found-Answered lease vm (record w { db = d; time = suc w.time })
                  (s.0, rw same s.1) (beq→eq lease.pool_name name (and_left _ _ mine))
                  (beq→eq lease.pool_namespace namespace (and_right _ _ mine)) recorded named
                  (rw same live))
              (λ e _. elim (Bool-cases (is_not_found e)) [ inl m ↦ rw m s.1 | inr m ↦ rw m s.1 ]))
      ]
