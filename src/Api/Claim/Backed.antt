-- ===== src/Api/Claim/Backed.antt =====
-- LeaseVM of internal/store/sqlite.go as ClaimVM calls it.
use battery.Prelude.{
  ◌≡◌, refl, ap, ◌∙◌, true, ◌&&◌, List, and_left, beq→eq, beq_refl, ◌==◌, string_eq, arith, ℕ,
}
use battery.Types.{VmRecord, LeaseRecord, Event, leased, phase_eq}
use battery.Table.{any}
use battery.Table.Laws.{find-matches, any-find, any-update_hit}
use battery.Store.Error.{ok}
use battery.Store.Rows.{VmRow, LeaseRow, vm_to_row, lease_to_row, require_timestamp}
use battery.Store.Db.{Db}
use battery.Store.Pools.{lease_in_pool}
use battery.Store.Vms.{may_update, overwrite_vm}
use battery.Store.Leases.{lease_vm}
use battery.Store.Leases.{has_lease_id}
use battery.Store.Leasing.{lease_vm-Leased}
use battery.Store.Outcomes.{Post-ok}
use battery.Store.Outcomes.Vms.{create_vm-Post, update_vm-Post, delete_vm_checking_pool-Post}
use battery.Store.Outcomes.Leases.{append_event-Post}
use battery.Store.Events.{append_event}
use battery.Store.Vms.{create_vm, update_vm, delete_vm_checking_pool}
use battery.Reconciler.Policy.Kept.{VmCalls}
use battery.World.Steady.{Keeps}
use battery.Api.Claim.Replayed.{is_live, Kept}

lease_row-fields :
    (l : LeaseRecord) (row : LeaseRow)
    → lease_to_row l ≡ ok row
    → (row.vm_uid ≡ l.vm_uid)
      × ((row.pool_name ≡ l.pool_name) × (row.pool_namespace ≡ l.pool_namespace))
unfolding lease_to_row
lease_row-fields l row e = ground arith

vm_row-fields :
    (v : VmRecord) (row : VmRow) → vm_to_row v ≡ ok row → (row.uid ≡ v.uid) × (row.phase ≡ v.phase)
unfolding vm_to_row require_timestamp
vm_row-fields v row e = ground arith

overwrite-live :
    (v : VmRecord) (row x : VmRow)
    → vm_to_row v ≡ ok row
    → v.phase ≡ leased
    → may_update row x ≡ true
    → is_live v.uid (overwrite_vm row x) ≡ true
overwrite-live v row x is_row is_leased m =
    let (named, phased) = vm_row-fields v row is_row in
    rw (beq→eq x.uid row.uid (and_left _ _ m), named, phased, is_leased, beq_refl v.uid) refl

-- LeaseVM leaves the lease, and its VM LEASED.
pub lease_vm-IsBacked :
    (v : VmRecord) (l : LeaseRecord) (d d' : Db) (u : Unit {0})
    → v.phase ≡ leased
    → v.uid ≡ l.vm_uid
    → lease_vm v l d ≡ ok (u, d')
    → (any
          (λ m.
            m.lease_id == l.lease_id
            && (m.vm_uid == v.uid && lease_in_pool l.pool_name l.pool_namespace m))
          d'.leases
        ≡ true)
      × (any (is_live v.uid) d'.vms ≡ true)
lease_vm-IsBacked v l d d' u is_leased same e =
    let done = lease_vm-Leased v l d d' u e in
    let fields = lease_row-fields l done.lease done.is_lease in
    (
      any-find (has_lease_id l.lease_id) _ d'.leases done.by_id (
          rw
            (
              find-matches (has_lease_id l.lease_id) d'.leases done.by_id,
              fields.0,
              same,
              fields.1.0,
              fields.1.1,
              beq_refl l.vm_uid,
              beq_refl l.pool_name,
              beq_refl l.pool_namespace,
            )
            refl),
      rw (ap (λ (x : Db). x.vms) done.rest) (
          any-update_hit (may_update done.vm) (is_live v.uid) (overwrite_vm done.vm) d.vms
            done.writable (λ x m. overwrite-live v done.vm x done.is_vm is_leased m)),
    )

pub append_event-tables :
    (e : Event) (d d' : Db) (i : ℕ)
    → append_event e d ≡ ok (i, d')
    → (d'.leases ≡ d.leases) × (d'.vms ≡ d.vms)
append_event-tables e d d' i f =
    Post-ok (append_event e d) (λ _ x. (x.leases ≡ d.leases) × (x.vms ≡ d.vms))
      (append_event-Post d e _ λ _ _. (refl, refl)) f

pub update_vm-Kept : (leases : List LeaseRow) (v : VmRecord) → Keeps (Kept leases) (update_vm v)
update_vm-Kept leases v d d' u e k =
    Post-ok (update_vm v d) (λ _ x. x.leases ≡ leases) (update_vm-Post d v _ λ _ _ _. k) e

-- The calls that a claim makes leave the leases alone, but for LeaseVM.
pub leases-VmCalls : (leases : List LeaseRow) → VmCalls (λ d. d.leases ≡ leases)
leases-VmCalls leases = record {
  created = λ v _ d d' u e k.
      Post-ok (create_vm v d) (λ _ x. x.leases ≡ leases) (create_vm-Post d v _ λ _ _ _. k) e;
  updated = λ v _. update_vm-Kept leases v;
  removed = λ uid d d' u e k.
      Post-ok (delete_vm_checking_pool uid d) (λ _ x. x.leases ≡ leases)
        (delete_vm_checking_pool-Post d uid _ λ _ _. k) e;
  appended = λ e d d' i f k. (append_event-tables e d d' i f).0 ∙ k;
}
