-- ===== src/Store/Outcomes.antt =====
-- Case rules for the writing calls of internal/store/sqlite.go. To show `Q` of what a call returns
-- and leaves behind when it succeeds, it is enough to show it for the one way in which it does,
-- from what the call's guards have found.
pub mod Pools
pub mod Vms
pub mod Leases
pub mod Hosts
use mathlib.Core.Path.{subst}
use battery.Prelude.{
  ◌≡◌, ℕ, suc, String, Bool, true, false, ◌&&◌, ◌||◌, not, Option, none, some, List, [], ◌∷◌, ◌++◌,
  map, ◌==◌, string_eq, ◌≡◌, inl, inr, Bool-cases, Option-cases, leb, ltb, if◌then◌else◌,
}
use battery.Types.{PoolSpec, VmRecord, LeaseRecord, Event, Host, phase_eq, available}
use battery.Table.{select, find, update, remove, any, sort_by}
use battery.Store.Error.{ok-eq-ok, Result, ok, err, Result-cases}
use battery.Store.Rows.{
  PoolRow, VmRow, LeaseRow, HostRow, pool_to_row, vm_to_row, lease_to_row, host_to_row, row_to_vm,
  row_to_lease, row_to_host, require_timestamp,
}
use battery.Store.Db.{Db, Tx, commit, continue}
use battery.Store.Pools.{
  is_pool, same_pool, vm_in_pool, lease_in_pool, is_held, mark_deleting, uid_le, create_pool,
  update_pool, delete_pool, delete_pool_and_mark_vms,
}
use battery.Store.Vms.{
  has_uid, same_vm, may_update, overwrite_vm, is_claimable, mark_leased, create_vm, update_vm,
  update_vm_row, delete_vm, delete_vm_checking_pool, claim_available_vm,
}
use battery.Store.Leases.{
  has_lease_id, same_lease, same_request, is_expired, create_lease, insert_lease_row, lease_vm,
  update_lease_heartbeat, delete_lease, delete_lease_if_expired,
}
use battery.Store.Events.{append_event}

abbrev pub Post : {A : Type 0} → Result (A × Db) → (A → Db → Type 0) → Type 0
Post (ok (a, d)) Q = Q a d
Post (err e) Q = Unit {0}

-- A rollback leaves the database as it was.
pub commit-Post :
    {A : Type 0} (P : Db → Type 0) (d : Db) (r : Result (A × Db))
    → P d
    → Post r (λ _ d'. P d')
    → P (commit d r)
commit-Post P d (ok (a, d')) h k = k
commit-Post P d (err e) h k = h

pub Post-bind :
    {A B : Type 0} (r : Result (A × Db)) (f : A → Tx B) (Q : B → Db → Type 0)
    → Post r (λ a d. Post (f a d) Q)
    → Post (continue r f) Q
Post-bind (ok (a, d)) f Q h = h
Post-bind (err e) f Q h = tt

-- What holds of every success holds of this one.
pub Post-ok :
    {A : Type 0} (r : Result (A × Db)) (Q : A → Db → Type 0) {a : A} {d : Db}
    → Post r Q
    → r ≡ ok (a, d)
    → Q a d
Post-ok (ok x) Q h e = let same : x ≡ _ = ok-eq-ok e in subst (λ y. Q y.0 y.1) same h
Post-ok (err x) Q h e = cc
