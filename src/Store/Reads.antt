-- ===== src/Store/Reads.antt =====
-- What the reading calls of internal/store/sqlite.go for one row return, when they succeed.
use battery.Prelude.{◌≡◌, sym, ap, String, some, Option-cases, inl, inr}
use battery.Types.{PoolSpec, VmRecord, LeaseRecord}
use battery.Table.{find}
use battery.Store.Error.{ok, ok-eq-ok}
use battery.Store.Rows.{PoolRow, VmRow, LeaseRow, row_to_pool, row_to_vm, row_to_lease}
use battery.Store.Db.{Db}
use battery.Store.Pools.{is_pool, get_pool}
use battery.Store.Vms.{has_uid, get_vm}
use battery.Store.Leases.{has_request_id, get_lease_by_request_id}

-- The database is as it was, and the value is that of a row.
pub get_pool-row :
    (n s : String) (d d' : Db) (p : PoolSpec)
    → get_pool n s d ≡ ok (p, d')
    → (d' ≡ d) × ((row : PoolRow) × (find (is_pool n s) d.pools ≡ some row) × (p ≡ row_to_pool row))
unfolding get_pool
get_pool-row n s d d' p e = elim (Option-cases (find (is_pool n s) d.pools)) [
  | inl g ↦ cc (rw g at e)
  | inr (row, g) ↦
      let same = sym (ok-eq-ok (rw g at e)) in
      (ap (λ (y : PoolSpec × Db). y.1) same, (row, g, ap (λ (y : PoolSpec × Db). y.0) same))
]

pub get_vm-row :
    (uid : String) (d d' : Db) (v : VmRecord)
    → get_vm uid d ≡ ok (v, d')
    → (d' ≡ d) × ((row : VmRow) × (find (has_uid uid) d.vms ≡ some row) × (v ≡ row_to_vm row))
unfolding get_vm
get_vm-row uid d d' v e = elim (Option-cases (find (has_uid uid) d.vms)) [
  | inl g ↦ cc (rw g at e)
  | inr (row, g) ↦
      let same = sym (ok-eq-ok (rw g at e)) in
      (ap (λ (y : VmRecord × Db). y.1) same, (row, g, ap (λ (y : VmRecord × Db). y.0) same))
]

pub get_lease_by_request_id-row :
    (request : String) (d d' : Db) (l : LeaseRecord)
    → get_lease_by_request_id request d ≡ ok (l, d')
    → (d' ≡ d)
      × ((row : LeaseRow) × (find (has_request_id request) d.leases ≡ some row)
          × (l ≡ row_to_lease row))
unfolding get_lease_by_request_id
get_lease_by_request_id-row request d d' l e =
    elim (Option-cases (find (has_request_id request) d.leases)) [
      | inl g ↦ cc (rw g at e)
      | inr (row, g) ↦
          let same = sym (ok-eq-ok (rw g at e)) in
          (
            ap (λ (y : LeaseRecord × Db). y.1) same,
            (row, g, ap (λ (y : LeaseRecord × Db). y.0) same),
          )
    ]
