-- ===== src/Store/Outcomes/Pools.antt =====
-- The calls on pools.
use battery.Prelude.{
  ℕ, String, Bool, true, false, ◌&&◌, ◌||◌, not, List, [], ◌∷◌, ◌++◌, map, string_eq, ◌≡◌, inl, inr,
  Bool-cases,
}
use battery.Types.{PoolSpec, VmRecord, phase_eq}
use battery.Table.{select, update, remove, any, sort_by}
use battery.Store.Error.{ok, Result-cases}
use battery.Store.Rows.{PoolRow, pool_to_row, row_to_vm}
use battery.Store.Db.{Db}
use battery.Store.Pools.{
  is_pool, same_pool, vm_in_pool, lease_in_pool, is_held, mark_deleting, uid_le, create_pool,
  update_pool, delete_pool, delete_pool_and_mark_vms,
}
use battery.Store.Outcomes.{Post}

module _ (d : Db) where
  pub create_pool-Post :
      (p : PoolSpec) (Q : Unit {0} → Db → Type 0)
      → ((row : PoolRow)
          → pool_to_row p ≡ ok row
          → any (λ r. same_pool r row) d.pools ≡ false
          → Q tt (record d { pools = d.pools ++ row ∷ [] }))
      → Post (create_pool p d) Q
  unfolding create_pool
  create_pool-Post p Q k = elim (Result-cases (pool_to_row p)) [
    | inr (e, h) ↦ rw h tt
    | inl (row, h) ↦ rw h (elim (Bool-cases (any (λ r. same_pool r row) d.pools)) [
      | inl g ↦ rw g tt
      | inr g ↦ rw g (k row h g)
    ])
  ]

  pub update_pool-Post :
      (p : PoolSpec) (Q : Unit {0} → Db → Type 0)
      → ((row : PoolRow)
          → pool_to_row p ≡ ok row
          → any (is_pool row.name row.namespace) d.pools ≡ true
          → Q tt (record d {
            pools =
                update
                  (is_pool row.name row.namespace)
                  (λ r. record row { name = r.name; namespace = r.namespace })
                  d.pools;
          }))
      → Post (update_pool p d) Q
  unfolding update_pool
  update_pool-Post p Q k = elim (Result-cases (pool_to_row p)) [
    | inr (e, h) ↦ rw h tt
    | inl (row, h) ↦ rw h (elim (Bool-cases (any (is_pool row.name row.namespace) d.pools)) [
      | inr g ↦ rw g tt
      | inl g ↦ rw g (k row h g)
    ])
  ]

  pub delete_pool-Post :
      (n s : String) (Q : Unit {0} → Db → Type 0)
      → (any (is_pool n s) d.pools ≡ true
          → Q tt (record d { pools = remove (is_pool n s) d.pools }))
      → Post (delete_pool n s d) Q
  unfolding delete_pool
  delete_pool-Post n s Q k = elim (Bool-cases (any (is_pool n s) d.pools)) [
    | inr g ↦ rw g tt
    | inl g ↦ rw g (k g)
  ]

  -- The database that a delete of pool `n` in namespace `s` commits.
  abbrev pub without_pool : ℕ → String → String → Db
  without_pool now n s = record d {
    pools = remove (is_pool n s) d.pools;
    vms = update (vm_in_pool n s) (mark_deleting now) d.vms;
    leases = remove (lease_in_pool n s) d.leases;
  }

  pub delete_pool_and_mark_vms-Post :
      (now : ℕ) (n s : String) (force : Bool) (Q : List VmRecord → Db → Type 0)
      → (any (is_pool n s) d.pools ≡ true
          → (force || not (any (λ v. vm_in_pool n s v && is_held v) d.vms)) ≡ true
          → Q
              (map row_to_vm (
                sort_by uid_le
                  (select (vm_in_pool n s) (update (vm_in_pool n s) (mark_deleting now) d.vms))))
              (without_pool now n s))
      → Post (delete_pool_and_mark_vms now n s force d) Q
  unfolding delete_pool_and_mark_vms
  delete_pool_and_mark_vms-Post now n s force Q k = elim (Bool-cases (any (is_pool n s) d.pools)) [
    | inr g ↦ rw g tt
    | inl g ↦
        rw g (elim (Bool-cases (force || not (any (λ v. vm_in_pool n s v && is_held v) d.vms))) [
          | inr u ↦ rw u tt
          | inl u ↦ rw u (k g u)
        ])
  ]
