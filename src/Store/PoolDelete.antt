-- ===== src/Store/PoolDelete.antt =====
-- DeletePoolAndMarkVMs of internal/store/sqlite.go.
use mathlib.Core.Path.{subst}
use battery.Prelude.{
  ℕ, ◌≡◌, refl, sym, ap, ◌∙◌, Bool, true, false, ◌&&◌, ◌||◌, not, none, some, String, List, [], ◌∷◌,
  map, arith, string_eq, Bool-cases, inl, inr, ◌⊎◌, All, some-eq-some,
}
use battery.Types.{deleting, phase_eq}
use battery.Table.{select, find, update, remove, any, sort_by}
use battery.Table.Laws.{find-update, any-remove_self}
use battery.Store.Error.{ok, err, not_found, pool_has_leased_vms}
use battery.Store.Rows.{PoolRow, VmRow, LeaseRow, row_to_vm}
use battery.Store.Db.{Db}
use battery.Store.Pools.{
  is_pool, vm_in_pool, lease_in_pool, is_held, mark_deleting, uid_le, delete_pool_and_mark_vms,
}
use battery.Store.Vms.{has_uid}
use battery.Store.Leases.{has_lease_id}

-- A VM of pool (n, s) is DELETING and has no lease.
abbrev pub Condemned : String → String → VmRow → Type 0
Condemned n s v = vm_in_pool n s v ≡ true → (v.phase ≡ deleting) × (v.lease_id ≡ none)

-- What the delete of pool (n, s) from `d` to `d'` has done.
pub record PoolDeleted (n s : String) (d d' : Db) : Type 0 where
  pub gone : any (is_pool n s) d'.pools ≡ false
  pub other_pools :
      (m r : String) (row : PoolRow)
      → find (is_pool m r) d.pools ≡ some row
      → is_pool n s row ≡ false
      → find (is_pool m r) d'.pools ≡ some row
  pub condemned : All (Condemned n s) d'.vms
  pub unleased : any (lease_in_pool n s) d'.leases ≡ false
  pub other_vms :
      (uid : String) (v : VmRow)
      → find (has_uid uid) d.vms ≡ some v
      → vm_in_pool n s v ≡ false
      → find (has_uid uid) d'.vms ≡ some v
  pub other_leases :
      (id : String) (l : LeaseRow)
      → find (has_lease_id id) d.leases ≡ some l
      → lease_in_pool n s l ≡ false
      → find (has_lease_id id) d'.leases ≡ some l
  pub rest : d' ≡ record d { pools = d'.pools; vms = d'.vms; leases = d'.leases }

marked-Condemned :
    (now : ℕ) (n s : String) (vs : List VmRow)
    → All (Condemned n s) (update (vm_in_pool n s) (mark_deleting now) vs)
unfolding update
marked-Condemned now n s [] = tt
marked-Condemned now n s (v ∷ vs) = elim (Bool-cases (vm_in_pool n s v)) [
  | inl e ↦ rw e ((λ _. (refl, refl)), marked-Condemned now n s vs)
  | inr e ↦ rw e ((λ t. cc (t, e)), marked-Condemned now n s vs)
]

-- A row that the DELETE does not match is found as before.
kept_row :
    {A : Type 0} (p q : A → Bool) (rows : List A) (row : A)
    → find q rows ≡ some row
    → p row ≡ false
    → find q (remove p rows) ≡ some row
unfolding find remove
kept_row p q [] row e off = cc
kept_row p q (x ∷ xs) row e off = elim (Bool-cases (q x)) [
  | inl t ↦
      let same : row ≡ x = sym (some-eq-some (rw t at e)) in
      rw (subst (λ y. p y ≡ false) same off, t) (ap some (sym same))
  | inr t ↦
      let rest = kept_row p q xs row (rw t at e) off in
      elim (Bool-cases (p x)) [ inl u ↦ rw u rest | inr u ↦ rw (u, t) rest ]
]

-- DeletePoolAndMarkVMs on every branch: there is no such pool; a VM of the pool is LEASED or
-- PRE_LEASE_HOOK_RUNNING and the delete is not forced; or the pool and its leases are gone, its VMs are DELETING without a lease
-- and are what is returned, and no other row has changed.
pub delete_pool_and_mark_vms_cases :
    (now : ℕ) (n s : String) (force : Bool) (d : Db)
    → ((any (is_pool n s) d.pools ≡ false)
        × (delete_pool_and_mark_vms now n s force d ≡ err not_found))
      ⊎ ((force ≡ false)
          × ((any (λ v. vm_in_pool n s v && is_held v) d.vms ≡ true)
              × (delete_pool_and_mark_vms now n s force d ≡ err pool_has_leased_vms)))
      ⊎ ((d' : Db) × ((delete_pool_and_mark_vms now n s force d
              ≡ ok (map row_to_vm (sort_by uid_le (select (vm_in_pool n s) d'.vms)), d'))
            × (((force || not (any (λ v. vm_in_pool n s v && is_held v) d.vms)) ≡ true)
                × PoolDeleted n s d d')))
unfolding delete_pool_and_mark_vms
delete_pool_and_mark_vms_cases now n s force d = elim (Bool-cases (any (is_pool n s) d.pools)) [
  | inr e ↦ inl (e, rw e refl)
  | inl e ↦ elim (Bool-cases (force || not (any (λ v. vm_in_pool n s v && is_held v) d.vms))) [
    | inr u ↦ inr (inl (ground (arith, u), (ground (arith, u), rw (e, u) refl)))
    | inl u ↦ inr (
        inr (
          _,
          (
            rw (e, u) refl,
            (
              u,
              record {
                gone = any-remove_self (is_pool n s) d.pools;
                other_pools =
                    λ m r row f off. kept_row (is_pool n s) (is_pool m r) d.pools row f off;
                condemned = marked-Condemned now n s d.vms;
                unleased = any-remove_self (lease_in_pool n s) d.leases;
                other_vms = λ uid v f off.
                    find-update (vm_in_pool n s) (has_uid uid) (mark_deleting now) d.vms (λ _. refl)
                    ∙ rw (f, off) refl;
                other_leases =
                    λ id l f off. kept_row (lease_in_pool n s) (has_lease_id id) d.leases l f off;
                rest = refl;
              },
            ),
          ),
        ))
  ]
]
