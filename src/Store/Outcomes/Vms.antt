-- ===== src/Store/Outcomes/Vms.antt =====
-- The calls on VMs.
use battery.Prelude.{
  ℕ, String, Bool, true, false, ◌&&◌, some, [], ◌∷◌, ◌++◌, ◌==◌, string_eq, ◌≡◌, inl, inr,
  Bool-cases, Option-cases,
}
use battery.Types.{VmRecord, phase_eq, available}
use battery.Table.{select, find, update, remove, any}
use battery.Store.Error.{ok, Result-cases}
use battery.Store.Rows.{VmRow, vm_to_row, row_to_vm}
use battery.Store.Db.{Db, choose}
use battery.Store.Pools.{is_pool}
use battery.Store.Vms.{
  has_uid, same_vm, may_update, overwrite_vm, is_claimable, mark_leased, create_vm, update_vm,
  delete_vm, delete_vm_checking_pool, claim_available_vm,
}
use battery.Store.Outcomes.{Post}

module _ (d : Db) where
  pub create_vm-Post :
      (v : VmRecord) (Q : Unit {0} → Db → Type 0)
      → ((row : VmRow)
          → vm_to_row v ≡ ok row
          → any (λ w. same_vm w row) d.vms ≡ false
          → Q tt (record d { vms = d.vms ++ row ∷ [] }))
      → Post (create_vm v d) Q
  unfolding create_vm
  create_vm-Post v Q k = elim (Result-cases (vm_to_row v)) [
    | inr (e, h) ↦ rw h tt
    | inl (row, h) ↦ rw h (elim (Bool-cases (any (λ w. same_vm w row) d.vms)) [
      | inl g ↦ rw g tt
      | inr g ↦ rw g (k row h g)
    ])
  ]

  -- The database with the row of `row`'s VM overwritten.
  abbrev pub with_vm : VmRow → Db
  with_vm row = record d { vms = update (may_update row) (overwrite_vm row) d.vms }

  pub update_vm-Post :
      (v : VmRecord) (Q : Unit {0} → Db → Type 0)
      → ((row : VmRow)
          → vm_to_row v ≡ ok row
          → any (may_update row) d.vms ≡ true
          → Q tt (with_vm row))
      → Post (update_vm v d) Q
  unfolding update_vm
  update_vm-Post v Q k = elim (Result-cases (vm_to_row v)) [
    | inr (e, h) ↦ rw h tt
    | inl (row, h) ↦ rw h (elim (Bool-cases (any (may_update row) d.vms)) [
      | inl g ↦ rw g (k row h g)
      | inr g ↦
          rw g
            (elim (Bool-cases (any (has_uid row.uid) d.vms)) [ inl x ↦ rw x tt | inr x ↦ rw x tt ])
    ])
  ]

  pub delete_vm-Post :
      (u : String) (Q : Unit {0} → Db → Type 0)
      → (any (has_uid u) d.vms ≡ true → Q tt (record d { vms = remove (has_uid u) d.vms }))
      → Post (delete_vm u d) Q
  unfolding delete_vm
  delete_vm-Post u Q k = elim (Bool-cases (any (has_uid u) d.vms)) [
    | inr g ↦ rw g tt
    | inl g ↦ rw g (k g)
  ]

  pub delete_vm_checking_pool-Post :
      (u : String) (Q : Bool → Db → Type 0)
      → ((row : VmRow)
          → find (has_uid u) d.vms ≡ some row
          → Q
              (any (is_pool row.pool_name row.pool_namespace) d.pools)
              (record d { vms = remove (has_uid u) d.vms }))
      → Post (delete_vm_checking_pool u d) Q
  unfolding delete_vm_checking_pool
  delete_vm_checking_pool-Post u Q k = elim (Option-cases (find (has_uid u) d.vms)) [
    | inl g ↦ rw g tt
    | inr (row, g) ↦ rw g (k row g)
  ]

  pub claim_available_vm-Post :
      (now i : ℕ) (n s : String) (Q : VmRecord → Db → Type 0)
      → ((chosen : VmRow)
          → choose i (select (is_claimable n s) d.vms) ≡ some chosen
          → (row : VmRow)
          → find
              (has_uid chosen.uid)
              (update (λ v. v.uid == chosen.uid && v.phase == available) (mark_leased now) d.vms)
            ≡ some row
          → any (λ v. v.uid == chosen.uid && v.phase == available) d.vms ≡ true
          → Q (row_to_vm row) (record d {
            vms = update (λ v. v.uid == chosen.uid && v.phase == available) (mark_leased now) d.vms;
          }))
      → Post (claim_available_vm now i n s d) Q
  unfolding claim_available_vm
  claim_available_vm-Post now i n s Q k =
      elim (Option-cases (choose i (select (is_claimable n s) d.vms))) [
        | inl g ↦ rw g tt
        | inr (chosen, g) ↦
            rw g (elim (Bool-cases (any (λ v. v.uid == chosen.uid && v.phase == available) d.vms)) [
              | inr u ↦ rw u tt
              | inl u ↦
                  rw u
                    (elim (Option-cases (
                      find (has_uid chosen.uid) (
                        update (λ v. v.uid == chosen.uid && v.phase == available) (mark_leased now)
                          d.vms))) [ inl x ↦ rw x tt | inr (row, x) ↦ rw x (k chosen g row x u) ])
            ])
      ]
