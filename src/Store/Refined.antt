-- ===== src/Store/Refined.antt =====
-- The table of VMs of internal/store/sqlite.go as a finite map from uid to row, which forgets the order of
-- the rows.
use mathlib.Core.Path.{fun_ext, subst}
use mathlib.Core.Option
use battery.Prelude.{
  ◌≡◌, refl, sym, ap, ◌∙◌, Bool, true, false, ◌&&◌, not, String, Option, none, some, List, [], ◌∷◌,
  if◌then◌else◌, Bool-cases, Option-cases, inl, inr, beq→eq, beq_refl, ◌==◌, string_eq, All,
  All-mono, some-eq-some, and_left, str_beq_sym, arith,
}
use battery.Types.{deleting, phase_eq}
use battery.Table.{find, any, update, remove}
use battery.Table.Laws.{
  find-append, find-none, find-update, find-remove, find-matches, any_of_find, any_of_find-none,
  any-find, any-remove_self,
}
use battery.Table.Keys.{Unique, Unique-find}
use battery.Store.Error.{Result, ok, err, not_found, vm_deleting, other}
use battery.Store.Rows.{VmRow}
use battery.Store.Db.{Db}
use battery.Store.Vms.{
  has_uid, same_vm, may_update, overwrite_vm, insert_vm, update_vm_row, delete_vm,
}
use battery.Store.WellFormed.{WellFormed}

abbrev pub VmMap : Type 0
VmMap = String → Option VmRow

abbrev pub view : Db → VmMap
view d uid = find (has_uid uid) d.vms

abbrev pub viewed : Result (Unit {0} × Db) → Result VmMap
viewed (ok (_, d)) = ok (view d)
viewed (err e) = err e

-- What the calls do to a map.
abbrev pub put : String → Option VmRow → VmMap → VmMap
put uid v m k = if uid == k then v else m k

abbrev insert_at : VmRow → VmMap → Option VmRow → Result VmMap
insert_at row m none = ok (put row.uid (some row) m)
insert_at row m (some v) = err other

abbrev pub inserted : VmRow → VmMap → Result VmMap
inserted row m = insert_at row m (m row.uid)

abbrev overwrite_at : VmRow → VmMap → Option VmRow → Result VmMap
overwrite_at row m none = err not_found
overwrite_at row m (some v) =
    if v.phase == deleting && not (row.phase == deleting)
    then err vm_deleting
    else ok (put row.uid (some (overwrite_vm row v)) m)

abbrev pub overwritten : VmRow → VmMap → Result VmMap
overwritten row m = overwrite_at row m (m row.uid)

abbrev delete_at : String → VmMap → Option VmRow → Result VmMap
delete_at uid m none = err not_found
delete_at uid m (some v) = ok (put uid none m)

abbrev pub deleted : String → VmMap → Result VmMap
deleted uid m = delete_at uid m (m uid)

any_of_All : (p : VmRow → Bool) (xs : List VmRow) → All (λ x. p x ≡ false) xs → any p xs ≡ false
unfolding any
any_of_All p [] h = refl
any_of_All p (x ∷ xs) h = rw (h.0, any_of_All p xs h.1) refl

-- At most one row can be updated, the one that the uid finds.
affected :
    (row v : VmRow) (vms : List VmRow)
    → Unique same_vm vms
    → find (has_uid row.uid) vms ≡ some v
    → any (may_update row) vms ≡ may_update row v
affected row v vms u found = elim (Bool-cases (may_update row v)) [
  | inl t ↦ rw t (any-find (has_uid row.uid) (may_update row) vms found t)
  | inr t ↦ rw t (
      any_of_All (may_update row) vms (
        All-mono (λ r. find (has_uid r.uid) vms ≡ some r) (λ r. may_update row r ≡ false) vms
          (λ r self. elim (Bool-cases (may_update row r)) [
            | inr f ↦ f
            | inl f ↦
                let same : r.uid ≡ row.uid = beq→eq r.uid row.uid (and_left _ _ f) in
                let one : v ≡ r =
                  some-eq-some (sym found ∙ ap (λ i. find (has_uid i) vms) (sym same) ∙ self) in
                subst (λ x. may_update row x ≡ false) one t
          ])
          (Unique-find same_vm vms (λ x. beq_refl x.uid) u)))
]

missing :
    (row : VmRow) (vms : List VmRow)
    → any (has_uid row.uid) vms ≡ false
    → any (may_update row) vms ≡ false
unfolding any
missing row [] h = refl
missing row (x ∷ xs) h = ground (arith, missing row xs, h)

module _ (d : Db) (w : WellFormed d) where
  insert_vm-inserted : (row : VmRow) → viewed (insert_vm row d) ≡ inserted row (view d)
  unfolding insert_vm find
  insert_vm-inserted row = elim (Option-cases (find (has_uid row.uid) d.vms)) [
    | inr (v, g) ↦ rw (g, any_of_find (has_uid row.uid) d.vms g) refl
    | inl g ↦
        let free = any_of_find-none (has_uid row.uid) d.vms g in
        rw (g, free)
          (ap ok (
            fun_ext λ k. elim (Bool-cases (row.uid == k)) [
              | inl t ↦
                  find-append (has_uid k) d.vms (row ∷ [])
                  ∙ rw (t, subst (λ i. any (has_uid i) d.vms ≡ false) (beq→eq row.uid k t) free)
                      refl
              | inr t ↦
                  find-append (has_uid k) d.vms (row ∷ [])
                  ∙ rw t (elim (Bool-cases (any (has_uid k) d.vms)) [
                    | inl a ↦ rw a refl
                    | inr a ↦ rw (a, find-none (has_uid k) d.vms a) refl
                  ])
            ]))
  ]

  delete_vm-deleted : (uid : String) → viewed (delete_vm uid d) ≡ deleted uid (view d)
  unfolding delete_vm
  delete_vm-deleted uid = elim (Option-cases (find (has_uid uid) d.vms)) [
    | inl g ↦ rw (g, any_of_find-none (has_uid uid) d.vms g) refl
    | inr (v, g) ↦
        rw (g, any_of_find (has_uid uid) d.vms g)
          (ap ok (
            fun_ext λ k. elim (Bool-cases (uid == k)) [
              | inl t ↦ rw t (
                  find-none (has_uid k) (remove (has_uid uid) d.vms) (
                    subst (λ i. any (has_uid i) (remove (has_uid uid) d.vms) ≡ false)
                      (beq→eq uid k t) (any-remove_self (has_uid uid) d.vms)))
              | inr t ↦ rw t (
                  find-remove (has_uid uid) (has_uid k) d.vms
                    (λ x e. rw (beq→eq x.uid k e, str_beq_sym k uid) t))
            ]))
  ]

  -- The map after an UPDATE of the row `v`.
  view-update :
      (row v : VmRow) (k : String)
      → find (has_uid row.uid) d.vms ≡ some v
      → may_update row v ≡ true
      → find (has_uid k) (update (may_update row) (overwrite_vm row) d.vms)
        ≡ put row.uid (some (overwrite_vm row v)) (view d) k
  view-update row v k g m = elim (Bool-cases (row.uid == k)) [
    | inl t ↦ rw t (
        subst
          (λ i.
            find (has_uid i) (update (may_update row) (overwrite_vm row) d.vms)
            ≡ some (overwrite_vm row v))
          (beq→eq row.uid k t) (moved row.uid ∙ rw (g, m) refl))
    | inr t ↦ rw t (
        moved k ∙ elim (Option-cases (find (has_uid k) d.vms)) [
          | inl e ↦ rw e refl
          | inr (x, e) ↦ rw (e, other_row x e t) refl
        ])
  ]
    where
      moved :
          (i : String)
          → find (has_uid i) (update (may_update row) (overwrite_vm row) d.vms)
            ≡ Option.map
                (λ x. if may_update row x then overwrite_vm row x else x)
                (find (has_uid i) d.vms)
      moved i = find-update (may_update row) (has_uid i) (overwrite_vm row) d.vms (λ x. refl)

      other_row :
          (x : VmRow)
          → find (has_uid k) d.vms ≡ some x
          → (row.uid == k) ≡ false
          → may_update row x ≡ false
      other_row x e t =
          rw (beq→eq x.uid k (find-matches (has_uid k) d.vms e), str_beq_sym k row.uid, t) refl

  update_vm_row-overwritten :
      (row : VmRow) → viewed (update_vm_row row d) ≡ overwritten row (view d)
  unfolding update_vm_row
  update_vm_row-overwritten row = elim (Option-cases (find (has_uid row.uid) d.vms)) [
    | inl g ↦
        let gone = any_of_find-none (has_uid row.uid) d.vms g in
        rw (g, gone, missing row d.vms gone) refl
    | inr (v, g) ↦
        let hit = affected row v d.vms w.vm_keys g in
        let there = any_of_find (has_uid row.uid) d.vms g in
        let named = find-matches (has_uid row.uid) d.vms g in
        elim (Bool-cases (v.phase == deleting)) [
          | inr f ↦
              let m : may_update row v ≡ true = rw (named, f) refl in
              rw (g, hit, m, f) (ap ok (fun_ext λ k. view-update row v k g m))
          | inl f ↦ elim (Bool-cases (row.phase == deleting)) [
            | inl r ↦
                let m : may_update row v ≡ true = rw (named, f, r) refl in
                rw (g, hit, m, f, r) (ap ok (fun_ext λ k. view-update row v k g m))
            | inr r ↦
                let m : may_update row v ≡ false = rw (named, f, r) refl in
                rw (g, hit, m, there, f, r) refl
          ]
        ]
  ]

-- On a well-formed database, the INSERT of createVM, the UPDATE of updateVM and the DELETE of DeleteVM do
-- to the table of VMs exactly what `inserted`, `overwritten` and `deleted` do to a map from uid to
-- row: the same error, or the same map, whatever the order of the rows.
pub vms_refine :
    (d : Db)
    → WellFormed d
    → ((row : VmRow) → viewed (insert_vm row d) ≡ inserted row (view d))
      × ((row : VmRow) → viewed (update_vm_row row d) ≡ overwritten row (view d))
      × ((uid : String) → viewed (delete_vm uid d) ≡ deleted uid (view d))
vms_refine d w = (insert_vm-inserted d w, update_vm_row-overwritten d w, delete_vm-deleted d w)
