-- ===== src/Reconciler/Recovery/Listed.antt =====
-- What ListVMsByPhase of internal/store/sqlite.go lists, for the recovery of internal/reconciler/reconciler.go.
use battery.Prelude.{
  ◌≡◌, refl, ap, ◌∙◌, Bool, true, ◌||◌, List, [], ◌∷◌, map, arith, ◌==◌, string_eq, All-mono, All,
  beq_refl,
}
use battery.Types.{VmRecord, VmPhase, phase_eq}
use battery.Table.{select, any, sort_by, insert_by}
use battery.Store.Error.{ok, ok-eq-ok}
use battery.Store.Rows.{VmRow, row_to_vm}
use battery.Store.Db.{Db}
use battery.Store.Vms.{list_vms_by_phase}
use battery.Store.Pools.{uid_le}

-- Every VM in phase `p` is one of `left`.
abbrev pub Listed : VmPhase → List VmRecord → VmRow → Type 0
Listed p left x = (x.phase == p) ≡ true → any (λ v. v.uid == x.uid) left ≡ true

any-insert_by :
    (q : VmRow → Bool) (le : VmRow → VmRow → Bool) (a : VmRow) (xs : List VmRow)
    → any q (insert_by le a xs) ≡ (q a || any q xs)
unfolding insert_by any
any-insert_by q le a [] = refl
any-insert_by q le a (x ∷ xs) = ground (arith, any-insert_by q le a xs)

any-sort_by :
    (q : VmRow → Bool) (le : VmRow → VmRow → Bool) (xs : List VmRow)
    → any q (sort_by le xs) ≡ any q xs
unfolding sort_by any
any-sort_by q le [] = refl
any-sort_by q le (x ∷ xs) = any-insert_by q le x (sort_by le xs) ∙ rw (any-sort_by q le xs) refl

any-map :
    (q : VmRecord → Bool) (xs : List VmRow)
    → any q (map row_to_vm xs) ≡ any (λ x. q (row_to_vm x)) xs
unfolding any
any-map q [] = refl
any-map q (x ∷ xs) = ground (arith, any-map q xs)

any-select :
    (q p : VmRow → Bool) (x : VmRow) (xs : List VmRow)
    → any q (select p xs) ≡ true
    → any q (select p (x ∷ xs)) ≡ true
unfolding any select
any-select q p x xs e = ground arith

-- Every VM in phase `p` is among those that are selected.
selected :
    (p : VmPhase) (rows : List VmRow)
    → All
        (λ x.
          (x.phase == p) ≡ true
          → any (λ r. r.uid == x.uid) (select (λ r. r.phase == p) rows) ≡ true)
        rows
unfolding select any
selected p [] = tt
selected p (x ∷ xs) = (
  first,
  All-mono _ _ xs (λ y h e. any-select (λ r. r.uid == y.uid) (λ r. r.phase == p) x xs (h e))
      (selected p xs),
)
  where
    first :
        (x.phase == p) ≡ true
        → any (λ r. r.uid == x.uid) (select (λ r. r.phase == p) (x ∷ xs)) ≡ true
    first e = rw (e, beq_refl x.uid) refl

pub select-all : (vs : List VmRecord) → select (λ _. true) vs ≡ vs
unfolding select
select-all [] = refl
select-all (v ∷ vs) = ap (λ l. v ∷ l) (select-all vs)

pub list_vms_by_phase-outcome :
    (p : VmPhase) (d d' : Db) (vms : List VmRecord)
    → list_vms_by_phase p d ≡ ok (vms, d')
    → (map row_to_vm (sort_by uid_le (select (λ r. r.phase == p) d.vms)) ≡ vms) × (d ≡ d')
unfolding list_vms_by_phase
list_vms_by_phase-outcome p d d' vms e =
    let same = ok-eq-ok e in
    (ap (λ (y : List VmRecord × Db). y.0) same, ap (λ (y : List VmRecord × Db). y.1) same)

pub found-Listed :
    (p : VmPhase) (rows : List VmRow)
    → All (Listed p (map row_to_vm (sort_by uid_le (select (λ r. r.phase == p) rows)))) rows
unfolding row_to_vm
found-Listed p rows =
    All-mono _ _ rows
      (λ x h e.
        any-map (λ v. v.uid == x.uid) (sort_by uid_le (select (λ r. r.phase == p) rows))
        ∙ any-sort_by (λ r. r.uid == x.uid) uid_le (select (λ r. r.phase == p) rows)
        ∙ h e)
      (selected p rows)

pub weaken-Listed :
    (q : VmPhase) (vs : List VmRecord) (rows : List VmRow)
    → All (Listed q []) rows
    → All (Listed q vs) rows
unfolding any
weaken-Listed q vs rows h = All-mono _ _ rows (λ x k e. absurd (cc (k e))) h
