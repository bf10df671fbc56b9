-- ===== src/Store/Deleting.antt =====
-- DELETING is terminal: the guard of updateVM, the phase tests of the other UPDATEs and the primary
-- key of `vms` together, for every call of internal/store/sqlite.go.
use battery.Prelude.{
  ℕ, ◌≡◌, refl, ap, true, false, ◌&&◌, String, List, [], ◌∷◌, All, All-append, arith, ◌==◌,
  string_eq, beq→eq,
}
use battery.Types.{deleting, available, phase_eq}
use battery.Table.{any}
use battery.Table.Laws.{All-update, All-remove}
use battery.Store.Rows.{VmRow}
use battery.Store.Db.{Db}
use battery.Store.Pools.{mark_deleting}
use battery.Store.Vms.{has_uid, same_vm, may_update, overwrite_vm, mark_leased}
use battery.Store.Call.{Call, step}
use battery.Store.Moves.{VmsMove, keep, insert, overwrite, claim, mark, erase}
use battery.Store.Moves.Step.{step-Moves}

-- The row, if it is that of VM `uid`, is DELETING.
abbrev pub DeletingIf : String → VmRow → Type 0
DeletingIf uid v = (v.uid == uid) ≡ true → v.phase ≡ deleting

-- The VM `uid` has no row, or its row is DELETING.
abbrev pub IsDeletingOrGone : String → Db → Type 0
IsDeletingOrGone uid d = All (DeletingIf uid) d.vms

overwrite_vm-DeletingIf :
    (uid : String) (row x : VmRow)
    → may_update row x ≡ true
    → DeletingIf uid x
    → DeletingIf uid (overwrite_vm row x)
overwrite_vm-DeletingIf uid row x m h u = ground (arith, h u)

mark_leased-DeletingIf :
    (uid other : String) (now : ℕ) (x : VmRow)
    → (x.uid == other && x.phase == available) ≡ true
    → DeletingIf uid x
    → DeletingIf uid (mark_leased now x)
mark_leased-DeletingIf uid other now x m h u = ground (arith, h u)

-- An INSERT cannot bring the uid of a row that is there.
append-DeletingIf :
    (uid : String) (row : VmRow) (vms : List VmRow)
    → any (has_uid uid) vms ≡ true
    → any (λ w. same_vm w row) vms ≡ false
    → DeletingIf uid row
append-DeletingIf uid row vms there free u =
    cc (there, free, ap (λ (t : String). any (has_uid t) vms) (beq→eq row.uid uid u))

module _ (uid : String) (d : Db) (there : any (has_uid uid) d.vms ≡ true) where
  VmsMove-DeletingIf :
      (vms : List VmRow) → VmsMove d vms → All (DeletingIf uid) d.vms → All (DeletingIf uid) vms
  VmsMove-DeletingIf vms (keep e) h = rw e h
  VmsMove-DeletingIf vms (insert row free e) h = rw e (
      All-append (DeletingIf uid) d.vms (row ∷ []) h
        (append-DeletingIf uid row d.vms there free, tt))
  VmsMove-DeletingIf vms (overwrite row e) h =
      rw e (All-update (DeletingIf uid) _ _ d.vms (overwrite_vm-DeletingIf uid row) h)
  VmsMove-DeletingIf vms (claim now other e) h =
      rw e (All-update (DeletingIf uid) _ _ d.vms (mark_leased-DeletingIf uid other now) h)
  VmsMove-DeletingIf vms (mark now p e) h =
      rw e (All-update (DeletingIf uid) p (mark_deleting now) d.vms (λ x _ _ _. refl) h)
  VmsMove-DeletingIf vms (erase other e) h =
      rw e (All-remove (DeletingIf uid) (has_uid other) d.vms h)

-- A VM that has a row and is DELETING: after any call that the store serves, it is still DELETING
-- or its row is gone.
pub deleting_terminal :
    (uid : String) (d : Db) (c : Call)
    → any (has_uid uid) d.vms ≡ true
    → IsDeletingOrGone uid d
    → IsDeletingOrGone uid (step d c)
deleting_terminal uid d c there h =
    VmsMove-DeletingIf uid d there (step d c).vms (step-Moves d c).vms h
