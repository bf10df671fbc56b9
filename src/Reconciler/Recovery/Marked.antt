-- ===== src/Reconciler/Recovery/Marked.antt =====
-- After the recovery of internal/reconciler/reconciler.go no VM is left in the phases that it looks for.
use mathlib.Core.Path.{subst}
use battery.Prelude.{
  ℕ, suc, ◌≡◌, refl, sym, ◌∙◌, Bool, true, false, ◌||◌, not, some, List, [], ◌∷◌, arith, ◌==◌,
  string_eq, if◌then◌else◌, Bool-cases, inl, inr, All, beq→eq, beq_refl,
}
use battery.Types.{VmRecord, VmPhase, provisioning, create_hook_running, deleting, phase_eq}
use battery.Table.{select, any, update}
use battery.Store.Error.{Result, ok, err}
use battery.Store.Rows.{VmRow, vm_to_row, require_timestamp}
use battery.Store.Db.{Db}
use battery.Store.Vms.{update_vm, may_update, overwrite_vm, list_vms_by_phase}
use battery.Store.Outcomes.{Post-ok}
use battery.Store.Outcomes.Vms.{update_vm-Post}
use battery.World.{World, Prog, fail, store}
use battery.World.Quiet.{Quiet, Ends, Ends-store, Ends-bind}
use battery.Reconciler.Recovery.Listed.{
  Listed, select-all, list_vms_by_phase-outcome, found-Listed, weaken-Listed,
}
use battery.Reconciler.Recovery.{mark_all, mark_phase, recover_abandoned_provisions}

-- An unmarked row is not that of the VM.
other_row :
    (v : VmRecord) (row x : VmRow)
    → row.uid ≡ v.uid
    → row.phase ≡ deleting
    → may_update row x ≡ false
    → (v.uid == x.uid) ≡ false
other_row v row x named marked off = elim (Bool-cases (v.uid == x.uid)) [
  | inr e ↦ e
  | inl e ↦
      let same : x.uid ≡ row.uid = sym (beq→eq v.uid x.uid e) ∙ sym named in cc (off, updated same)
]
  where
    free : (b : Bool) → (not b || true) ≡ true
    free true = refl
    free false = refl

    updated : x.uid ≡ row.uid → may_update row x ≡ true
    updated same = rw (same, marked, beq_refl row.uid) (free (x.phase == deleting))

keep_or_mark :
    (p : VmPhase) (v : VmRecord) (vs : List VmRecord) (row x : VmRow)
    → (p == deleting) ≡ false
    → row.uid ≡ v.uid
    → row.phase ≡ deleting
    → Listed p (v ∷ vs) x
    → Listed p vs (if may_update row x then overwrite_vm row x else x)
unfolding any
keep_or_mark p v vs row x live named marked h = elim (Bool-cases (may_update row x)) [
  | inl m ↦ rw m (λ e. absurd (cc (live, alive e)))
  | inr m ↦ rw m (λ e. rw (other_row v row x named marked m) at (h e))
]
  where
    alive : (row.phase == p) ≡ true → (p == deleting) ≡ true
    alive e = rw (sym (beq→eq row.phase p e), marked) refl

-- The row that a mark writes is DELETING.
overwrite-Listed :
    (p : VmPhase) (v : VmRecord) (vs : List VmRecord) (row : VmRow) (rows : List VmRow)
    → (p == deleting) ≡ false
    → row.uid ≡ v.uid
    → row.phase ≡ deleting
    → All (Listed p (v ∷ vs)) rows
    → All (Listed p vs) (update (may_update row) (overwrite_vm row) rows)
unfolding any update
overwrite-Listed p v vs row [] live named marked h = tt
overwrite-Listed p v vs row (x ∷ xs) live named marked h = (
  keep_or_mark p v vs row x live named marked h.0,
  overwrite-Listed p v vs row xs live named marked h.1,
)

vm_to_row-fields :
    (v : VmRecord) (row : VmRow) → vm_to_row v ≡ ok row → (row.uid ≡ v.uid) × (row.phase ≡ v.phase)
unfolding vm_to_row require_timestamp
vm_to_row-fields v row e = ground arith

-- After the marks, no VM is in phase `p`, if none fails.
abbrev pub Cleared : VmPhase → Result ℕ → World → Type 0
Cleared p (ok n) x = Quiet x × All (Listed p []) x.db.vms
Cleared p (err e) x = Unit {0}

-- With `left` still to be marked.
abbrev Left : VmPhase → List VmRecord → Result (Unit {0}) → World → Type 0
Left p left (ok u) x = Quiet x × All (Listed p left) x.db.vms
Left p left (err e) x = Unit {0}

mark-Listed :
    (p : VmPhase) (v : VmRecord) (vs : List VmRecord) (t : ℕ) (d d' : Db) (u : Unit {0})
    → (p == deleting) ≡ false
    → update_vm (record v { phase = deleting; updated_at = some t }) d ≡ ok (u, d')
    → All (Listed p (v ∷ vs)) d.vms
    → All (Listed p vs) d'.vms
mark-Listed p v vs t d d' u live e h =
    let w = record v { phase = deleting; updated_at = some t } in
    Post-ok (update_vm w d) (λ _ x. All (Listed p vs) x.vms)
      (update_vm-Post d w (λ _ x. All (Listed p vs) x.vms)
        λ row is_row _.
          let fields = vm_to_row-fields w row is_row in
          overwrite-Listed p v vs row d.vms live fields.0 fields.1 h)
      e

module _ (p : VmPhase) (live : (p == deleting) ≡ false) where
  mark_all-Cleared :
      (vs : List VmRecord) (w : World)
      → Quiet w
      → All (Listed p vs) w.db.vms
      → Ends (mark_all vs w) (Cleared p)
  mark_all-Cleared [] w q h = (q, h)
  mark_all-Cleared (v ∷ vs) w q h =
      let t = w.env.clock w.time in
      Ends-bind (store (update_vm (record v { phase = deleting; updated_at = some t })) w) _
        (Left p vs) (Cleared p)
        (Ends-store (update_vm (record v { phase = deleting; updated_at = some t })) w (Left p vs) q
          (λ u d e. (q, mark-Listed p v vs t w.db d u live e h)) (λ e f. tt))
        (λ u x k.
          Ends-bind (mark_all vs x) _ (Cleared p) (Cleared p) (mark_all-Cleared vs x k.0 k.1)
            (λ n y c. c) (λ e y c. c))
        (λ e x k. tt)

abbrev mark_listed : Result (List VmRecord) → Prog ℕ
mark_listed (ok vms) = mark_all (select (λ _. true) vms)
mark_listed (err e) = fail e

module _ (p : VmPhase) where
  -- The marks of one phase clear it.
  mark_phase-Cleared :
      (w : World)
      → (p == deleting) ≡ false
      → Quiet w
      → Ends (mark_phase (λ _. true) p w) (Cleared p)
  mark_phase-Cleared w live q =
      Ends-bind (store (list_vms_by_phase p) w) _ (λ o x. Ends (mark_listed o x) (Cleared p))
        (Cleared p)
        (Ends-store (list_vms_by_phase p) w (λ o x. Ends (mark_listed o x) (Cleared p)) q
          (λ vms d e.
            let out = list_vms_by_phase-outcome p w.db d vms e in
            mark_all-Cleared p live (select (λ _. true) vms)
              (record w { db = d; time = suc w.time }) q
              (rw (select-all vms, sym out.0, sym out.1) (found-Listed p w.db.vms)))
          (λ e f. tt))
        (λ vms x h. h) (λ e x h. tt)

  -- They leave another phase clear that is.
  mark_phase-keeps :
      (r : VmPhase) (w : World)
      → (r == deleting) ≡ false
      → Quiet w
      → All (Listed r []) w.db.vms
      → Ends (mark_phase (λ _. true) p w) (Cleared r)
  mark_phase-keeps r w live q h =
      Ends-bind (store (list_vms_by_phase p) w) _ (λ o x. Ends (mark_listed o x) (Cleared r))
        (Cleared r)
        (Ends-store (list_vms_by_phase p) w (λ o x. Ends (mark_listed o x) (Cleared r)) q
          (λ vms d e.
            let out = list_vms_by_phase-outcome p w.db d vms e in
            mark_all-Cleared r live (select (λ _. true) vms)
              (record w { db = d; time = suc w.time }) q
              (weaken-Listed r (select (λ _. true) vms) d.vms (rw (sym out.1) h)))
          (λ e f. tt))
        (λ vms x k. k) (λ e x k. tt)

cleared-both :
    (p r : VmPhase) (rows : List VmRow)
    → All (Listed p []) rows
    → All (Listed r []) rows
    → any (λ x. x.phase == p || x.phase == r) rows ≡ false
unfolding any
cleared-both p r [] h k = refl
cleared-both p r (x ∷ xs) h k = ground (arith, cleared-both p r xs h.1 k.1, h.0, k.0)

abbrev AllCleared : Result ℕ → World → Type 0
AllCleared (ok n) x =
    any (λ v. v.phase == provisioning || v.phase == create_hook_running) x.db.vms ≡ false
AllCleared (err e) x = Unit {0}

recover_abandoned_provisions-AllCleared :
    (w : World) → Quiet w → Ends (recover_abandoned_provisions w) AllCleared
unfolding recover_abandoned_provisions
recover_abandoned_provisions-AllCleared w q =
    Ends-bind (mark_phase (λ _. true) provisioning w) _ (Cleared provisioning) AllCleared
      (mark_phase-Cleared provisioning w refl q)
      (λ n x c.
        Ends-bind (mark_phase (λ _. true) create_hook_running x) _
          (λ o y. Cleared create_hook_running o y × Cleared provisioning o y) AllCleared
          (
            mark_phase-Cleared create_hook_running x refl c.0,
            mark_phase-keeps create_hook_running provisioning x refl c.0 c.1,
          )
          (λ m y k. cleared-both provisioning create_hook_running y.db.vms k.1.1 k.0.1)
          (λ e y k. tt))
      (λ e x c. tt)

-- RecoverAbandonedProvisions that succeeds, while no other goroutine calls the store, leaves no VM in any
-- pool that is PROVISIONING or CREATE_HOOK_RUNNING.
pub recover_abandoned_provisions_clears :
    (w x : World) (n : ℕ)
    → Quiet w
    → recover_abandoned_provisions w ≡ (ok n, x)
    → any (λ v. v.phase == provisioning || v.phase == create_hook_running) x.db.vms ≡ false
recover_abandoned_provisions_clears w x n q e =
    subst (λ r. AllCleared r.0 r.1) e (recover_abandoned_provisions-AllCleared w q)
