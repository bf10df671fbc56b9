-- ===== src/Examples/Managers.antt =====
-- The theorems on the pool manager, the sweeper's warnings and the map of VMs.
use battery.Prelude.{ℕ, ◌≤◌, ◌≡◌, refl, true, false, String, List, [], ◌∷◌, some, string_eq}
use battery.Table.{any, find, remove, select}
use battery.Store.Rows.{VmRow}
use battery.Store.Vms.{insert_vm, update_vm_row, delete_vm}
use battery.Store.Refined.{view, viewed, inserted, overwritten, deleted, vms_refine}
use battery.World.{World}
use battery.Manager.{
  Handle, Manager, Occurrence, start, close, shutdown, advance_all, stop_and_wait, no_reconcilers,
  start_reconciler, cancel_and_forget, close_done, shut_down,
}
use battery.Manager.Waited.{stop_and_wait_waits}
use battery.Reconciler.Sweeper.{Warned}
use battery.Examples.Data.{base, base-WellFormed}
use battery.Examples.Leases.{start as start_world}

abbrev handle : ℕ → Handle
handle n = record { name = "web"; namespace = "prod"; number = n }

abbrev history : List Occurrence
history = start "web" "prod" true ∷ []

-- The goroutine exits, and the pool is created again.
abbrev waiting : List Occurrence
waiting = close (handle 0) ∷ start "web" "prod" true ∷ []

abbrev restarted : Manager
restarted = record {
  handles = handle 1 ∷ [];
  exiting = handle 0 ∷ [];
  running = handle 1 ∷ [];
  next = 2;
  stopped = false;
}

stop_and_wait_waits_example : 1 ≤ 1
unfolding stop_and_wait advance_all start_reconciler cancel_and_forget close_done any find remove
    select
stop_and_wait_waits_example =
    stop_and_wait_waits history [] waiting "web" "prod" restarted (handle 1) refl refl refl refl

-- Run forgets the handles without recording them as exiting: a call that comes after that returns at once.
abbrev shutting_down : Manager
shutting_down = record {
  handles = [];
  exiting = [];
  running = handle 0 ∷ [];
  next = 1;
  stopped = true;
}

returns_at_shutdown :
    stop_and_wait "web" "prod" [] []
      (advance_all no_reconcilers (start "web" "prod" true ∷ shutdown ∷ []))
    ≡ some shutting_down
unfolding stop_and_wait advance_all start_reconciler cancel_and_forget shut_down any find remove
    select
returns_at_shutdown = refl

vms_refine_example :
    ((row : VmRow) → viewed (insert_vm row base) ≡ inserted row (view base))
    × ((row : VmRow) → viewed (update_vm_row row base) ≡ overwritten row (view base))
    × ((uid : String) → viewed (delete_vm uid base) ≡ deleted uid (view base))
vms_refine_example = vms_refine base base-WellFormed
