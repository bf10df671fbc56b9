-- ===== src/Reconciler/Policy.antt =====
-- The hook failure policy of internal/reconciler/provision.go: ApplyHookFailurePolicy and what it calls.
-- Metrics and log lines are left out; a deadline that passes is a store call that fails, or flintlock
-- not answering.
pub mod Kept
use battery.Prelude.{none, some, Bool, true, false}
use battery.Types.{
  VmRecord, PoolSpec, HookFailurePolicy, quarantine, quarantined, deleting, vm_hook_failed,
}
use battery.Store.Vms.{create_vm, update_vm}
use battery.World.{Prog, ◌>>=◌, ◌>>◌, try, ignore, store, now, connect, delete_micro_vm}
use battery.Reconciler.Deletion.{emit_event, ensure_vm_deleted_checking_pool}

-- The VM is marked DELETING, if the store lets it, and then deleted; what fails is left to the sweeper.
unfoldable pub delete_after_hook_failure : VmRecord → Prog (Unit {0})
unfolding ensure_vm_deleted_checking_pool
delete_after_hook_failure vm = do
  at ← now
  ignore (store (update_vm (record vm { phase = deleting; lease_id = none; updated_at = some at })))
  ignore (
      ensure_vm_deleted_checking_pool
        (record vm { phase = deleting; lease_id = none; updated_at = some at }))

-- Every value but QUARANTINE deletes.
unfoldable pub settle : HookFailurePolicy → VmRecord → Prog (Unit {0})
unfolding delete_after_hook_failure
settle quarantine vm = do
  at ← now
  ignore
      (store (update_vm (record vm { phase = quarantined; lease_id = none; updated_at = some at })))
settle _ vm = delete_after_hook_failure vm

unfoldable pub apply_hook_failure_policy : PoolSpec → VmRecord → Prog (Unit {0})
unfolding settle emit_event
apply_hook_failure_policy p vm = do
  settle p.hook_failure_policy vm
  emit_event p.name p.namespace vm.uid vm_hook_failed

-- The microVM is there and CreateVM has failed: record it as DELETING and delete it, or, if the store
-- refuses the record as well, delete it without.
unfoldable pub delete_orphan : VmRecord → Prog (Unit {0})
unfolding ensure_vm_deleted_checking_pool
delete_orphan vm = do
  at ← now
  try (store (create_vm (record vm { phase = deleting; updated_at = some at })))
      (λ _. ignore (do connect; delete_micro_vm vm.uid))
      (λ _.
        ignore
          (ensure_vm_deleted_checking_pool (record vm { phase = deleting; updated_at = some at })))
