-- ===== src/Api/Claim/Hooks.antt =====
-- runPreLeaseHooks and applyHookFailurePolicy of internal/api/lease.go.
use battery.Prelude.{List, some, string_eq}
use battery.Types.{VmRecord, PoolSpec, phase_eq}
use battery.Store.Rows.{LeaseRow}
use battery.Store.Vms.{update_vm}
use battery.Reconciler.Policy.Kept.{apply_hook_failure_policy-Safe}
use battery.Api.Pools.{is_quarantine}
use battery.World.{store, pure, connect}
use battery.World.Steady.{Holds-connect}
use battery.Api.Claim.{give_up, abandon, run_hooks, run_pre_lease_hooks, is_vm_deleted, hook_failed}
use battery.World.{execute_all}
use battery.World.Steady.{Safe, Safe-bind, Safe-if, Safe-try, Holds-store, Holds-execute_all}
use battery.Reconciler.Policy.{apply_hook_failure_policy}
use battery.Types.{pre_lease_hook_running}
use battery.Api.Claim.Replayed.{Kept}
use battery.Api.Claim.Backed.{leases-VmCalls, update_vm-Kept}

module _ (leases : List LeaseRow) where
  pub give_up-Safe : (p : PoolSpec) (vm : VmRecord) → Safe (Kept leases) (give_up p vm)
  unfolding give_up
  give_up-Safe p vm =
      Safe-bind (Kept leases) (apply_hook_failure_policy p vm) _
        (apply_hook_failure_policy-Safe (Kept leases) (leases-VmCalls leases) p vm)
        (λ _. Safe-if (Kept leases) (is_quarantine p) _ _ (λ w s. s) (λ w s. s))

  abandon-Safe : (p : PoolSpec) (vm : VmRecord) → Safe (Kept leases) (abandon p vm)
  abandon-Safe p vm =
      Safe-bind (Kept leases) (give_up p vm) (λ _. pure hook_failed) (give_up-Safe p vm)
        (λ _ w s. s)

  pub run_pre_lease_hooks-Safe :
      (p : PoolSpec) (vm : VmRecord) → Safe (Kept leases) (run_pre_lease_hooks p vm)
  unfolding run_pre_lease_hooks
  run_pre_lease_hooks-Safe p vm w s =
      let v = record vm {
        phase = pre_lease_hook_running;
        updated_at = some (w.env.clock w.time);
      } in
      Safe-try (Kept leases) (store (update_vm v)) _ (λ _. run_hooks p v)
        (Holds-store (Kept leases) (update_vm v) (update_vm-Kept leases v))
        (λ e. Safe-if (Kept leases) (is_vm_deleted e) _ _ (λ w s. s) (abandon-Safe p v))
        (λ _.
          Safe-try (Kept leases) connect _ _ (Holds-connect (Kept leases)) (λ _. abandon-Safe p v)
            (λ _.
              Safe-try (Kept leases) (execute_all v.uid p.pre_lease_commands) _ _
                (Holds-execute_all (Kept leases) v.uid p.pre_lease_commands) (λ _. abandon-Safe p v)
                (λ _ w s. s)))
        w s
