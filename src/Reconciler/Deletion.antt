-- ===== src/Reconciler/Deletion.antt =====
-- The deletion of VMs: internal/reconciler/provision.go from EmitEvent on, and beginExpiry of
-- internal/reconciler/sweeper.go. Metrics and log lines are left out.
pub mod Confirmed
pub mod Kept
pub mod Expiry
use battery.Prelude.{ℕ, String, Bool, none, some, ◌==◌, string_eq, if◌then◌else◌}
use battery.Types.{
  VmRecord, LeaseRecord, PoolSpec, Event, EventType, leased, deleting, phase_eq,
  vm_deleted_due_to_expiry, vm_deleted_on_release,
}
use battery.Store.Error.{Result, ok, err, other}
use battery.Store.Rows.{or_else}
use battery.Store.Pools.{get_pool}
use battery.Store.Vms.{get_vm, update_vm, delete_vm_checking_pool}
use battery.Store.Leases.{get_lease, delete_lease, delete_lease_if_expired}
use battery.Store.Events.{append_event}
use battery.World.{
  Prog, ◌>>=◌, ◌>>◌, pure, attempt, ignore, check, store, now, connect, delete_micro_vm, notify,
}

unfoldable pub emit_event : String → String → String → EventType → Prog (Unit {0})
emit_event pool namespace uid type = do
  at ← now
  ignore (
      store (
        append_event (record {
          id = 0;
          pool_name = pool;
          pool_namespace = namespace;
          vm_uid = uid;
          type = type;
          created_at = some at;
          payload_json = "";
        })))

-- The first step of EnsureVMDeletedCheckingPool.
unfoldable pub mark_vm_deleting : VmRecord → Prog (Unit {0})
mark_vm_deleting vm =
    if vm.phase == deleting
    then pure tt
    else do at ← now; store (update_vm (record vm { phase = deleting; updated_at = some at }))

unfoldable pub ensure_vm_deleted_checking_pool : VmRecord → Prog Bool
unfolding mark_vm_deleting
ensure_vm_deleted_checking_pool vm = do
  mark_vm_deleting vm
  connect
  delete_micro_vm vm.uid
  store (delete_vm_checking_pool vm.uid)

-- `pool` and `namespace` are all that is used of the pool.
unfoldable pub finish_vm_release : String → String → VmRecord → LeaseRecord → Prog (Unit {0})
unfolding emit_event
finish_vm_release pool namespace vm lease = do
  ignore (store (delete_lease lease.lease_id))
  emit_event pool namespace vm.uid vm_deleted_on_release
  notify pool namespace

abbrev finish_found : PoolSpec → VmRecord → Result LeaseRecord → Prog (Unit {0})
finish_found p vm (ok lease) = finish_vm_release p.name p.namespace vm lease
finish_found p vm (err e) = do
  emit_event p.name p.namespace vm.uid vm_deleted_due_to_expiry
  notify p.name p.namespace

unfoldable pub finish_vm_deletion : PoolSpec → VmRecord → Prog (Unit {0})
unfolding finish_vm_release emit_event
finish_vm_deletion p vm =
    let id = or_else vm.lease_id "" in
    if id == ""
    then finish_found p vm (err other)
    else do found ← attempt (store (get_lease id)); finish_found p vm found

unfoldable pub begin_expiry : LeaseRecord → ℕ → Prog (Unit {0})
unfolding ensure_vm_deleted_checking_pool finish_vm_deletion
begin_expiry l at = ignore (do
  store (delete_lease_if_expired l.lease_id at)
  vm ← store (get_vm l.vm_uid)
  check (vm.phase == leased) other
  p ← store (get_pool l.pool_name l.pool_namespace)
  ensure_vm_deleted_checking_pool vm
  finish_vm_deletion p vm)
