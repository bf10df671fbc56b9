-- ===== src/Reconciler/Policy/Kept.antt =====
-- What the deletions and the hook failure policy of internal/reconciler/provision.go leave alone:
-- every property of the database that the calls they make keep.
use battery.Prelude.{refl, ◌≡◌, false, ◌==◌, some, none, Bool-cases, inl, inr, String, ◌==◌}
use battery.Types.{
  VmRecord, PoolSpec, Event, EventType, HookFailurePolicy, policy_unspecified, delete_and_replace,
  quarantine, quarantined, deleting, available, phase_eq, vm_hook_failed,
}
use battery.Store.Db.{Db}
use battery.Store.Vms.{create_vm, update_vm, delete_vm_checking_pool}
use battery.Store.Events.{append_event}
use battery.World.{store, connect, delete_micro_vm}
use battery.World.Steady.{
  Holds, Safe, Keeps, Holds-store, Holds-bind, Holds-connect, Holds-delete_micro_vm, Safe-bind,
  Safe-try,
}
use battery.Reconciler.Deletion.{emit_event, mark_vm_deleting, ensure_vm_deleted_checking_pool}
use battery.Reconciler.Policy.{
  delete_after_hook_failure, settle, apply_hook_failure_policy, delete_orphan,
}

-- The calls that the policy makes, which writes no AVAILABLE VM.
pub record VmCalls (P : Db → Type 0) : Type 0 where
  pub created : (v : VmRecord) → (v.phase == available) ≡ false → Keeps P (create_vm v)
  pub updated : (v : VmRecord) → (v.phase == available) ≡ false → Keeps P (update_vm v)
  pub removed : (uid : String) → Keeps P (delete_vm_checking_pool uid)
  pub appended : (e : Event) → Keeps P (append_event e)

pub emit_event-Safe :
    (P : Db → Type 0)
    → ((e : Event) → Keeps P (append_event e))
    → (pool namespace uid : String) (type : EventType) → Safe P (emit_event pool namespace uid type)
unfolding emit_event
emit_event-Safe P keeps pool namespace uid type w s =
    Holds-store P (append_event event) (keeps event) w s
  where
    event : Event
    event = record {
      id = 0;
      pool_name = pool;
      pool_namespace = namespace;
      vm_uid = uid;
      type = type;
      created_at = some (w.env.clock w.time);
      payload_json = "";
    }

module _ (P : Db → Type 0) (calls : VmCalls P) where
  mark_vm_deleting-Holds : (vm : VmRecord) → Holds P (mark_vm_deleting vm)
  unfolding mark_vm_deleting
  mark_vm_deleting-Holds vm w s = elim (Bool-cases (vm.phase == deleting)) [
    | inl e ↦ rw e s
    | inr e ↦
        let v = record vm { phase = deleting; updated_at = some (w.env.clock w.time) } in
        rw e (Holds-store P (update_vm v) (calls.updated v refl) w s)
  ]

  pub ensure_vm_deleted-Holds : (vm : VmRecord) → Holds P (ensure_vm_deleted_checking_pool vm)
  unfolding ensure_vm_deleted_checking_pool
  ensure_vm_deleted-Holds vm =
      Holds-bind P (mark_vm_deleting vm) _ (mark_vm_deleting-Holds vm) (λ _.
        Holds-bind P connect _ (Holds-connect P) (λ _.
          Holds-bind P (delete_micro_vm vm.uid) _ (Holds-delete_micro_vm P vm.uid)
            (λ _. Holds-store P (delete_vm_checking_pool vm.uid) (calls.removed vm.uid))))

  delete_after_hook_failure-Safe : (vm : VmRecord) → Safe P (delete_after_hook_failure vm)
  unfolding delete_after_hook_failure
  delete_after_hook_failure-Safe vm w s =
      let v = record vm {
        phase = deleting;
        lease_id = none;
        updated_at = some (w.env.clock w.time);
      } in
      ensure_vm_deleted-Holds v (store (update_vm v) w).1
        (Holds-store P (update_vm v) (calls.updated v refl) w s)

  settle-Safe : (policy : HookFailurePolicy) (vm : VmRecord) → Safe P (settle policy vm)
  unfolding settle
  settle-Safe quarantine vm w s =
      let v = record vm {
        phase = quarantined;
        lease_id = none;
        updated_at = some (w.env.clock w.time);
      } in
      Holds-store P (update_vm v) (calls.updated v refl) w s
  settle-Safe policy_unspecified vm w s = delete_after_hook_failure-Safe vm w s
  settle-Safe delete_and_replace vm w s = delete_after_hook_failure-Safe vm w s

  pub apply_hook_failure_policy-Safe :
      (p : PoolSpec) (vm : VmRecord) → Safe P (apply_hook_failure_policy p vm)
  unfolding apply_hook_failure_policy
  apply_hook_failure_policy-Safe p vm =
      Safe-bind P (settle p.hook_failure_policy vm) _ (settle-Safe p.hook_failure_policy vm)
        (λ _. emit_event-Safe P calls.appended p.name p.namespace vm.uid vm_hook_failed)

  pub delete_orphan-Safe : (vm : VmRecord) → Safe P (delete_orphan vm)
  unfolding delete_orphan
  delete_orphan-Safe vm w s =
      let v = record vm { phase = deleting; updated_at = some (w.env.clock w.time) } in
      Safe-try P (store (create_vm v)) _ _ (Holds-store P (create_vm v) (calls.created v refl))
        (λ e x h.
          Holds-bind P connect (λ _. delete_micro_vm vm.uid) (Holds-connect P)
            (λ _. Holds-delete_micro_vm P vm.uid) x h)
        (λ u x h. ensure_vm_deleted-Holds v x h) w s
