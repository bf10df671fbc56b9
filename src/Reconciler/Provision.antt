-- ===== src/Reconciler/Provision.antt =====
-- Provision of internal/reconciler/provision.go, with waitCreated, updatePhase and the Provisioner's own
-- applyHookFailurePolicy. Metrics and log lines are left out.
pub mod Added
pub mod Hooks
pub mod Making
pub mod Outcome
pub mod Refused
use Prim.Native.String.{◌++◌, slice}
use battery.Prelude.{
  ℕ, zero, suc, String, Bool, true, not, Option, none, some, List, [], ◌==◌, string_eq,
  if◌then◌else◌,
}
use battery.Types.{
  VmRecord, VmPhase, PoolSpec, MicrovmSpec, provisioning, create_hook_running, available, deleting,
  phase_eq, vm_provisioned, vm_available,
}
use battery.Table.{any}
use battery.Store.Error.{Error, Result, ok, err, is_not_found, host_cordoned, host_not_registered}
use battery.Store.Rows.{or_else, empty_template}
use battery.Store.Vms.{create_vm, update_vm, get_vm, list_vms_by_pool}
use battery.Store.Hosts.{list_hosts, reserve_placement, release_placement}
use battery.World.{
  Prog, World, Poll, in_state_created, in_state_failed, in_other_state, past_deadline, unanswered,
  ◌>>=◌, ◌>>◌, pure, fail, lifted, try, attempt, ignore, store, now, connect, new_id, check_version,
  create_micro_vm, poll_micro_vm, wait_ready, execute_all,
}
use battery.Reconciler.HostPick.{
  Picked, picked, no_eligible_host, unlisted, pick_host, ineligible_hosts,
}
use battery.Reconciler.Deletion.{emit_event}
use battery.Reconciler.Policy.{apply_hook_failure_policy, delete_orphan}

-- The error of Provision: ErrNoEligibleHost, ErrCreateFailed, ErrCreateTimedOut, ErrHookFailed, or one that
-- wraps an error of the store, of the client pool, of the version check or of flintlock.
pub data Failure : Type 0 where
  nowhere create_failed create_timed_out hook_failed : Failure
  store_failed : Error → Failure
  no_client unsupported create_refused no_uid unpolled : Failure

-- `provisioned` holds the uid of a VM that is AVAILABLE.
pub data Provisioned : Type 0 where
  provisioned : String → Provisioned
  stopped : Failure → Provisioned

abbrev pub stop : Failure → Prog Provisioned
stop f = pure (stopped f)

-- The Provisioner's applyHookFailurePolicy: not for a VM that has been deleted, or is being.
abbrev pub apply_unless_deleting : PoolSpec → VmRecord → Result VmRecord → Prog (Unit {0})
apply_unless_deleting p vm (ok cur) =
    if cur.phase == deleting then pure tt else apply_hook_failure_policy p vm
apply_unless_deleting p vm (err e) =
    if is_not_found e then pure tt else apply_hook_failure_policy p vm

unfoldable pub apply_create_policy : PoolSpec → VmRecord → Prog (Unit {0})
unfolding apply_hook_failure_policy is_not_found
apply_create_policy p vm = do cur ← attempt (store (get_vm vm.uid)); apply_unless_deleting p vm cur

-- The record that callers pass is changed too, so the changed one is the value.
abbrev pub move_to : PoolSpec → VmRecord → Prog VmRecord
move_to p vm = try (store (update_vm vm)) (λ e. do apply_create_policy p vm; fail e) (λ _. pure vm)

unfoldable pub update_phase : PoolSpec → VmRecord → VmPhase → Prog VmRecord
unfolding apply_create_policy
update_phase p vm phase = do at ← now; move_to p (record vm { phase = phase; updated_at = some at })

-- The rounds of waitCreated, with the ticks that are left before its deadline. `none` is a nil error.
abbrev pub answered : Prog (Option Failure) → Poll → Prog (Option Failure)
answered rest in_state_created = pure none
answered rest in_state_failed = pure (some create_failed)
answered rest in_other_state = rest
answered rest past_deadline = pure (some create_timed_out)
answered rest unanswered = pure (some unpolled)

unfoldable pub poll_created : ℕ → Prog (Option Failure)
poll_created zero = do state ← poll_micro_vm; answered (pure (some create_timed_out)) state
poll_created (suc n) = do state ← poll_micro_vm; answered (poll_created n) state

unfoldable pub wait_created : Prog (Option Failure)
unfolding poll_created
wait_created w = poll_created (w.env.ticks w.time) w

abbrev pub spoil : PoolSpec → VmRecord → Failure → Prog Provisioned
spoil p vm f = do apply_create_policy p vm; stop f

-- The last steps, after the create commands.
abbrev pub make_available : PoolSpec → VmRecord → Prog Provisioned
make_available p vm =
    try (update_phase p vm available) (λ e. stop (store_failed e))
      (λ v. do emit_event p.name p.namespace v.uid vm_available; pure (provisioned v.uid))

abbrev pub run_create_hooks : PoolSpec → VmRecord → Prog Provisioned
run_create_hooks p vm =
    try connect (λ _. spoil p vm no_client)
      (λ _.
        try wait_ready (λ _. spoil p vm hook_failed)
          (λ _.
            try (execute_all vm.uid p.create_commands) (λ _. spoil p vm hook_failed)
              (λ _. make_available p vm)))

abbrev pub booted : PoolSpec → VmRecord → Option Failure → Prog Provisioned
booted p vm (some f) = spoil p vm f
booted p vm none =
    try (update_phase p vm create_hook_running) (λ e. stop (store_failed e))
      (λ v. run_create_hooks p v)

-- What the steps up to CreateVM have made: a VM with a row, or nothing.
pub data Made : Type 0 where
  made : VmRecord → Made
  unmade : Failure → Made

abbrev pub after_create : PoolSpec → Made → Prog Provisioned
after_create p (unmade f) = stop f
after_create p (made vm) = do
  emit_event p.name p.namespace vm.uid vm_provisioned
  outcome ← wait_created
  booted p vm outcome

abbrev pub new_vm : String → String → PoolSpec → ℕ → VmRecord
new_vm uid host p at = record {
  uid = uid;
  pool_name = p.name;
  pool_namespace = p.namespace;
  flintlock_host = host;
  phase = provisioning;
  lease_id = none;
  created_at = some at;
  updated_at = some at;
}

abbrev pub record_vm : VmRecord → Prog Made
record_vm vm =
    try (store (create_vm vm)) (λ e. do delete_orphan vm; pure (unmade (store_failed e)))
      (λ _. pure (made vm))

-- The template with what each VM has of its own.
abbrev pub instantiate : PoolSpec → String → MicrovmSpec
instantiate p id =
    let t = or_else p.microvm_template empty_template in
    record t {
      allow_guest_agent = true;
      id = id;
      namespace = if t.namespace == "" then p.namespace else t.namespace;
    }

abbrev pub keep_vm : PoolSpec → String → String → Prog Made
keep_vm p host uid =
    if uid == "" then pure (unmade no_uid) else do at ← now; record_vm (new_vm uid host p at)

unfoldable pub create_on : PoolSpec → String → String → Prog Made
unfolding delete_orphan
create_on p host id =
    try connect (λ _. pure (unmade no_client))
      (λ _.
        try check_version (λ _. pure (unmade unsupported))
          (λ _.
            try (create_micro_vm host (instantiate p id)) (λ _. pure (unmade create_refused))
              (λ uid. keep_vm p host uid)))

-- The reservation is released once, when CreateVM has written the row or a step before it has failed.
abbrev pub fill_place : PoolSpec → String → String → Prog Provisioned
fill_place p host id = do
  result ← create_on p host id
  ignore (store (release_placement id))
  after_create p result

abbrev pub unplaced : Error → Failure
unplaced host_cordoned = nowhere
unplaced host_not_registered = nowhere
unplaced e = store_failed e

-- An 8-character suffix of a new UUID.
abbrev pub placement_id : String → String → String
placement_id name uuid = name ++ "-" ++ slice uuid 0 8

unfoldable pub reserve_and_fill : PoolSpec → String → String → Prog Provisioned
unfolding create_on update_phase apply_create_policy wait_created emit_event
reserve_and_fill p host id = do
  at ← now
  try (store (reserve_placement at id host p.name p.namespace)) (λ e. stop (unplaced e))
      (λ _. fill_place p host id)

abbrev pub place : PoolSpec → Picked → Prog Provisioned
place p no_eligible_host = stop nowhere
place p (unlisted e) = stop (store_failed e)
place p (picked host) = do uuid ← new_id; reserve_and_fill p host (placement_id p.name uuid)

-- PickHost lists the VMs only if some host is eligible.
abbrev pub list_if_needed : PoolSpec → (String → Bool) → Prog (List VmRecord)
list_if_needed p skipped =
    if any (λ h. not (skipped h)) p.flintlock_hosts
    then store (list_vms_by_pool p.name p.namespace none)
    else pure []

unfoldable pub provision : PoolSpec → Prog Provisioned
unfolding reserve_and_fill pick_host ineligible_hosts
provision p = do
  hosts ← attempt (store list_hosts)
  try (lifted (ineligible_hosts p hosts)) (λ e. stop (store_failed e))
      (λ skipped. do vms ← attempt (list_if_needed p skipped); place p (pick_host p skipped vms))
