-- ===== src/Api/Claim.antt =====
-- internal/api/lease.go: ClaimVM. Metrics are left out. `p` is the pool that the request names.
pub mod Replayed
pub mod Backed
pub mod Hooks
pub mod Outcome
pub mod Replay
use Prim.Native.String.{len}
use battery.Prelude.{
  add_duration, as_duration, ℕ, ◌+◌, String, Bool, true, false, ◌&&◌, Option, none, some, List, [],
  ◌==◌, string_eq, if◌then◌else◌, ltb,
}
use battery.Types.{
  VmRecord, LeaseRecord, PoolSpec, HookFailurePolicy, quarantine, available, leased, deleting,
  pre_lease_hook_running, phase_eq, vm_claimed,
}
use battery.Store.Error.{
  Error, Result, ok, err, not_found, no_available_vm, vm_deleting, duplicate_request_id,
  is_not_found,
}
use battery.Store.Rows.{or_else}
use battery.Store.Pools.{get_pool}
use battery.Store.Vms.{get_vm, update_vm, claim_available_vm}
use battery.Store.Leases.{lease_vm, get_lease_by_request_id}
use battery.World.{
  Prog, ◌>>=◌, ◌>>◌, pure, try, attempt, store, now, pick_row, new_id, connect, address_of,
  get_interfaces, execute_all, notify, notify_claimed,
}
use battery.Reconciler.Deletion.{emit_event}
use battery.Reconciler.Policy.{apply_hook_failure_policy}
use battery.Api.Pools.{is_quarantine}
use battery.Api.Status.{
  Code, Reply, reply, code_of, refuse, internal, invalid_argument, resource_exhausted, aborted,
}

-- The response, with the names of the network interfaces.
pub record ClaimResponse : Type 0 where
  pub lease_id : String
  pub vm_uid : String
  pub network_interfaces : List String
  pub host_name : String
  pub host_address : String

-- vmDeleted
abbrev pub is_vm_deleted : Error → Bool
is_vm_deleted vm_deleting = true
is_vm_deleted not_found = true
is_vm_deleted _ = false

abbrev pub is_duplicate : Error → Bool
is_duplicate duplicate_request_id = true
is_duplicate _ = false

abbrev pub found_or_empty : Result (List String) → List String
found_or_empty (ok names) = names
found_or_empty (err e) = []

abbrev pub claim_response : String → VmRecord → Prog ClaimResponse
claim_response id vm = do
  names ← attempt (do connect; get_interfaces)
  address ← address_of
  pure (record {
    lease_id = id;
    vm_uid = vm.uid;
    network_interfaces = found_or_empty names;
    host_name = vm.flintlock_host;
    host_address = address;
  })

abbrev pub respond : String → VmRecord → Prog (Reply ClaimResponse)
respond id vm = do response ← claim_response id vm; pure (reply response)

-- The steps of replayClaim after GetVM.
abbrev pub replay_found : LeaseRecord → VmRecord → Prog (Reply ClaimResponse)
replay_found lease vm = if vm.phase == deleting then refuse aborted else respond lease.lease_id vm

-- The lease, or its VM, is gone.
abbrev pub missed : Error → Prog (Reply ClaimResponse)
missed e = if is_not_found e then refuse aborted else refuse internal

unfoldable pub replay_claim : LeaseRecord → String → String → Prog (Reply ClaimResponse)
unfolding is_not_found
replay_claim lease name namespace =
    if lease.pool_name == name && lease.pool_namespace == namespace
    then try (store (get_vm lease.vm_uid)) missed (replay_found lease)
    else refuse invalid_argument

-- The policy, and the news of the deletion if it may have deleted.
unfoldable pub give_up : PoolSpec → VmRecord → Prog (Unit {0})
unfolding apply_hook_failure_policy
give_up p vm = do
  apply_hook_failure_policy p vm
  if is_quarantine p then pure tt else notify p.name p.namespace

-- How runPreLeaseHooks ends; `withdrawn` is errVMDeleted.
pub data Hooked : Type 0 where
  hooked : VmRecord → Hooked
  withdrawn hook_failed : Hooked

abbrev pub abandon : PoolSpec → VmRecord → Prog Hooked
abandon p vm = do give_up p vm; pure hook_failed

-- The steps after the VM has been moved to PRE_LEASE_HOOK_RUNNING.
abbrev pub run_hooks : PoolSpec → VmRecord → Prog Hooked
run_hooks p vm =
    try connect (λ _. abandon p vm)
      (λ _.
        try (execute_all vm.uid p.pre_lease_commands) (λ _. abandon p vm) (λ _. pure (hooked vm)))

abbrev pub start_hooks : PoolSpec → VmRecord → Prog Hooked
start_hooks p vm =
    try (store (update_vm vm)) (λ e. if is_vm_deleted e then pure withdrawn else abandon p vm)
      (λ _. run_hooks p vm)

unfoldable pub run_pre_lease_hooks : PoolSpec → VmRecord → Prog Hooked
unfolding give_up
run_pre_lease_hooks p vm = do
  at ← now
  start_hooks p (record vm { phase = pre_lease_hook_running; updated_at = some at })

-- Another claim has made a lease with this request ID first.
abbrev pub put_back : PoolSpec → VmRecord → String → Prog (Reply ClaimResponse)
put_back p vm request =
    try (store (update_vm vm))
      (λ e. if is_vm_deleted e then refuse aborted else do give_up p vm; refuse internal)
      (λ _.
        try (store (get_lease_by_request_id request)) missed
          (λ lease. replay_claim lease p.name p.namespace))

unfoldable pub yield_claim : PoolSpec → VmRecord → String → Prog (Reply ClaimResponse)
unfolding give_up replay_claim is_not_found
yield_claim p vm request = do
  at ← now
  put_back p (record vm { phase = available; lease_id = none; updated_at = some at }) request

abbrev pub new_lease : String → ℕ → PoolSpec → VmRecord → String → LeaseRecord
new_lease id at p vm request = record {
  lease_id = id;
  vm_uid = vm.uid;
  pool_name = p.name;
  pool_namespace = p.namespace;
  claimed_at = some at;
  last_heartbeat_at = some at;
  expires_at = some (add_duration at (as_duration p.heartbeat_expiry_threshold));
  request_id = request;
}

abbrev pub announce : PoolSpec → String → VmRecord → Prog (Reply ClaimResponse)
announce p id vm = do
  emit_event p.name p.namespace vm.uid vm_claimed
  notify_claimed p.name p.namespace
  respond id vm

-- An error of LeaseVM.
abbrev pub unleased_claim : PoolSpec → VmRecord → String → Error → Prog (Reply ClaimResponse)
unleased_claim p vm request e =
    if is_duplicate e
    then yield_claim p vm request
    else if is_vm_deleted e
    then refuse aborted
    else do give_up p vm; refuse internal

abbrev pub lease_as : PoolSpec → VmRecord → String → String → ℕ → Prog (Reply ClaimResponse)
lease_as p vm request id at =
    let marked = record vm { phase = leased; lease_id = some id; updated_at = some at } in
    try (store (lease_vm marked (new_lease id at p vm request))) (unleased_claim p marked request)
      (λ _. announce p id marked)

-- The steps of ClaimVM after the hooks.
abbrev pub after_hooks : PoolSpec → String → Hooked → Prog (Reply ClaimResponse)
after_hooks p request withdrawn = refuse aborted
after_hooks p request hook_failed = refuse internal
after_hooks p request (hooked vm) = do id ← new_id; at ← now; lease_as p vm request id at

abbrev pub claim_code : Error → Code
claim_code no_available_vm = resource_exhausted
claim_code _ = internal

abbrev pub take_vm : String → String → Prog VmRecord
take_vm name namespace = do
  at ← now
  row ← pick_row
  store (claim_available_vm at row name namespace)

-- A claim that is no replay.
abbrev pub claim_fresh : PoolSpec → String → String → String → Prog (Reply ClaimResponse)
claim_fresh p name namespace request =
    try (take_vm name namespace) (λ e. refuse (claim_code e))
      (λ vm. do outcome ← run_pre_lease_hooks p vm; after_hooks p request outcome)

abbrev pub claim_from : PoolSpec → String → String → String → Prog (Reply ClaimResponse)
claim_from p name namespace request =
    if request == ""
    then claim_fresh p name namespace request
    else try (store (get_lease_by_request_id request))
        (λ e. if is_not_found e then claim_fresh p name namespace request else refuse internal)
        (λ lease. replay_claim lease name namespace)

unfoldable pub claim_vm : String → String → String → Prog (Reply ClaimResponse)
unfolding run_pre_lease_hooks yield_claim replay_claim give_up is_not_found emit_event
claim_vm name namespace request =
    if ltb 255 (len request)
    then refuse invalid_argument
    else try (store (get_pool name namespace)) (λ e. refuse (code_of e))
        (λ p. claim_from p name namespace request)
