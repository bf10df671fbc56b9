-- ===== src/Types.antt =====
-- The messages of api/proto/poolmgr/v1alpha1/types.proto, as types.pb.go declares them. A message
-- field that may be nil is an `Option`. Timestamps and durations are whole nanoseconds, as
-- Prelude/Time says; `size` and `min_size` are signed. An enum has the values that the file names.
use battery.Prelude.{ℕ, Bool, Option, List, String, ℤ, Eq, nat_beq, ◌≡◌, ◌↔◌, true, arith}

pub data ReplenishmentStrategyType : Type 0 where
  strategy_unspecified immediate_on_lease min_size_threshold replace_on_delete :
      ReplenishmentStrategyType

pub record ReplenishmentStrategy : Type 0 where
  pub type : ReplenishmentStrategyType
  pub min_size : Option ℤ

pub data HookFailurePolicy : Type 0 where
  policy_unspecified delete_and_replace quarantine : HookFailurePolicy

-- flintlock's MicroVMSpec: the fields that the pool manager reads or writes.
pub record NetworkInterface : Type 0 where
  pub guest_mac : String
  pub address : Option String

pub record MicrovmSpec : Type 0 where
  pub id : String
  pub namespace : String
  pub allow_guest_agent : Bool
  pub interfaces : List NetworkInterface

pub record PoolRef : Type 0 where
  pub name : String
  pub namespace : String

pub record PoolSpec : Type 0 where
  pub name : String
  pub namespace : String
  pub microvm_template : Option MicrovmSpec
  pub size : ℤ
  pub flintlock_hosts : List String
  pub replenishment_strategy : Option ReplenishmentStrategy
  pub create_commands : List String
  pub pre_lease_commands : List String
  pub hook_failure_policy : HookFailurePolicy
  pub heartbeat_interval : Option ℤ
  pub heartbeat_expiry_threshold : Option ℤ

pub data VmPhase : Type 0 where
  provisioning create_hook_running available leased : VmPhase
  pre_lease_hook_running deleting quarantined failed : VmPhase

-- The number that the wire format and the `phase` column hold.
abbrev pub phase_number : VmPhase → ℕ
phase_number provisioning = 0
phase_number create_hook_running = 1
phase_number available = 2
phase_number leased = 3
phase_number pre_lease_hook_running = 4
phase_number deleting = 5
phase_number quarantined = 6
phase_number failed = 7

abbrev pub phase_beq : VmPhase → VmPhase → Bool
phase_beq p q = nat_beq (phase_number p) (phase_number q)

pub phase_beq_iff : (p q : VmPhase) → (phase_beq p q ≡ true) ↔ (p ≡ q)
phase_beq_iff p q = ground arith

instance abbrev pub phase_eq : Eq VmPhase
phase_eq = record { test_iff = λ {a} {b}. phase_beq_iff a b; test = phase_beq }

pub record VmRecord : Type 0 where
  pub uid : String
  pub pool_name : String
  pub pool_namespace : String
  pub flintlock_host : String
  pub phase : VmPhase
  pub lease_id : Option String
  pub created_at : Option ℕ
  pub updated_at : Option ℕ

pub record LeaseRecord : Type 0 where
  pub lease_id : String
  pub vm_uid : String
  pub pool_name : String
  pub pool_namespace : String
  pub claimed_at : Option ℕ
  pub last_heartbeat_at : Option ℕ
  pub expires_at : Option ℕ
  pub request_id : String

pub data EventType : Type 0 where
  event_unspecified vm_provisioned vm_available vm_claimed vm_released vm_expiring_soon : EventType
  vm_deleted_due_to_expiry vm_deleted_on_release vm_hook_failed pool_replenishing : EventType
  pool_size_below_target vm_deleted_on_pool_delete vm_deleted_on_host_drain : EventType

pub record Event : Type 0 where
  pub id : ℕ
  pub pool_name : String
  pub pool_namespace : String
  pub vm_uid : String
  pub type : EventType
  pub created_at : Option ℕ
  pub payload_json : String

pub record HostTls : Type 0 where
  pub insecure : Bool
  pub ca_file : String
  pub cert_file : String
  pub key_file : String

pub record Host : Type 0 where
  pub name : String
  pub address : String
  pub cordoned : Bool
  pub cordoned_reason : String
  pub cordoned_at : Option ℕ
  pub updated_at : Option ℕ
  pub tls : Option HostTls
  pub draining : Bool
  pub draining_at : Option ℕ
