-- ===== src/Store/Rows.antt =====
-- internal/store/convert.go: the rows of the tables and their conversion from and to messages.
-- JSON columns are held decoded: protojson and encoding/json are taken to give back what they
-- were given, where a nil message comes back as an empty one. A NULL column is `none`.
use battery.Prelude.{
  saturated, unix_nano, ℕ, Bool, false, Option, none, some, List, String, ℤ, [], ◌==◌, string_eq,
  if◌then◌else◌,
}
use battery.Types.{
  ReplenishmentStrategy, strategy_unspecified, HookFailurePolicy, MicrovmSpec, PoolSpec, VmPhase,
  VmRecord, LeaseRecord, HostTls, Host,
}
use battery.Store.Error.{Result, ok, err, other}

infixl 5 ◌>>=◌
abbrev ◌>>=◌ {ℓ κ} : {A : Type ℓ} {B : Type κ} → Result A → (A → Result B) → Result B
ok a >>= f = f a
err e >>= f = err e

pub record PoolRow : Type 0 where
  pub name : String
  pub namespace : String
  pub size : ℤ
  pub flintlock_hosts : List String
  pub microvm_template : MicrovmSpec
  pub replenishment_strategy : ReplenishmentStrategy
  pub create_commands : List String
  pub pre_lease_commands : List String
  pub hook_failure_policy : HookFailurePolicy
  pub heartbeat_interval_ns : ℤ
  pub heartbeat_expiry_threshold_ns : ℤ

unfoldable pub require_duration : Option ℤ → Result ℤ
require_duration none = err other
require_duration (some d) = ok (saturated d)

unfoldable pub require_timestamp : Option ℕ → Result ℕ
require_timestamp none = err other
require_timestamp (some t) = ok t

-- What a nil message comes back as, once it has been through protojson.
abbrev pub empty_template : MicrovmSpec
empty_template = record { id = ""; namespace = ""; allow_guest_agent = false; interfaces = [] }

abbrev pub empty_strategy : ReplenishmentStrategy
empty_strategy = record { type = strategy_unspecified; min_size = none }

abbrev pub or_else {ℓ} : {A : Type ℓ} → Option A → A → A
or_else none d = d
or_else (some a) d = a

unfoldable pub pool_to_row : PoolSpec → Result PoolRow
unfolding require_duration
pool_to_row p = do
  interval ← require_duration p.heartbeat_interval
  threshold ← require_duration p.heartbeat_expiry_threshold
  ok (record {
    name = p.name;
    namespace = p.namespace;
    size = p.size;
    flintlock_hosts = p.flintlock_hosts;
    microvm_template = or_else p.microvm_template empty_template;
    replenishment_strategy = or_else p.replenishment_strategy empty_strategy;
    create_commands = p.create_commands;
    pre_lease_commands = p.pre_lease_commands;
    hook_failure_policy = p.hook_failure_policy;
    heartbeat_interval_ns = interval;
    heartbeat_expiry_threshold_ns = threshold;
  })

unfoldable pub row_to_pool : PoolRow → PoolSpec
row_to_pool r = record {
  name = r.name;
  namespace = r.namespace;
  microvm_template = some r.microvm_template;
  size = r.size;
  flintlock_hosts = r.flintlock_hosts;
  replenishment_strategy = some r.replenishment_strategy;
  create_commands = r.create_commands;
  pre_lease_commands = r.pre_lease_commands;
  hook_failure_policy = r.hook_failure_policy;
  heartbeat_interval = some r.heartbeat_interval_ns;
  heartbeat_expiry_threshold = some r.heartbeat_expiry_threshold_ns;
}

pub record VmRow : Type 0 where
  pub uid : String
  pub pool_name : String
  pub pool_namespace : String
  pub flintlock_host : String
  pub phase : VmPhase
  pub lease_id : Option String
  pub created_at : ℕ
  pub updated_at : ℕ

unfoldable pub vm_to_row : VmRecord → Result VmRow
unfolding require_timestamp
vm_to_row v = do
  created ← require_timestamp v.created_at
  updated ← require_timestamp v.updated_at
  ok (record {
    uid = v.uid;
    pool_name = v.pool_name;
    pool_namespace = v.pool_namespace;
    flintlock_host = v.flintlock_host;
    phase = v.phase;
    lease_id = v.lease_id;
    created_at = unix_nano created;
    updated_at = unix_nano updated;
  })

unfoldable pub row_to_vm : VmRow → VmRecord
row_to_vm r = record {
  uid = r.uid;
  pool_name = r.pool_name;
  pool_namespace = r.pool_namespace;
  flintlock_host = r.flintlock_host;
  phase = r.phase;
  lease_id = r.lease_id;
  created_at = some r.created_at;
  updated_at = some r.updated_at;
}

pub record LeaseRow : Type 0 where
  pub lease_id : String
  pub vm_uid : String
  pub pool_name : String
  pub pool_namespace : String
  pub claimed_at : ℕ
  pub last_heartbeat_at : ℕ
  pub expires_at : ℕ
  pub request_id : Option String

-- sql.NullString: an empty text is stored as NULL, and NULL is read as the empty text.
unfoldable pub null_if_empty : String → Option String
null_if_empty s = if s == "" then none else some s

unfoldable pub lease_to_row : LeaseRecord → Result LeaseRow
unfolding require_timestamp null_if_empty
lease_to_row l = do
  claimed ← require_timestamp l.claimed_at
  heartbeat ← require_timestamp l.last_heartbeat_at
  expires ← require_timestamp l.expires_at
  ok (record {
    lease_id = l.lease_id;
    vm_uid = l.vm_uid;
    pool_name = l.pool_name;
    pool_namespace = l.pool_namespace;
    claimed_at = unix_nano claimed;
    last_heartbeat_at = unix_nano heartbeat;
    expires_at = unix_nano expires;
    request_id = null_if_empty l.request_id;
  })

unfoldable pub row_to_lease : LeaseRow → LeaseRecord
row_to_lease r = record {
  lease_id = r.lease_id;
  vm_uid = r.vm_uid;
  pool_name = r.pool_name;
  pool_namespace = r.pool_namespace;
  claimed_at = some r.claimed_at;
  last_heartbeat_at = some r.last_heartbeat_at;
  expires_at = some r.expires_at;
  request_id = or_else r.request_id "";
}

pub record HostRow : Type 0 where
  pub name : String
  pub address : String
  pub cordoned : Bool
  pub cordoned_reason : Option String
  pub cordoned_at : Option ℕ
  pub updated_at : ℕ
  pub tls_insecure : Bool
  pub ca_file : String
  pub cert_file : String
  pub key_file : String
  pub draining : Bool
  pub draining_at : Option ℕ

-- The getters of a nil HostTLS answer with zero values.
abbrev pub empty_tls : HostTls
empty_tls = record { insecure = false; ca_file = ""; cert_file = ""; key_file = "" }

-- sql.NullInt64 of a timestamp that may be nil.
abbrev pub optional_nano : Option ℕ → Option ℕ
optional_nano none = none
optional_nano (some t) = some (unix_nano t)

unfoldable pub host_to_row : Host → Result HostRow
unfolding require_timestamp null_if_empty
host_to_row h = do
  updated ← require_timestamp h.updated_at
  let tls = or_else h.tls empty_tls
  ok (record {
    name = h.name;
    address = h.address;
    cordoned = h.cordoned;
    cordoned_reason = null_if_empty h.cordoned_reason;
    cordoned_at = optional_nano h.cordoned_at;
    updated_at = unix_nano updated;
    tls_insecure = tls.insecure;
    ca_file = tls.ca_file;
    cert_file = tls.cert_file;
    key_file = tls.key_file;
    draining = h.draining;
    draining_at = optional_nano h.draining_at;
  })

unfoldable pub row_to_host : HostRow → Host
row_to_host r = record {
  name = r.name;
  address = r.address;
  cordoned = r.cordoned;
  cordoned_reason = or_else r.cordoned_reason "";
  cordoned_at = r.cordoned_at;
  updated_at = some r.updated_at;
  tls = some (record {
    insecure = r.tls_insecure;
    ca_file = r.ca_file;
    cert_file = r.cert_file;
    key_file = r.key_file;
  });
  draining = r.draining;
  draining_at = r.draining_at;
}
