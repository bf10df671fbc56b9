-- ===== src/Examples/Data.antt =====
-- A database of internal/store with one pool, and messages to write to it.
use battery.Prelude.{Option, String, [], ◌∷◌, true, false, none, some, pos, refl, arith}
use battery.Types.{
  PoolSpec, VmRecord, LeaseRecord, MicrovmSpec, available, leased, VmPhase, immediate_on_lease,
  delete_and_replace, ReplenishmentStrategy,
}
use battery.Table.{any}
use battery.Store.Rows.{PoolRow, VmRow, LeaseRow, HostRow}
use battery.Store.Db.{Db}
use battery.Store.WellFormed.{WellFormed}

abbrev pub template : MicrovmSpec
template = record {
  id = "";
  namespace = "";
  allow_guest_agent = false;
  interfaces = record { guest_mac = "aa"; address = none } ∷ [];
}

abbrev pub strategy : ReplenishmentStrategy
strategy = record { type = immediate_on_lease; min_size = none }

abbrev pub pool : PoolSpec
pool = record {
  name = "web";
  namespace = "prod";
  microvm_template = some template;
  size = pos 3;
  flintlock_hosts = "h1" ∷ "h2" ∷ [];
  replenishment_strategy = some strategy;
  create_commands = [];
  pre_lease_commands = [];
  hook_failure_policy = delete_and_replace;
  heartbeat_interval = some (pos 10);
  heartbeat_expiry_threshold = some (pos 30);
}

abbrev pub pool_row : PoolRow
pool_row = record {
  name = "web";
  namespace = "prod";
  microvm_template = template;
  size = pos 3;
  flintlock_hosts = "h1" ∷ "h2" ∷ [];
  replenishment_strategy = strategy;
  create_commands = [];
  pre_lease_commands = [];
  hook_failure_policy = delete_and_replace;
  heartbeat_interval_ns = pos 10;
  heartbeat_expiry_threshold_ns = pos 30;
}

abbrev pub vm_row : String → String → VmPhase → Option String → VmRow
vm_row uid host phase lease = record {
  uid = uid;
  pool_name = "web";
  pool_namespace = "prod";
  flintlock_host = host;
  phase = phase;
  lease_id = lease;
  created_at = 1;
  updated_at = 1;
}

abbrev pub vm : String → String → VmPhase → Option String → VmRecord
vm uid host phase lease = record {
  uid = uid;
  pool_name = "web";
  pool_namespace = "prod";
  flintlock_host = host;
  phase = phase;
  lease_id = lease;
  created_at = some 1;
  updated_at = some 2;
}

abbrev pub lease_row : LeaseRow
lease_row = record {
  lease_id = "l1";
  vm_uid = "v2";
  pool_name = "web";
  pool_namespace = "prod";
  claimed_at = 2;
  last_heartbeat_at = 2;
  expires_at = 32;
  request_id = some "r1";
}

abbrev pub lease : LeaseRecord
lease = record {
  lease_id = "l2";
  vm_uid = "v1";
  pool_name = "web";
  pool_namespace = "prod";
  claimed_at = some 5;
  last_heartbeat_at = some 5;
  expires_at = some 35;
  request_id = "r2";
}

abbrev pub host_row : String → HostRow
host_row name = record {
  name = name;
  address = "a:9090";
  cordoned = false;
  cordoned_reason = none;
  cordoned_at = none;
  updated_at = 1;
  tls_insecure = true;
  ca_file = "";
  cert_file = "";
  key_file = "";
  draining = false;
  draining_at = none;
}

-- `v1` and `v3` are free, `v2` is leased; `h1` has two of them and `h2` one.
abbrev pub base : Db
base = record {
  pools = pool_row ∷ [];
  vms =
      vm_row "v1" "h1" available none
      ∷ vm_row "v2" "h1" leased (some "l1")
      ∷ vm_row "v3" "h2" available none
      ∷ [];
  leases = lease_row ∷ [];
  events = [];
  last_event_id = 0;
  hosts = host_row "h1" ∷ host_row "h2" ∷ [];
  placements = [];
}

pub base-WellFormed : WellFormed base
unfolding any
base-WellFormed = record {
  pool_keys = (refl, tt);
  vm_keys = (refl, (refl, (refl, tt)));
  lease_keys = (refl, tt);
  request_keys = (refl, tt);
  event_ids = omega arith;
  host_keys = (refl, (refl, tt));
  placement_keys = tt;
  placed = tt;
}
