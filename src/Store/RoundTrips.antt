-- ===== src/Store/RoundTrips.antt =====
-- internal/store/convert.go: what is stored of a VM, a pool and a host is what is read back.
use battery.Prelude.{as_duration, ◌≡◌, some, arith, eq_iff, string_eq}
use battery.Types.{VmRecord, PoolSpec, Host}
use battery.Store.Error.{ok}
use battery.Store.Rows.{
  VmRow, PoolRow, HostRow, vm_to_row, row_to_vm, pool_to_row, row_to_pool, host_to_row, row_to_host,
  or_else, empty_template, empty_strategy, empty_tls, optional_nano,
}

-- A VM message that vmToRow accepts comes back from its row as it was, with its timestamps as int64.
pub vm_to_row-row_to_vm :
    (v : VmRecord) (row : VmRow)
    → vm_to_row v ≡ ok row
    → row_to_vm row ≡ record v {
      created_at = optional_nano v.created_at;
      updated_at = optional_nano v.updated_at;
    }
unfolding vm_to_row row_to_vm
vm_to_row-row_to_vm v row e = ground arith

-- A pool spec that poolToRow accepts comes back from its row as it was, but that a nil template or
-- strategy comes back as an empty one, and that durations are saturated. The JSON columns are
-- taken to decode to what was encoded.
pub pool_to_row-row_to_pool :
    (p : PoolSpec) (row : PoolRow)
    → pool_to_row p ≡ ok row
    → row_to_pool row ≡ record p {
      microvm_template = some (or_else p.microvm_template empty_template);
      replenishment_strategy = some (or_else p.replenishment_strategy empty_strategy);
      heartbeat_interval = some (as_duration p.heartbeat_interval);
      heartbeat_expiry_threshold = some (as_duration p.heartbeat_expiry_threshold);
    }
unfolding pool_to_row row_to_pool
pool_to_row-row_to_pool p row e = ground arith

-- A host message that hostToRow accepts comes back from its row as it was, but that nil TLS settings
-- come back as empty ones, with its timestamps as int64.
pub host_to_row-row_to_host :
    (h : Host) (row : HostRow)
    → host_to_row h ≡ ok row
    → row_to_host row ≡ record h {
      tls = some (or_else h.tls empty_tls);
      cordoned_at = optional_nano h.cordoned_at;
      updated_at = optional_nano h.updated_at;
      draining_at = optional_nano h.draining_at;
    }
unfolding host_to_row row_to_host
host_to_row-row_to_host h row e = ground (arith, eq_iff h.cordoned_reason "")
