-- ===== src/Examples/Specs.antt =====
-- The theorems on the checks of pool specs, at the pool of Examples/Data.
use battery.Prelude.{◌≡◌, ◌↔◌, refl, true, false, ◌&&◌, none, some, pos, List, [], ◌∷◌, string_eq}
use battery.Types.{PoolSpec, Host, VmRecord, available, leased, phase_eq, min_size_threshold}
use battery.Table.{any, select, sort_by, insert_by}
use battery.Store.Rows.{row_to_vm, row_to_host}
use battery.Store.Pools.{vm_in_pool, is_held}
use battery.Store.Vms.{list_vms_by_pool}
use battery.Reconciler.Strategy.{new_strategy}
use battery.Api.Pools.{validate_pool_spec, validate_template_network, count_leased}
use battery.Api.Pools.Accepted.{Accepted, validate_pool_spec-Accepted}
use battery.Api.Pools.Counts.{count_leased_agrees}
use battery.Examples.Data.{base, pool, template, vm_row, host_row}

-- A pool of one VM, for which a fixed MAC address is accepted.
abbrev single : PoolSpec
single = record pool {
  size = pos 1;
  replenishment_strategy = some (record { type = min_size_threshold; min_size = some (pos 1) });
}

abbrev accepted : PoolSpec
accepted = record single { microvm_template = some (record template { allow_guest_agent = true }) }

validate_pool_spec-Accepted_example : Accepted single accepted
unfolding validate_pool_spec validate_template_network new_strategy
validate_pool_spec-Accepted_example = validate_pool_spec-Accepted single accepted refl

abbrev listed : List VmRecord
listed =
    row_to_vm (vm_row "v1" "h1" available none)
    ∷ row_to_vm (vm_row "v2" "h1" leased (some "l1"))
    ∷ row_to_vm (vm_row "v3" "h2" available none)
    ∷ []

count_leased_agrees_example :
    (count_leased listed ≡ 0) ↔ (any (λ v. vm_in_pool "web" "prod" v && is_held v) base.vms ≡ false)
unfolding list_vms_by_pool select sort_by insert_by
count_leased_agrees_example = count_leased_agrees "web" "prod" base base listed refl

abbrev hosts : List Host
hosts = row_to_host (host_row "h1") ∷ []
