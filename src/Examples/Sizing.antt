-- ===== src/Examples/Sizing.antt =====
-- The theorems on internal/reconciler's sizing and placement of pools, at concrete pools.
use battery.Prelude.{
  to_int32, Bool, ◌≡◌, ◌≤◌, ◌⊎◌, refl, String, true, not, none, some, List, [], ◌∷◌, pos_part,
  leb_ℤ, ◌==◌, string_eq,
}
use battery.Types.{VmRecord, available, leased, deleting, phase_eq}
use battery.Table.{select, count}
use battery.Reconciler.Strategy.{
  VmCounts, immediate, threshold, tick, claimed, hook, counted, provision, min_size_of,
  new_strategy,
}
use battery.Reconciler.Strategy.Sizing.{hook_bounded, tick_fills, hook_settles, accepted_refills}
use battery.Types.{PoolSpec}
use battery.Reconciler.HostPick.{IsFirstLeast, pick_host, load, least}
use battery.Reconciler.HostPick.Least.{pick_host-IsFirstLeast}
use battery.Examples.Data.{pool, vm}

abbrev one_free : VmCounts
one_free = record { available = 1; claiming = 0; leased = 4; provisioning = 0; quarantined = 0 }

abbrev none_free : VmCounts
none_free = record { available = 0; claiming = 0; leased = 4; provisioning = 1; quarantined = 0 }

abbrev vms : List VmRecord
vms =
    vm "v1" "h1" available none ∷ vm "v2" "h1" leased (some "l2") ∷ vm "v3" "h2" deleting none ∷ []

hook_bounded_example :
    (hook claimed immediate pool one_free ≡ 0)
    ⊎ (counted immediate (provision (hook claimed immediate pool one_free) one_free)
        ≤ pos_part pool.size)
hook_bounded_example = hook_bounded claimed immediate pool one_free

tick_fills_example :
    (pos_part pool.size
      ≤ counted threshold (provision (hook tick threshold pool one_free) one_free))
    ⊎ ((threshold ≡ threshold) × (leb_ℤ (min_size_of pool) (to_int32 one_free.available) ≡ true))
tick_fills_example = tick_fills threshold pool one_free

hook_settles_example :
    (hook claimed immediate pool (provision (hook tick immediate pool one_free) one_free) ≡ 0)
    × (hook claimed immediate pool (provision (hook claimed immediate pool one_free) one_free) ≡ 0)
hook_settles_example = hook_settles claimed immediate pool one_free

accepted_refills_example :
    pos_part pool.size
    ≤ counted immediate (provision (hook tick immediate pool none_free) none_free)
unfolding new_strategy
accepted_refills_example = accepted_refills immediate pool none_free refl refl

abbrev no_h3 : String → Bool
no_h3 h = h == "h3"

abbrev wide_pool : PoolSpec
wide_pool = record pool { flintlock_hosts = "h3" ∷ "h1" ∷ "h2" ∷ [] }

pick_host-IsFirstLeast_example :
    IsFirstLeast (λ h. load h vms) (select (λ h. not (no_h3 h)) wide_pool.flintlock_hosts) "h2"
unfolding pick_host select load least count
pick_host-IsFirstLeast_example = pick_host-IsFirstLeast wide_pool no_h3 vms "h2" refl
