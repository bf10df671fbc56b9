-- ===== src/Api/Pools.antt =====
-- internal/api/pooladmin.go: the checks of a pool's spec and the counts of its VMs. The texts of errors
-- are left out.
pub mod Accepted
pub mod Counts
pub mod Registered
use battery.Prelude.{
  ℕ, suc, ◌+◌, ℤ, pos, leb_ℤ, to_int32, String, Bool, true, false, ◌&&◌, ◌||◌, not, Option, none,
  some, List, [], ◌∷◌, ◌++◌, ◌==◌, string_eq, if◌then◌else◌,
}
use battery.Types.{
  PoolSpec, MicrovmSpec, NetworkInterface, ReplenishmentStrategyType, immediate_on_lease,
  HookFailurePolicy, policy_unspecified, quarantine, VmRecord, Host, leased, pre_lease_hook_running,
  phase_eq,
}
use battery.Table.{any, count}
use battery.Store.Error.{Error, Result, ok, err}
use battery.Store.Rows.{or_else, empty_strategy, empty_template}
use battery.Reconciler.Strategy.{StrategyError, VmCounts, Chosen, chosen, refused, new_strategy}

-- What the InvalidArgument errors of validatePoolSpec say; an interface by its index.
pub data SpecError : Type 0 where
  name_required namespace_required template_required invalid_hook_failure_policy : SpecError
  invalid_strategy : StrategyError → SpecError
  shared_mac shared_address : ℕ → SpecError

abbrev pub is_immediate : PoolSpec → Bool
is_immediate p = elim (or_else p.replenishment_strategy empty_strategy).type [
  | immediate_on_lease ↦ true
  | _ ↦ false
]

abbrev pub is_quarantine : PoolSpec → Bool
is_quarantine p = elim p.hook_failure_policy [ quarantine ↦ true | _ ↦ false ]

-- The pool never holds two VMs by design.
abbrev pub is_single : PoolSpec → Bool
is_single p = leb_ℤ p.size (pos 1) && (not (is_immediate p) && not (is_quarantine p))

abbrev pub first_static : ℕ → List NetworkInterface → Option SpecError
first_static i [] = none
first_static i (f ∷ fs) =
    let rest = first_static (suc i) fs in
    if not (f.guest_mac == "")
    then some (shared_mac i)
    else elim f.address [ none ↦ rest | some a ↦ some (shared_address i) ]

-- `none` is a nil error.
unfoldable pub validate_template_network : PoolSpec → Option SpecError
validate_template_network p =
    if is_single p
    then none
    else first_static 0 (or_else p.microvm_template empty_template).interfaces

-- The spec as the checks leave it, or the error.
pub data Checked : Type 0 where
  valid : PoolSpec → Checked
  invalid : SpecError → Checked

abbrev pub check_network : PoolSpec → MicrovmSpec → Option SpecError → Checked
check_network p t (some e) = invalid e
check_network p t none =
    valid (record p { microvm_template = some (record t { allow_guest_agent = true }) })

abbrev pub check_template : PoolSpec → Option MicrovmSpec → Checked
check_template p none = invalid template_required
check_template p (some t) = check_network p t (validate_template_network p)

abbrev pub check_policy : PoolSpec → HookFailurePolicy → Checked
check_policy p policy_unspecified = invalid invalid_hook_failure_policy
check_policy p _ = check_template p p.microvm_template

abbrev pub check_strategy : PoolSpec → Chosen → Checked
check_strategy p (refused e) = invalid (invalid_strategy e)
check_strategy p (chosen s) = check_policy p p.hook_failure_policy

unfoldable pub validate_pool_spec : PoolSpec → Checked
unfolding validate_template_network
validate_pool_spec p =
    if p.name == ""
    then invalid name_required
    else if p.namespace == ""
    then invalid namespace_required
    else check_strategy p (new_strategy p.replenishment_strategy)

abbrev pub unknown_hosts : (String → Bool) → List String → List String → List String
unknown_hosts known [] unknown = unknown
unknown_hosts known (h ∷ hs) unknown =
    unknown_hosts known hs
      (if not (known h) && not (any (λ u. u == h) unknown) then unknown ++ h ∷ [] else unknown)

-- checkFlintlockHosts, from what ListHosts answers: the names that the error lists, none for nil.
unfoldable pub check_flintlock_hosts : PoolSpec → Result (List Host) → Result (List String)
check_flintlock_hosts p (ok hosts) =
    ok (unknown_hosts (λ name. any (λ h. h.name == name) hosts) p.flintlock_hosts [])
check_flintlock_hosts p (err e) = err e

unfoldable pub count_leased : List VmRecord → ℕ
count_leased vms = count (λ v. v.phase == leased || v.phase == pre_lease_hook_running) vms

pub record PoolStatus : Type 0 where
  pub available_count : ℤ
  pub leased_count : ℤ
  pub provisioning_count : ℤ
  pub quarantined_count : ℤ

unfoldable pub counts_to_status : VmCounts → PoolStatus
counts_to_status c = record {
  available_count = to_int32 c.available;
  leased_count = to_int32 (c.claiming + c.leased);
  provisioning_count = to_int32 c.provisioning;
  quarantined_count = to_int32 c.quarantined;
}
