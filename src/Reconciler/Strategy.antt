-- ===== src/Reconciler/Strategy.antt =====
-- internal/reconciler/strategy.go: how many VMs a pool should start provisioning.
pub mod Sizing
use battery.Prelude.{
  ℕ, suc, zero, ◌+◌, ◌≤◌, ◌<◌, ◌≡◌, refl, Bool, true, false, Option, none, some, ℤ, to_int32, pos,
  negsuc, pos_part, neg_part, ◌-ℤ◌, leb_ℤ, if◌then◌else◌, arith, ltb, leb, ◌||◌, ◌⊎◌, inl, inr,
  Bool-cases,
}
use battery.Types.{
  PoolSpec, ReplenishmentStrategy, ReplenishmentStrategyType, strategy_unspecified,
  immediate_on_lease, min_size_threshold, replace_on_delete,
}
use battery.Store.Rows.{or_else, empty_strategy}

pub data StrategyError : Type 0 where
  unknown_strategy min_size_required : StrategyError

pub record VmCounts : Type 0 where
  pub available : ℕ
  pub claiming : ℕ
  pub leased : ℕ
  pub provisioning : ℕ
  pub quarantined : ℕ

-- The implementations of the Strategy interface.
pub data Strategy : Type 0 where
  immediate threshold replace : Strategy

pub data Chosen : Type 0 where
  chosen : Strategy → Chosen
  refused : StrategyError → Chosen

-- spec.MinSize == nil || spec.GetMinSize() <= 0
abbrev pub lacks_min_size : Option ℤ → Bool
lacks_min_size none = true
lacks_min_size (some n) = leb_ℤ n (pos 0)

abbrev choose_type : ReplenishmentStrategyType → Option ℤ → Chosen
choose_type immediate_on_lease m = chosen immediate
choose_type min_size_threshold m =
    if lacks_min_size m then refused min_size_required else chosen threshold
choose_type replace_on_delete m = chosen replace
choose_type strategy_unspecified m = refused unknown_strategy

unfoldable pub new_strategy : Option ReplenishmentStrategy → Chosen
new_strategy none = refused unknown_strategy
new_strategy (some s) = choose_type s.type s.min_size

-- max(0, size - n)
abbrev pub missing : ℤ → ℕ → ℕ
missing size n = pos_part (size -ℤ pos n)

-- What each strategy counts towards the pool's size.
abbrev pub counted : Strategy → VmCounts → ℕ
counted immediate c = c.available + c.claiming + c.provisioning
counted threshold c = c.available + c.claiming + c.leased + c.provisioning
counted replace c = c.available + c.claiming + c.leased + c.provisioning

abbrev pub min_size_of : PoolSpec → ℤ
min_size_of p = or_else (or_else p.replenishment_strategy empty_strategy).min_size (pos 0)

unfoldable pub desired_new_vms : Strategy → PoolSpec → VmCounts → ℕ
desired_new_vms immediate p c = missing p.size (counted immediate c)
desired_new_vms threshold p c =
    if leb_ℤ (min_size_of p) (to_int32 c.available) then 0 else missing p.size (counted threshold c)
desired_new_vms replace p c = missing p.size (counted replace c)

unfoldable pub on_vm_claimed : Strategy → PoolSpec → VmCounts → ℕ
on_vm_claimed immediate p c = missing p.size (counted immediate c)
on_vm_claimed threshold p c = 0
on_vm_claimed replace p c = 0

unfoldable pub on_vm_deleted : Strategy → PoolSpec → VmCounts → ℕ
on_vm_deleted immediate p c = 0
on_vm_deleted threshold p c = 0
on_vm_deleted replace p c = missing p.size (counted replace c)

-- The three hooks, by the trigger that runs them.
pub data Trigger : Type 0 where
  tick claimed deleted : Trigger

unfoldable pub hook : Trigger → Strategy → PoolSpec → VmCounts → ℕ
unfolding desired_new_vms on_vm_claimed on_vm_deleted
hook tick = desired_new_vms
hook claimed = on_vm_claimed
hook deleted = on_vm_deleted

-- The counts once `n` more VMs are being provisioned.
abbrev pub provision : ℕ → VmCounts → VmCounts
provision n c = record c { provisioning = c.provisioning + n }
