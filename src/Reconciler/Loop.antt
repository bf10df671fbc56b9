-- ===== src/Reconciler/Loop.antt =====
-- internal/reconciler/reconciler.go: the control loop. The Provision calls that provisionN starts run
-- concurrently; they are taken one after the other here.
pub mod Unfailing
use battery.Prelude.{
  ℕ, zero, suc, ◌≡◌, refl, ◌∙◌, String, true, false, ◌&&◌, Option, none, some, List, [], ◌∷◌, ltb,
  if◌then◌else◌,
}
use battery.Types.{PoolSpec}
use battery.Store.Error.{Error, Result, ok, err}
use battery.Store.Vms.{list_vms_by_pool}
use battery.Store.Leases.{list_leases}
use battery.World.{World, Prog, ◌>>=◌, ◌>>◌, pure, lifted, try, attempt, handle, store}
use battery.Reconciler.Strategy.{
  VmCounts, Strategy, StrategyError, Chosen, chosen, refused, new_strategy, Trigger, tick, hook,
}
use battery.Reconciler.Count.{count_vms, template_has_static_network, cap_for_static_network}
use battery.Reconciler.Provision.{Provisioned, provision}

pub data Built : Type 0 where
  no_pool : Built
  refused_strategy : StrategyError → Built
  built : PoolSpec → Strategy → Built

abbrev pub with_strategy : PoolSpec → Chosen → Built
with_strategy p (refused e) = refused_strategy e
with_strategy p (chosen s) = built p s

-- New
unfoldable pub new_reconciler : Option PoolSpec → Built
unfolding new_strategy
new_reconciler none = no_pool
new_reconciler (some p) = with_strategy p (new_strategy p.replenishment_strategy)

-- CountVMs as a program: the VMs are read first.
unfoldable pub read_counts : String → String → Prog VmCounts
unfolding count_vms
read_counts name namespace =
    try (store (list_vms_by_pool name namespace none)) (λ e. lifted (err e))
      (λ vms. do
        leases ←
            attempt (store (list_leases (some (record { name = name; namespace = namespace }))))
        lifted (count_vms (ok vms) leases))

-- How many Provision calls start.
abbrev capped : PoolSpec → ℕ → Prog ℕ
capped p n =
    if ltb 0 n && template_has_static_network p.microvm_template
    then (do
      vms ← attempt (store (list_vms_by_pool p.name p.namespace none))
      pure (cap_for_static_network vms))
    else pure n

-- A call that fails is logged.
abbrev provision_each : PoolSpec → ℕ → Prog (Unit {0})
provision_each p zero = pure tt
provision_each p (suc n) =
    let rest = provision_each p n in try (provision p) (λ _. rest) (λ _. rest)

unfoldable pub provision_n : PoolSpec → ℕ → Prog (Unit {0})
unfolding template_has_static_network provision
provision_n p n = do k ← capped p n; provision_each p k

unfoldable pub reconcile : Trigger → Strategy → PoolSpec → Prog (Unit {0})
unfolding read_counts provision_n hook
reconcile why strategy p =
    try (read_counts p.name p.namespace) (λ _. pure tt)
      (λ counts. provision_n p (hook why strategy p counts))

-- Run, woken by these until its context is done.
unfoldable pub run_woken : List Trigger → Strategy → PoolSpec → Prog (Unit {0})
unfolding reconcile
run_woken [] strategy p = pure tt
run_woken (why ∷ whys) strategy p = do reconcile why strategy p; run_woken whys strategy p

unfoldable pub run_loop : List Trigger → Strategy → PoolSpec → Prog (Unit {0})
unfolding reconcile run_woken
run_loop whys strategy p = do reconcile tick strategy p; run_woken whys strategy p
