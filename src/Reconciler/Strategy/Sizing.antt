-- ===== src/Reconciler/Strategy/Sizing.antt =====
-- What the strategies of internal/reconciler/strategy.go do to a pool's size.
use battery.Prelude.{
  to_int32-zero, inl, inr, to_int32, ◌≤◌, ◌≡◌, true, false, pos, pos_part, leb_ℤ, arith, ◌⊎◌,
}
use battery.Types.{PoolSpec}
use battery.Reconciler.Strategy.{
  VmCounts, Strategy, immediate, threshold, replace, Trigger, tick, claimed, deleted, chosen,
  new_strategy, hook, counted, min_size_of, provision,
}

-- Whatever the trigger, the VMs asked for take what the strategy counts no further than the pool's
-- size: the count with them is the old count, or at most the size.
pub hook_bounded :
    (t : Trigger) (s : Strategy) (p : PoolSpec) (c : VmCounts)
    → (hook t s p c ≡ 0) ⊎ (counted s (provision (hook t s p c) c) ≤ pos_part p.size)
unfolding hook
hook_bounded tick immediate p c = ground arith
hook_bounded tick threshold p c = ground arith
hook_bounded tick replace p c = ground arith
hook_bounded claimed immediate p c = ground arith
hook_bounded claimed _ p c = ground arith
hook_bounded deleted replace p c = ground arith
hook_bounded deleted _ p c = ground arith

-- A tick fills the pool: afterwards the strategy counts at least the pool's size, unless the
-- strategy is MIN_SIZE_THRESHOLD and the available VMs, as an int32, have not dropped below min_size.
pub tick_fills :
    (s : Strategy) (p : PoolSpec) (c : VmCounts)
    → (pos_part p.size ≤ counted s (provision (hook tick s p c) c))
      ⊎ ((s ≡ threshold) × (leb_ℤ (min_size_of p) (to_int32 c.available) ≡ true))
unfolding hook
tick_fills immediate p c = ground arith
tick_fills threshold p c = ground arith
tick_fills replace p c = ground arith

settles-tick :
    (u : Trigger) (s : Strategy) (p : PoolSpec) (c : VmCounts)
    → hook u s p (provision (hook tick s p c) c) ≡ 0
unfolding hook
settles-tick tick immediate p c = ground arith
settles-tick tick threshold p c = ground arith
settles-tick tick replace p c = ground arith
settles-tick claimed immediate p c = ground arith
settles-tick claimed _ p c = ground arith
settles-tick deleted replace p c = ground arith
settles-tick deleted _ p c = ground arith

settles_self :
    (u : Trigger) (s : Strategy) (p : PoolSpec) (c : VmCounts)
    → hook u s p (provision (hook u s p c) c) ≡ 0
unfolding hook
settles_self tick immediate p c = ground arith
settles_self tick threshold p c = ground arith
settles_self tick replace p c = ground arith
settles_self claimed immediate p c = ground arith
settles_self claimed _ p c = ground arith
settles_self deleted replace p c = ground arith
settles_self deleted _ p c = ground arith

-- The hooks are level-triggered: once the VMs that a tick asked for are provisioning, no hook asks
-- for more, and a hook that has just run asks for no more when it runs again.
pub hook_settles :
    (u : Trigger) (s : Strategy) (p : PoolSpec) (c : VmCounts)
    → (hook u s p (provision (hook tick s p c) c) ≡ 0)
      × (hook u s p (provision (hook u s p c) c) ≡ 0)
hook_settles u s p c = (settles-tick u s p c, settles_self u s p c)

accepted_min_size :
    (p : PoolSpec)
    → new_strategy p.replenishment_strategy ≡ chosen threshold
    → leb_ℤ (min_size_of p) (pos 0) ≡ false
unfolding new_strategy
accepted_min_size p e = ground arith

-- A strategy that NewStrategy accepts for the pool refills it from the tick on which no VM is
-- available: it then counts at least the pool's size.
pub accepted_refills :
    (s : Strategy) (p : PoolSpec) (c : VmCounts)
    → new_strategy p.replenishment_strategy ≡ chosen s
    → c.available ≡ 0
    → pos_part p.size ≤ counted s (provision (hook tick s p c) c)
accepted_refills immediate p c e z = ground (arith, tick_fills immediate p c)
accepted_refills replace p c e z = ground (arith, tick_fills replace p c)
accepted_refills threshold p c e z =
    let low : leb_ℤ (min_size_of p) (to_int32 c.available) ≡ false =
      rw (z, to_int32-zero) (accepted_min_size p e) in
    elim (tick_fills threshold p c) [ inl h ↦ h | inr h ↦ absurd (cc (h.1, low)) ]
