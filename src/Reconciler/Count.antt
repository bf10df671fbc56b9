-- ===== src/Reconciler/Count.antt =====
-- internal/reconciler/reconciler.go: counting a pool's VMs, and the cap for static networks.
use battery.Prelude.{
  ℕ, suc, ◌+◌, ◌≤◌, ◌≡◌, refl, Bool, true, false, ◌&&◌, ◌||◌, not, Option, none, some, String, List,
  [], ◌∷◌, ◌==◌, string_eq, if◌then◌else◌, arith, length, ltb, ◌⊎◌,
}
use battery.Types.{
  VmRecord, VmPhase, LeaseRecord, MicrovmSpec, NetworkInterface, PoolSpec, available,
  pre_lease_hook_running, leased, provisioning, create_hook_running, quarantined, deleting, failed,
  phase_eq,
}
use battery.Table.{any, count}
use mathlib.Core.Path.{subst}
use battery.Store.Error.{Result, ok, err, ok-eq-ok}
use battery.Store.Rows.{or_else, empty_template}
use battery.Reconciler.Strategy.{VmCounts}

-- _, ok := committed[id]
unfoldable pub is_committed : List LeaseRecord → String → Bool
is_committed leases id = any (λ l. l.lease_id == id) leases

-- One round of the loop: the VM's phase, and whether its lease has a row.
abbrev pub tally : VmPhase → Bool → VmCounts → VmCounts
tally available known c = record c { available = suc c.available }
tally pre_lease_hook_running known c = record c { claiming = suc c.claiming }
tally leased true c = record c { leased = suc c.leased }
tally leased false c = record c { claiming = suc c.claiming }
tally provisioning known c = record c { provisioning = suc c.provisioning }
tally create_hook_running known c = record c { provisioning = suc c.provisioning }
tally quarantined known c = record c { quarantined = suc c.quarantined }
tally _ known c = c

unfoldable pub count_from : List LeaseRecord → VmCounts → List VmRecord → VmCounts
count_from leases c [] = c
count_from leases c (v ∷ vs) =
    count_from leases (tally v.phase (is_committed leases (or_else v.lease_id "")) c) vs

abbrev pub no_vms : VmCounts
no_vms = record { available = 0; claiming = 0; leased = 0; provisioning = 0; quarantined = 0 }

count_listed : List VmRecord → Result (List LeaseRecord) → Result VmCounts
unfolding count_from
count_listed vms (ok leases) = ok (count_from leases no_vms vms)
count_listed vms (err e) = err e

-- CountVMs, from what ListVMsByPool and ListLeases answer for the pool.
unfoldable pub count_vms : Result (List VmRecord) → Result (List LeaseRecord) → Result VmCounts
unfolding count_listed
count_vms (ok vms) leases = count_listed vms leases
count_vms (err e) leases = err e

abbrev pub is_static : NetworkInterface → Bool
is_static i = not (i.guest_mac == "") || (elim i.address [ none ↦ false | some a ↦ true ])

-- A nil template has no interfaces.
unfoldable pub template_has_static_network : Option MicrovmSpec → Bool
template_has_static_network t = any is_static (or_else t empty_template).interfaces

-- From what ListVMsByPool answers for the pool.
abbrev pub cap_for_static_network : Result (List VmRecord) → ℕ
cap_for_static_network (ok []) = 1
cap_for_static_network (ok (v ∷ vs)) = 0
cap_for_static_network (err e) = 0

-- How many Provision calls provisionN starts, asked for `n`.
unfoldable pub provision_count : PoolSpec → Result (List VmRecord) → ℕ → ℕ
unfolding template_has_static_network
provision_count p vms n =
    if ltb 0 n && template_has_static_network p.microvm_template
    then cap_for_static_network vms
    else n

-- For a pool whose template has static network config, provisionN starts one VM at most, and none unless the pool's VMs were listed and there is no record of any.
pub provision_count_static :
    (p : PoolSpec) (vms : Result (List VmRecord)) (n : ℕ)
    → template_has_static_network p.microvm_template ≡ true
    → (provision_count p vms n ≤ 1) × ((vms ≡ ok []) ⊎ (provision_count p vms n ≡ 0))
unfolding provision_count
provision_count_static p (ok []) n e = ground arith
provision_count_static p (ok (v ∷ vs)) n e = ground arith
provision_count_static p (err x) n e = ground arith

-- All that is counted.
pub total : VmCounts → ℕ
total c = c.available + c.claiming + c.leased + c.provisioning + c.quarantined

abbrev pub is_uncounted : VmRecord → Bool
is_uncounted v = v.phase == deleting || v.phase == failed

tally-total :
    (p : VmPhase) (known : Bool) (c : VmCounts)
    → total (tally p known c) + (if p == deleting || p == failed then 1 else 0) ≡ suc (total c)
unfolding total
tally-total leased true c = ground arith
tally-total leased false c = ground arith
tally-total p known c = ground arith

no_vms-total : total no_vms ≡ 0
unfolding total
no_vms-total = refl

count_from-total :
    (leases : List LeaseRecord) (c : VmCounts) (vms : List VmRecord)
    → total (count_from leases c vms) + count is_uncounted vms ≡ total c + length vms
unfolding count_from count
count_from-total leases c [] = omega arith
count_from-total leases c (v ∷ vs) = ground (
  arith,
  tally-total v.phase (is_committed leases (or_else v.lease_id "")) c,
  count_from-total leases (tally v.phase (is_committed leases (or_else v.lease_id "")) c) vs,
)

-- CountVMs, once the VMs and the leases of the pool are listed, counts each VM once, except those that
-- are DELETING or FAILED, which it leaves out.
pub count_vms-total :
    (vms : List VmRecord) (leases : List LeaseRecord) (c : VmCounts)
    → count_vms (ok vms) (ok leases) ≡ ok c
    → total c + count is_uncounted vms ≡ length vms
unfolding count_vms
count_vms-total vms leases c e =
    subst (λ x. total x + count is_uncounted vms ≡ length vms) (ok-eq-ok e)
      (omega (arith, count_from-total leases no_vms vms, no_vms-total))
