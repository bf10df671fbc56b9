-- ===== src/Reconciler/Recovery.antt =====
-- RecoverAbandonedProvisions and RecoverAbandonedClaims of internal/reconciler/reconciler.go, which run
-- before anything else calls the store. Log lines are left out.
pub mod Listed
pub mod Marked
use battery.Prelude.{ℕ, suc, ◌+◌, String, Bool, true, not, none, some, List, [], ◌∷◌}
use battery.Types.{
  VmRecord, VmPhase, LeaseRecord, provisioning, create_hook_running, pre_lease_hook_running, leased,
  deleting,
}
use battery.Table.{select}
use battery.Store.Rows.{or_else}
use battery.Store.Vms.{update_vm, list_vms_by_phase}
use battery.Store.Leases.{list_leases}
use battery.World.{Prog, ◌>>=◌, ◌>>◌, pure, store, now}
use battery.Reconciler.Count.{is_committed}

-- One round of the loop, and the loop: how many VMs it has marked.
abbrev pub mark_abandoned : VmRecord → Prog (Unit {0})
mark_abandoned vm = do
  at ← now
  store (update_vm (record vm { phase = deleting; updated_at = some at }))

abbrev pub mark_all : List VmRecord → Prog ℕ
mark_all [] = pure 0
mark_all (vm ∷ vms) = do mark_abandoned vm; n ← mark_all vms; pure (suc n)

abbrev pub mark_phase : (VmRecord → Bool) → VmPhase → Prog ℕ
mark_phase abandoned phase = do
  vms ← store (list_vms_by_phase phase)
  mark_all (select abandoned vms)

unfoldable pub recover_abandoned_provisions : Prog ℕ
recover_abandoned_provisions = do
  n ← mark_phase (λ _. true) provisioning
  m ← mark_phase (λ _. true) create_hook_running
  pure (n + m)

unfoldable pub recover_abandoned_claims : Prog ℕ
recover_abandoned_claims = do
  leases ← store (list_leases none)
  n ← mark_phase (λ v. not (is_committed leases (or_else v.lease_id ""))) pre_lease_hook_running
  m ← mark_phase (λ v. not (is_committed leases (or_else v.lease_id ""))) leased
  pure (n + m)
