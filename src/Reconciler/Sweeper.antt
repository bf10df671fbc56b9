-- ===== src/Reconciler/Sweeper.antt =====
-- internal/reconciler/drain.go, and the sweeps of internal/reconciler/sweeper.go. Metrics and log lines are
-- left out. The deletions that run concurrently are taken in the order of the list; calls of
-- other goroutines may come between any two actions.
pub mod Warned
use battery.Prelude.{
  unix_nano, unix_epoch, ℕ, ◌+◌, String, Bool, false, ◌&&◌, not, Option, none, some, List, [], ◌∷◌,
  ◌==◌, string_eq, nat_eq, if◌then◌else◌, leb,
}
use battery.Types.{
  VmRecord, LeaseRecord, PoolSpec, Host, deleting, vm_deleted_on_host_drain, vm_expiring_soon,
}
use battery.Table.{any, find, remove}
use battery.Store.Rows.{or_else}
use battery.Store.Pools.{get_pool}
use battery.Store.Vms.{list_vms_by_phase}
use battery.Store.Leases.{list_expired_leases}
use battery.Store.Hosts.{list_hosts, mark_draining_hosts_vms_deleting}
use battery.World.{Prog, ◌>>=◌, ◌>>◌, pure, try, store, now, notify}
use battery.Reconciler.Deletion.{
  emit_event, ensure_vm_deleted_checking_pool, finish_vm_deletion, begin_expiry,
}

-- One event for each VM; then one deletion of each.
abbrev pub emit_drained : List VmRecord → Prog (Unit {0})
emit_drained [] = pure tt
emit_drained (vm ∷ vms) = do
  emit_event vm.pool_name vm.pool_namespace vm.uid vm_deleted_on_host_drain
  emit_drained vms

-- A deletion that fails is only logged.
abbrev pub delete_drained : VmRecord → Prog (Unit {0})
delete_drained vm =
    try (ensure_vm_deleted_checking_pool vm) (λ _. pure tt)
      (λ _. notify vm.pool_name vm.pool_namespace)

abbrev pub delete_each : List VmRecord → Prog (Unit {0})
delete_each [] = pure tt
delete_each (vm ∷ vms) = do delete_drained vm; delete_each vms

unfoldable pub delete_drained_vms : List VmRecord → Prog (Unit {0})
unfolding emit_event ensure_vm_deleted_checking_pool
delete_drained_vms vms = do emit_drained vms; delete_each vms

-- An error ends the pass until the next tick.
unfoldable pub drain_hosts : Prog (Unit {0})
unfolding delete_drained_vms
drain_hosts = do
  at ← now
  try (store (mark_draining_hosts_vms_deleting at)) (λ _. pure tt) delete_drained_vms

-- draining[name]; of two hosts with one name the later entry stays.
abbrev pub is_draining : String → List Host → Bool
is_draining name [] = false
is_draining name (h ∷ hs) =
    let later = is_draining name hs in
    if any (λ k. k.name == name) hs then later else h.name == name && h.draining

-- After EnsureVMDeleted. A VM without a lease on a draining host has had its event.
abbrev pub finish_retry : List Host → VmRecord → PoolSpec → Prog (Unit {0})
finish_retry hosts vm p =
    if or_else vm.lease_id "" == "" && is_draining vm.flintlock_host hosts
    then notify p.name p.namespace
    else finish_vm_deletion p vm

abbrev pub retry_deletion : List Host → VmRecord → Prog (Unit {0})
retry_deletion hosts vm =
    try (ensure_vm_deleted_checking_pool vm) (λ _. pure tt)
      (λ _.
        try (store (get_pool vm.pool_name vm.pool_namespace)) (λ _. pure tt)
          (λ p. finish_retry hosts vm p))

abbrev pub retry_each : List Host → List VmRecord → Prog (Unit {0})
retry_each hosts [] = pure tt
retry_each hosts (vm ∷ vms) = do retry_deletion hosts vm; retry_each hosts vms

abbrev pub retry_all : List VmRecord → Prog (Unit {0})
retry_all [] = pure tt
retry_all (vm ∷ vms) = try (store list_hosts) (λ _. pure tt) (λ hosts. retry_each hosts (vm ∷ vms))

unfoldable pub retry_pending_deletions : Prog (Unit {0})
unfolding finish_vm_deletion ensure_vm_deleted_checking_pool
retry_pending_deletions = try (store (list_vms_by_phase deleting)) (λ _. pure tt) retry_all

-- The map `warned`, from lease ID to the expiry warned of; an entry is set at the front.
abbrev pub Warned : Type 0
Warned = List (String × ℕ)

abbrev pub forget : String → Warned → Warned
forget id warned = remove (λ e. e.0 == id) warned

abbrev pub remember : String → ℕ → Warned → Warned
remember id at warned = (id, at) ∷ forget id warned

-- The lease has been warned of this expiry.
abbrev pub is_of : ℕ → Option (String × ℕ) → Bool
is_of at none = false
is_of at (some e) = e.1 == at

abbrev pub has_warned : String → ℕ → Warned → Bool
has_warned id at warned = is_of at (find (λ e. e.0 == id) warned)

unfoldable pub warn_expiring_soon : LeaseRecord → Prog (Unit {0})
unfolding emit_event
warn_expiring_soon l =
    try (store (get_pool l.pool_name l.pool_namespace)) (λ _. pure tt)
      (λ p. emit_event p.name p.namespace l.vm_uid vm_expiring_soon)

-- One round of the loop over the leases, and the loop, with the map. `at` is the tick's time.
abbrev pub sweep_lease : ℕ → LeaseRecord → Warned → Prog Warned
sweep_lease at l warned =
    let expires = or_else l.expires_at unix_epoch in
    if leb expires at
    then (do begin_expiry l at; pure (forget l.lease_id warned))
    else if has_warned l.lease_id (unix_nano expires) warned
    then pure warned
    else do warn_expiring_soon l; pure (remember l.lease_id (unix_nano expires) warned)

abbrev pub sweep_leases : ℕ → List LeaseRecord → Warned → Prog Warned
sweep_leases at [] warned = pure warned
sweep_leases at (l ∷ ls) warned = do next ← sweep_lease at l warned; sweep_leases at ls next

-- Entries of leases that the query has not returned go.
abbrev pub evict : List LeaseRecord → Warned → Warned
evict leases warned = remove (λ e. not (any (λ l. l.lease_id == e.0) leases)) warned

abbrev pub sweep_listed : ℕ → List LeaseRecord → Warned → Prog Warned
sweep_listed at leases warned = do next ← sweep_leases at leases warned; pure (evict leases next)

unfoldable pub tick : ℕ → ℕ → Warned → Prog Warned
unfolding retry_pending_deletions drain_hosts warn_expiring_soon begin_expiry
tick window at warned = do
  retry_pending_deletions
  drain_hosts
  try (store (list_expired_leases (at + window))) (λ _. pure warned)
      (λ leases. sweep_listed at leases warned)
