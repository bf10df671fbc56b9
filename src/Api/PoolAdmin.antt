-- ===== src/Api/PoolAdmin.antt =====
-- internal/api/pooladmin.go: the handlers. The locks by pool name and hostRefsMu are left out: calls of other
-- goroutines may come between any two actions. The deletions of a pool's VMs run concurrently;
-- they are taken in the order of the list.
use battery.Prelude.{
  String, Bool, true, false, Option, none, some, List, [], ◌∷◌, ◌==◌, string_eq, if◌then◌else◌, pos,
  nat_eq,
}
use battery.Types.{PoolSpec, VmRecord, vm_deleted_on_pool_delete}
use battery.Table.{select}
use battery.Store.Error.{Error, Result, ok, err, not_found, pool_has_leased_vms, is_not_found}
use battery.Store.Pools.{create_pool, get_pool, list_pools, update_pool, delete_pool_and_mark_vms}
use battery.Store.Vms.{list_vms_by_pool}
use battery.Store.Hosts.{list_hosts}
use battery.World.{
  Prog, ◌>>=◌, ◌>>◌, pure, try, attempt, ignore, store, now, has_left, start_reconciler,
  stop_reconciler, stop_reconciler_and_wait,
}
use battery.Reconciler.Loop.{read_counts}
use battery.Reconciler.Deletion.{emit_event, ensure_vm_deleted_checking_pool}
use battery.Api.Pools.{
  Checked, valid, invalid, validate_pool_spec, check_flintlock_hosts, count_leased, PoolStatus,
  counts_to_status,
}
use battery.Api.Status.{
  Reply, reply, status, code_of, refuse, no_such, internal, invalid_argument, already_exists,
  failed_precondition, cancelled,
}

pub record Pool : Type 0 where
  pub spec : PoolSpec
  pub status : PoolStatus

abbrev no_status : PoolStatus
no_status = record {
  available_count = pos 0;
  leased_count = pos 0;
  provisioning_count = pos 0;
  quarantined_count = pos 0;
}

abbrev with_status : PoolSpec → Prog (Reply Pool)
with_status p =
    try (read_counts p.name p.namespace) (λ _. refuse internal)
      (λ counts. pure (reply (record { spec = p; status = counts_to_status counts })))

-- The answer to checkFlintlockHosts, before the rest.
abbrev if_known : Result (List String) → Prog (Reply Pool) → Prog (Reply Pool)
if_known (err e) rest = refuse internal
if_known (ok []) rest = rest
if_known (ok (h ∷ hs)) rest = refuse invalid_argument

abbrev on_known_hosts : PoolSpec → Prog (Reply Pool) → Prog (Reply Pool)
on_known_hosts p rest = do
  hosts ← attempt (store list_hosts)
  if_known (check_flintlock_hosts p hosts) rest

-- A reconciler that does not start is only logged.
abbrev create_named : PoolSpec → Prog (Reply Pool)
create_named p =
    try (store (create_pool p)) (λ _. refuse internal)
      (λ _. do
        ignore (start_reconciler p.name p.namespace)
        pure (reply (record { spec = p; status = no_status })))

abbrev create_valid : PoolSpec → Prog (Reply Pool)
create_valid p = on_known_hosts p (
    try (store (get_pool p.name p.namespace))
      (λ e. if is_not_found e then create_named p else refuse internal)
      (λ _. refuse already_exists))

abbrev when_valid : Checked → (PoolSpec → Prog (Reply Pool)) → Prog (Reply Pool)
when_valid (invalid e) f = refuse invalid_argument
when_valid (valid p) f = f p

unfoldable pub create : PoolSpec → Prog (Reply Pool)
unfolding validate_pool_spec check_flintlock_hosts is_not_found
create spec = when_valid (validate_pool_spec spec) create_valid

unfoldable pub get : String → String → Prog (Reply Pool)
unfolding read_counts counts_to_status
get name namespace =
    try (store (get_pool name namespace)) (λ e. refuse (code_of e))
      (λ p.
        try (read_counts name namespace) (λ _. refuse internal)
          (λ counts. pure (reply (record { spec = p; status = counts_to_status counts }))))

abbrev wanted : Option String → PoolSpec → Bool
wanted none p = true
wanted (some namespace) p = p.namespace == namespace

abbrev also_pool : Pool → Reply (List Pool) → Reply (List Pool)
also_pool p (reply rest) = reply (p ∷ rest)
also_pool p (status c) = status c

-- The first pool whose VMs cannot be counted ends the list.
unfoldable pub list_counted : List PoolSpec → Prog (Reply (List Pool))
unfolding read_counts counts_to_status
list_counted [] = pure (reply [])
list_counted (p ∷ ps) =
    try (read_counts p.name p.namespace) (λ _. refuse internal)
      (λ counts. do
        rest ← list_counted ps
        pure (also_pool (record { spec = p; status = counts_to_status counts }) rest))

unfoldable pub list : Option String → Prog (Reply (List Pool))
unfolding list_counted
list namespace =
    try (store list_pools) (λ _. refuse internal)
      (λ ps. list_counted (select (wanted namespace) ps))

abbrev update_valid : PoolSpec → Prog (Reply Pool)
update_valid p = on_known_hosts p (
    try (store (get_pool p.name p.namespace)) (λ e. refuse (code_of e))
      (λ _.
        try (store (update_pool p)) (λ _. refuse internal)
          (λ _. do
            stop_reconciler p.name p.namespace
            ignore (start_reconciler p.name p.namespace)
            with_status p)))

unfoldable pub update : PoolSpec → Prog (Reply Pool)
unfolding validate_pool_spec check_flintlock_hosts read_counts counts_to_status
update spec = when_valid (validate_pool_spec spec) update_valid

-- deletePoolVMs: an event for each VM, then a deletion of each, whose errors are only logged.
abbrev emit_deleted : PoolSpec → List VmRecord → Prog (Unit {0})
emit_deleted p [] = pure tt
emit_deleted p (vm ∷ vms) = do
  emit_event p.name p.namespace vm.uid vm_deleted_on_pool_delete
  emit_deleted p vms

abbrev delete_all : List VmRecord → Prog (Unit {0})
delete_all [] = pure tt
delete_all (vm ∷ vms) = do ignore (ensure_vm_deleted_checking_pool vm); delete_all vms

unfoldable pub delete_pool_vms : PoolSpec → List VmRecord → Prog (Unit {0})
unfolding emit_event ensure_vm_deleted_checking_pool
delete_pool_vms p vms = do emit_deleted p vms; delete_all vms

-- The errors of DeletePoolAndMarkVMs. Unless the pool is gone, its reconciler is started again.
abbrev undeleted : PoolSpec → Error → Prog (Reply (Unit {0}))
undeleted p not_found = refuse no_such
undeleted p pool_has_leased_vms = do
  ignore (start_reconciler p.name p.namespace)
  refuse failed_precondition
undeleted p _ = do
  left ← has_left
  ignore (start_reconciler p.name p.namespace)
  refuse (if left then cancelled else internal)

abbrev delete_halted : PoolSpec → String → String → Bool → Prog (Reply (Unit {0}))
delete_halted p name namespace force = do
  at ← now
  try (store (delete_pool_and_mark_vms at name namespace force)) (undeleted p)
      (λ vms. do delete_pool_vms p vms; pure (reply tt))

abbrev halt_and_delete : PoolSpec → String → String → Bool → Prog (Reply (Unit {0}))
halt_and_delete p name namespace force =
    try (stop_reconciler_and_wait name namespace)
      (λ _. do ignore (start_reconciler p.name p.namespace); refuse cancelled)
      (λ _. delete_halted p name namespace force)

-- Without `force`, refuse early if some VM is leased.
abbrev delete_found : PoolSpec → String → String → Bool → Prog (Reply (Unit {0}))
delete_found p name namespace true = halt_and_delete p name namespace true
delete_found p name namespace false =
    try (store (list_vms_by_pool name namespace none)) (λ _. refuse internal)
      (λ vms.
        if count_leased vms == 0
        then halt_and_delete p name namespace false
        else refuse failed_precondition)

unfoldable pub delete : String → String → Bool → Prog (Reply (Unit {0}))
unfolding delete_pool_vms count_leased
delete name namespace force =
    try (store (get_pool name namespace)) (λ e. refuse (code_of e))
      (λ p. delete_found p name namespace force)
