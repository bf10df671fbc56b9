-- ===== src/Api/Lease.antt =====
-- internal/api/lease.go: Heartbeat, ReleaseVM and ListLeases. The metrics are left out.
pub mod Renewal
pub mod Release
use battery.Prelude.{
  ℕ, ℤ, add_duration, as_duration, String, Bool, true, false, Option, none, some, List,
  if◌then◌else◌,
}
use battery.Types.{VmRecord, LeaseRecord, PoolRef}
use battery.Store.Error.{Error, Result, ok, err, not_found, is_not_found}
use battery.Store.Rows.{or_else}
use battery.Store.Pools.{get_pool}
use battery.Store.Vms.{get_vm}
use battery.Store.Leases.{get_lease, delete_lease, update_lease_heartbeat, list_leases}
use battery.Api.Status.{Code, Reply, reply, status, code_of, when_ok, internal, unavailable}
use battery.World.{Prog, ◌>>=◌, ◌>>◌, pure, attempt, ignore, store, now, notify}
use battery.Reconciler.Deletion.{ensure_vm_deleted_checking_pool, finish_vm_release}

abbrev pub renewed : ℕ → Result (Unit {0}) → Reply ℕ
renewed expires (ok _) = reply expires
renewed expires (err e) = status (code_of e)

-- The steps of Heartbeat after GetPool.
abbrev pub renew : String → ℤ → Prog (Reply ℕ)
renew id threshold = do
  at ← now
  outcome ← attempt (store (update_lease_heartbeat id at (add_duration at threshold)))
  pure (renewed (add_duration at threshold) outcome)

unfoldable pub heartbeat : String → Prog (Reply ℕ)
heartbeat id = do
  found ← attempt (store (get_lease id))
  when_ok found λ lease. do
    pool ← attempt (store (get_pool lease.pool_name lease.pool_namespace))
    when_ok pool λ p. renew id (as_duration p.heartbeat_expiry_threshold)

abbrev pub dropped : LeaseRecord → Result (Unit {0}) → Prog (Reply (Unit {0}))
dropped lease (ok _) = do notify lease.pool_name lease.pool_namespace; pure (reply tt)
dropped lease (err e) =
    if is_not_found e
    then (do notify lease.pool_name lease.pool_namespace; pure (reply tt))
    else pure (status internal)

-- The last steps of ReleaseVM: the VM's row is gone, and the lease's is to go.
abbrev pub drop_lease : String → LeaseRecord → Prog (Reply (Unit {0}))
drop_lease id lease = do outcome ← attempt (store (delete_lease id)); dropped lease outcome

-- Another goroutine has removed the VM's row.
abbrev pub after_pool : {A : Type 0} → String → LeaseRecord → Result A → Prog (Reply (Unit {0}))
after_pool id lease (ok _) = pure (reply tt)
after_pool id lease (err e) = if is_not_found e then drop_lease id lease else pure (status internal)

abbrev pub after_delete : String → LeaseRecord → VmRecord → Result Bool → Prog (Reply (Unit {0}))
after_delete id lease vm (ok true) = do
  finish_vm_release lease.pool_name lease.pool_namespace vm lease
  pure (reply tt)
after_delete id lease vm (ok false) = drop_lease id lease
after_delete id lease vm (err e) =
    if is_not_found e
    then (do
      pool ← attempt (store (get_pool lease.pool_name lease.pool_namespace))
      after_pool id lease pool)
    else pure (status unavailable)

abbrev pub release_with : String → LeaseRecord → Result VmRecord → Prog (Reply (Unit {0}))
release_with id lease (ok vm) = do
  outcome ← attempt (ensure_vm_deleted_checking_pool vm)
  after_delete id lease vm outcome
release_with id lease (err e) =
    if is_not_found e then drop_lease id lease else pure (status internal)

unfoldable pub release_vm : String → Prog (Reply (Unit {0}))
unfolding is_not_found
release_vm id = do
  found ← attempt (store (get_lease id))
  when_ok found λ lease. do vm ← attempt (store (get_vm lease.vm_uid)); release_with id lease vm

abbrev pub listed : {A : Type 0} → Result A → Reply A
listed (ok a) = reply a
listed (err e) = status internal

unfoldable pub list_lease_records : Option PoolRef → Prog (Reply (List LeaseRecord))
list_lease_records ref = do leases ← attempt (store (list_leases ref)); pure (listed leases)
