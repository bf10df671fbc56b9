-- ===== src/Store/Pools.antt =====
-- internal/store/sqlite.go: the calls on pools.
use battery.Prelude.{
  unix_nano, ℕ, String, Bool, ◌&&◌, ◌||◌, not, none, List, [], ◌∷◌, ◌++◌, map, ◌==◌, string_eq,
  if◌then◌else◌,
}
use battery.Types.{PoolSpec, VmRecord, leased, pre_lease_hook_running, deleting, phase_eq}
use battery.Table.{select, find, update, remove, any, sort_by}
use battery.Store.Error.{not_found, pool_has_leased_vms, other}
use battery.Store.Rows.{PoolRow, VmRow, LeaseRow, pool_to_row, row_to_pool, row_to_vm}
use battery.Store.Db.{Tx, ◌>>=◌, ◌>>◌, pure, lift, query, modify, require, or_fail, str_le}

-- WHERE name = ? AND namespace = ?
abbrev pub is_pool : String → String → PoolRow → Bool
is_pool name namespace r = r.name == name && r.namespace == namespace

-- WHERE pool_name = ? AND pool_namespace = ?
abbrev pub vm_in_pool : String → String → VmRow → Bool
vm_in_pool name namespace v = v.pool_name == name && v.pool_namespace == namespace

abbrev pub lease_in_pool : String → String → LeaseRow → Bool
lease_in_pool name namespace l = l.pool_name == name && l.pool_namespace == namespace

-- ORDER BY uid
abbrev pub uid_le : VmRow → VmRow → Bool
uid_le v w = str_le v.uid w.uid

-- ORDER BY namespace, name
abbrev pub pool_le : PoolRow → PoolRow → Bool
pool_le p q =
    if p.namespace == q.namespace then str_le p.name q.name else str_le p.namespace q.namespace

-- The primary key of `pools` is (name, namespace).
abbrev pub same_pool : PoolRow → PoolRow → Bool
same_pool p q = is_pool q.name q.namespace p

unfoldable pub insert_pool : PoolRow → Tx (Unit {0})
insert_pool row = do
  require (λ d. not (any (λ r. same_pool r row) d.pools)) other
  modify (λ d. record d { pools = d.pools ++ row ∷ [] })

unfoldable pub create_pool : PoolSpec → Tx (Unit {0})
unfolding insert_pool
create_pool p = do row ← lift (pool_to_row p); insert_pool row

unfoldable pub get_pool : String → String → Tx PoolSpec
get_pool name namespace = do
  found ← query (λ d. find (is_pool name namespace) d.pools)
  row ← or_fail found not_found
  pure (row_to_pool row)

unfoldable pub list_pools : Tx (List PoolSpec)
list_pools = query (λ d. map row_to_pool (sort_by pool_le d.pools))

-- Every column but the key is set.
unfoldable pub update_pool : PoolSpec → Tx (Unit {0})
update_pool p = do
  row ← lift (pool_to_row p)
  require (λ d. any (is_pool row.name row.namespace) d.pools) not_found
  modify (λ d. record d {
    pools =
        update (is_pool row.name row.namespace)
          (λ r. record row { name = r.name; namespace = r.namespace }) d.pools;
  })

unfoldable pub delete_pool : String → String → Tx (Unit {0})
delete_pool name namespace = do
  require (λ d. any (is_pool name namespace) d.pools) not_found
  modify (λ d. record d { pools = remove (is_pool name namespace) d.pools })

abbrev pub is_held : VmRow → Bool
is_held v = v.phase == leased || v.phase == pre_lease_hook_running

-- SET phase = DELETING, lease_id = NULL, updated_at = now
abbrev pub mark_deleting : ℕ → VmRow → VmRow
mark_deleting now v = record v { phase = deleting; lease_id = none; updated_at = unix_nano now }

unfoldable pub delete_pool_and_mark_vms : ℕ → String → String → Bool → Tx (List VmRecord)
unfolding delete_pool
delete_pool_and_mark_vms now name namespace force = do
  delete_pool name namespace
  require (λ d. force || not (any (λ v. vm_in_pool name namespace v && is_held v) d.vms))
      pool_has_leased_vms
  modify (λ d. record d { vms = update (vm_in_pool name namespace) (mark_deleting now) d.vms })
  modify (λ d. record d { leases = remove (lease_in_pool name namespace) d.leases })
  query (λ d. map row_to_vm (sort_by uid_le (select (vm_in_pool name namespace) d.vms)))
