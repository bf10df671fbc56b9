-- ===== src/Store/Hosts.antt =====
-- internal/store/sqlite.go: the registry of hosts, drains, and placement reservations.
use battery.Prelude.{
  unix_nano, ℕ, zero, ◌+◌, String, Bool, true, false, ◌&&◌, ◌||◌, not, Option, none, some, List, [],
  ◌∷◌, ◌++◌, map, ◌==◌, string_eq, if◌then◌else◌,
}
use battery.Types.{Host, VmRecord, deleting, phase_eq}
use battery.Table.{select, find, update, remove, any, count, sort_by}
use battery.Store.Error.{
  not_found, host_exists, host_in_use, host_cordoned, host_not_registered, other,
}
use battery.Store.Rows.{
  PoolRow, VmRow, HostRow, host_to_row, row_to_host, row_to_vm, null_if_empty, or_else, empty_tls,
}
use battery.Store.Db.{
  Db, Tx, Placement, ◌>>=◌, ◌>>◌, pure, lift, query, modify, require, or_fail, str_le,
}
use battery.Store.Pools.{uid_le, pool_le, is_held, mark_deleting}

abbrev pub is_host : String → HostRow → Bool
is_host name h = h.name == name

abbrev pub same_host : HostRow → HostRow → Bool
same_host h k = h.name == k.name

unfoldable pub insert_host : HostRow → Tx (Unit {0})
insert_host row = do
  require (λ d. not (any (λ h. same_host h row) d.hosts)) host_exists
  modify (λ d. record d { hosts = d.hosts ++ row ∷ [] })

unfoldable pub create_host : Host → Tx (Unit {0})
unfolding insert_host
create_host h = do row ← lift (host_to_row h); insert_host row

unfoldable pub get_host : String → Tx Host
get_host name = do
  found ← query (λ d. find (is_host name) d.hosts)
  row ← or_fail found not_found
  pure (row_to_host row)

unfoldable pub list_hosts : Tx (List Host)
list_hosts = query (λ d. map row_to_host (sort_by (λ h k. str_le h.name k.name) d.hosts))

-- SET address, tls_insecure, ca_file, cert_file, key_file, updated_at
abbrev pub set_address : ℕ → Host → HostRow → HostRow
set_address now host r =
    let tls = or_else host.tls empty_tls in
    record r {
      address = host.address;
      tls_insecure = tls.insecure;
      ca_file = tls.ca_file;
      cert_file = tls.cert_file;
      key_file = tls.key_file;
      updated_at = unix_nano now;
    }

unfoldable pub update_host : ℕ → Host → Tx Host
unfolding get_host
update_host now host = do
  require (λ d. any (is_host host.name) d.hosts) not_found
  modify (λ d. record d { hosts = update (is_host host.name) (set_address now host) d.hosts })
  get_host host.name

-- json_each.value = ?
abbrev pub names_host : String → PoolRow → Bool
names_host name p = any (λ h. h == name) p.flintlock_hosts

abbrev pub on_host : String → VmRow → Bool
on_host name v = v.flintlock_host == name

abbrev pub placed_on : String → Placement → Bool
placed_on name p = p.host == name

unfoldable pub vms_and_placements : String → Db → ℕ
vms_and_placements name d = count (on_host name) d.vms + count (placed_on name) d.placements

unfoldable pub count_vms_by_host : String → Tx ℕ
unfolding vms_and_placements
count_vms_by_host name = query (vms_and_placements name)

-- The pools that name the host, as (namespace, name) in that order.
unfoldable pub pools_naming : String → Db → List (String × String)
pools_naming name d =
    map (λ p. (p.namespace, p.name)) (sort_by pool_le (select (names_host name) d.pools))

abbrev pub is_empty {ℓ} : {A : Type ℓ} → List A → Bool
is_empty [] = true
is_empty (x ∷ xs) = false

abbrev pub is_zero : ℕ → Bool
is_zero zero = true
is_zero _ = false

unfoldable pub delete_host : String → Tx (Unit {0})
unfolding vms_and_placements pools_naming
delete_host name = do
  require (λ d. any (is_host name) d.hosts) not_found
  pools ← query (pools_naming name)
  vms ← query (vms_and_placements name)
  require (λ _. is_empty pools && is_zero vms) (host_in_use pools vms)
  modify (λ d. record d { hosts = remove (is_host name) d.hosts })

-- Uncordoning ends a drain; cordoning leaves it as it is.
abbrev pub set_cordoned : ℕ → Bool → String → HostRow → HostRow
set_cordoned now cordoned reason r = record r {
  cordoned = cordoned;
  cordoned_reason = if cordoned then null_if_empty reason else none;
  cordoned_at = if cordoned then some (unix_nano now) else none;
  updated_at = unix_nano now;
  draining = if cordoned then r.draining else false;
  draining_at = if cordoned then r.draining_at else none;
}

unfoldable pub set_host_cordoned : ℕ → String → Bool → String → Tx Host
unfolding get_host null_if_empty
set_host_cordoned now name cordoned reason = do
  require (λ d. any (is_host name) d.hosts) not_found
  modify
      (λ d. record d { hosts = update (is_host name) (set_cordoned now cordoned reason) d.hosts })
  get_host name

-- COALESCE(a, b)
abbrev pub coalesce : Option String → Option String → Option String
coalesce none b = b
coalesce (some a) b = some a

abbrev pub set_draining : ℕ → String → HostRow → HostRow
set_draining now reason r = record r {
  cordoned_reason = coalesce (null_if_empty reason) r.cordoned_reason;
  cordoned_at = if r.cordoned then r.cordoned_at else some (unix_nano now);
  cordoned = true;
  draining_at = if r.draining then r.draining_at else some (unix_nano now);
  draining = true;
  updated_at = unix_nano now;
}

-- phase NOT IN (LEASED, PRE_LEASE_HOOK_RUNNING, DELETING)
abbrev pub is_unleased : VmRow → Bool
is_unleased v = not (is_held v || v.phase == deleting)

-- UPDATE ... RETURNING, sorted by uid.
unfoldable pub mark_unleased_vms_deleting : ℕ → (Db → VmRow → Bool) → Tx (List VmRecord)
mark_unleased_vms_deleting now where_ = do
  marked ← query (λ d. select (λ v. where_ d v && is_unleased v) d.vms)
  modify
      (λ d. record d { vms = update (λ v. where_ d v && is_unleased v) (mark_deleting now) d.vms })
  pure (map row_to_vm (sort_by uid_le (map (mark_deleting now) marked)))

unfoldable pub drain_host : ℕ → String → String → Tx (Host × List VmRecord)
unfolding mark_unleased_vms_deleting get_host null_if_empty
drain_host now name reason = do
  require (λ d. any (is_host name) d.hosts) not_found
  modify (λ d. record d { hosts = update (is_host name) (set_draining now reason) d.hosts })
  vms ← mark_unleased_vms_deleting now (λ d. on_host name)
  host ← get_host name
  pure (host, vms)

-- flintlock_host IN (SELECT name FROM hosts WHERE draining)
abbrev pub on_draining_host : Db → VmRow → Bool
on_draining_host d v = any (λ h. h.draining && h.name == v.flintlock_host) d.hosts

unfoldable pub mark_draining_hosts_vms_deleting : ℕ → Tx (List VmRecord)
unfolding mark_unleased_vms_deleting
mark_draining_hosts_vms_deleting now = mark_unleased_vms_deleting now on_draining_host

unfoldable pub insert_placement : Placement → Tx (Unit {0})
insert_placement row = do
  require (λ d. not (any (λ p. p.id == row.id) d.placements)) other
  modify (λ d. record d { placements = d.placements ++ row ∷ [] })

unfoldable pub reserve_placement : ℕ → String → String → String → String → Tx (Unit {0})
unfolding insert_placement
reserve_placement now id host name namespace = do
  found ← query (λ d. find (is_host host) d.hosts)
  row ← or_fail found host_not_registered
  require (λ _. not row.cordoned) host_cordoned
  insert_placement (record {
    id = id;
    host = host;
    pool_name = name;
    pool_namespace = namespace;
    created_at = unix_nano now;
  })

unfoldable pub release_placement : String → Tx (Unit {0})
release_placement id = modify (λ d. record d { placements = remove (λ p. p.id == id) d.placements })

unfoldable pub clear_placements : Tx (Unit {0})
clear_placements = modify (λ d. record d { placements = [] })
