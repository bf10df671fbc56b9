-- ===== src/Store/Leases.antt =====
-- internal/store/sqlite.go: the calls on leases.
use battery.Prelude.{
  ℕ, String, Bool, true, false, ◌&&◌, not, Option, none, some, List, [], ◌∷◌, ◌++◌, map, ◌==◌,
  string_eq, leb, ltb, unix_nano,
}
use battery.Types.{VmRecord, LeaseRecord, PoolRef}
use battery.Table.{select, find, update, remove, any, sort_by}
use battery.Store.Error.{not_found, lease_not_expired, duplicate_request_id, other}
use battery.Store.Rows.{LeaseRow, lease_to_row, row_to_lease}
use battery.Store.Db.{Tx, ◌>>=◌, ◌>>◌, pure, lift, query, modify, require, or_fail, str_le}
use battery.Store.Pools.{lease_in_pool}
use battery.Store.Vms.{update_vm}

abbrev pub has_lease_id : String → LeaseRow → Bool
has_lease_id id l = l.lease_id == id

-- NULL equals nothing.
abbrev pub has_request_id : String → LeaseRow → Bool
has_request_id request l = elim l.request_id [ none ↦ false | some r ↦ r == request ]

-- `lease_id` is the primary key, and `request_id` is unique where it is not NULL.
abbrev pub same_lease : LeaseRow → LeaseRow → Bool
same_lease l m = l.lease_id == m.lease_id

abbrev pub same_request : LeaseRow → LeaseRow → Bool
same_request l m = elim m.request_id [ none ↦ false | some r ↦ has_request_id r l ]

unfoldable pub insert_lease_row : LeaseRow → Tx (Unit {0})
insert_lease_row row = do
  require (λ d. not (any (λ l. same_lease l row) d.leases)) other
  require (λ d. not (any (λ l. same_request l row) d.leases)) duplicate_request_id
  modify (λ d. record d { leases = d.leases ++ row ∷ [] })

unfoldable pub create_lease : LeaseRecord → Tx (Unit {0})
unfolding insert_lease_row
create_lease l = do row ← lift (lease_to_row l); insert_lease_row row

unfoldable pub lease_vm : VmRecord → LeaseRecord → Tx (Unit {0})
unfolding update_vm create_lease
lease_vm v l = do update_vm v; create_lease l

unfoldable pub get_lease : String → Tx LeaseRecord
get_lease id = do
  found ← query (λ d. find (has_lease_id id) d.leases)
  row ← or_fail found not_found
  pure (row_to_lease row)

unfoldable pub get_lease_by_request_id : String → Tx LeaseRecord
get_lease_by_request_id request = do
  found ← query (λ d. find (has_request_id request) d.leases)
  row ← or_fail found not_found
  pure (row_to_lease row)

abbrev pub renew_row : ℕ → ℕ → LeaseRow → LeaseRow
renew_row at expires l = record l { last_heartbeat_at = at; expires_at = expires }

unfoldable pub update_lease_heartbeat : String → ℕ → ℕ → Tx (Unit {0})
update_lease_heartbeat id at expires = do
  require (λ d. any (has_lease_id id) d.leases) not_found
  modify (λ d. record d {
    leases = update (has_lease_id id) (renew_row (unix_nano at) (unix_nano expires)) d.leases;
  })

unfoldable pub delete_lease : String → Tx (Unit {0})
delete_lease id = do
  require (λ d. any (has_lease_id id) d.leases) not_found
  modify (λ d. record d { leases = remove (has_lease_id id) d.leases })

unfoldable pub list_expired_leases : ℕ → Tx (List LeaseRecord)
list_expired_leases now = query (λ d. map row_to_lease (
    sort_by (λ l m. leb l.expires_at m.expires_at)
      (select (λ l. leb l.expires_at (unix_nano now)) d.leases)))

abbrev ref_matches : Option PoolRef → LeaseRow → Bool
ref_matches none l = true
ref_matches (some ref) l = lease_in_pool ref.name ref.namespace l

unfoldable pub list_leases : Option PoolRef → Tx (List LeaseRecord)
list_leases ref = query (λ d.
    map row_to_lease
      (sort_by (λ l m. str_le l.lease_id m.lease_id) (select (ref_matches ref) d.leases)))

-- WHERE lease_id = ? AND expires_at <= ?
abbrev pub is_expired : String → ℕ → LeaseRow → Bool
is_expired id now l = l.lease_id == id && leb l.expires_at now

unfoldable pub delete_lease_if_expired : String → ℕ → Tx LeaseRecord
delete_lease_if_expired id now = do
  found ← query (λ d. find (has_lease_id id) d.leases)
  row ← or_fail found not_found
  require (λ _. not (ltb (unix_nano now) row.expires_at)) lease_not_expired
  require (λ d. any (is_expired id (unix_nano now)) d.leases) lease_not_expired
  modify (λ d. record d { leases = remove (is_expired id (unix_nano now)) d.leases })
  pure (row_to_lease row)
