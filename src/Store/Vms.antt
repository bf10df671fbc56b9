-- ===== src/Store/Vms.antt =====
-- internal/store/sqlite.go: the calls on VMs. `now` is time.Now() in the call; `i` is SQLite's choice
-- among the rows of a query with LIMIT 1 (see Store/Db).
use battery.Prelude.{
  unix_nano, ℕ, String, Bool, true, ◌&&◌, ◌||◌, not, Option, none, some, List, [], ◌∷◌, ◌++◌, map,
  ◌==◌, string_eq,
}
use battery.Types.{VmRecord, VmPhase, available, leased, deleting, phase_eq}
use battery.Table.{select, find, update, remove, any, sort_by}
use battery.Store.Error.{not_found, no_available_vm, vm_deleting, other}
use battery.Store.Rows.{VmRow, vm_to_row, row_to_vm}
use battery.Store.Db.{Tx, ◌>>=◌, ◌>>◌, pure, lift, query, modify, require, or_fail, choose}
use battery.Store.Pools.{is_pool, vm_in_pool, uid_le}

abbrev pub has_uid : String → VmRow → Bool
has_uid uid v = v.uid == uid

-- `uid` is the primary key.
abbrev pub same_vm : VmRow → VmRow → Bool
same_vm v w = v.uid == w.uid

unfoldable pub insert_vm : VmRow → Tx (Unit {0})
insert_vm row = do
  require (λ d. not (any (λ v. same_vm v row) d.vms)) other
  modify (λ d. record d { vms = d.vms ++ row ∷ [] })

unfoldable pub create_vm : VmRecord → Tx (Unit {0})
unfolding insert_vm
create_vm v = do row ← lift (vm_to_row v); insert_vm row

unfoldable pub get_vm : String → Tx VmRecord
get_vm uid = do
  found ← query (λ d. find (has_uid uid) d.vms)
  row ← or_fail found not_found
  pure (row_to_vm row)

abbrev phase_matches : Option VmPhase → VmRow → Bool
phase_matches none v = true
phase_matches (some p) v = v.phase == p

unfoldable pub list_vms_by_pool : String → String → Option VmPhase → Tx (List VmRecord)
list_vms_by_pool name namespace phase = query (λ d.
    map row_to_vm
      (sort_by uid_le (select (λ v. vm_in_pool name namespace v && phase_matches phase v) d.vms)))

unfoldable pub list_vms_by_phase : VmPhase → Tx (List VmRecord)
list_vms_by_phase phase =
    query (λ d. map row_to_vm (sort_by uid_le (select (λ v. v.phase == phase) d.vms)))

-- WHERE uid = ? AND (phase != DELETING OR ? = DELETING)
abbrev pub may_update : VmRow → VmRow → Bool
may_update row v = v.uid == row.uid && (not (v.phase == deleting) || row.phase == deleting)

-- Every column but `uid` and `created_at` is set.
abbrev pub overwrite_vm : VmRow → VmRow → VmRow
overwrite_vm row v = record row { uid = v.uid; created_at = v.created_at }

unfoldable pub update_vm_row : VmRow → Tx (Unit {0})
update_vm_row row = do
  affected ← query (λ d. any (may_update row) d.vms)
  exists ← query (λ d. any (has_uid row.uid) d.vms)
  require (λ _. affected || exists) not_found
  require (λ _. affected) vm_deleting
  modify (λ d. record d { vms = update (may_update row) (overwrite_vm row) d.vms })

unfoldable pub update_vm : VmRecord → Tx (Unit {0})
unfolding update_vm_row
update_vm v = do row ← lift (vm_to_row v); update_vm_row row

unfoldable pub delete_vm : String → Tx (Unit {0})
delete_vm uid = do
  require (λ d. any (has_uid uid) d.vms) not_found
  modify (λ d. record d { vms = remove (has_uid uid) d.vms })

-- Whether the pool of the removed VM still exists.
unfoldable pub delete_vm_checking_pool : String → Tx Bool
delete_vm_checking_pool uid = do
  found ← query (λ d. find (has_uid uid) d.vms)
  row ← or_fail found not_found
  modify (λ d. record d { vms = remove (has_uid uid) d.vms })
  query (λ d. any (is_pool row.pool_name row.pool_namespace) d.pools)

abbrev pub is_claimable : String → String → VmRow → Bool
is_claimable name namespace v = vm_in_pool name namespace v && v.phase == available

abbrev pub mark_leased : ℕ → VmRow → VmRow
mark_leased now v = record v { phase = leased; updated_at = unix_nano now }

unfoldable pub claim_available_vm : ℕ → ℕ → String → String → Tx VmRecord
claim_available_vm now i name namespace = do
  found ← query (λ d. choose i (select (is_claimable name namespace) d.vms))
  chosen ← or_fail found no_available_vm
  require (λ d. any (λ v. v.uid == chosen.uid && v.phase == available) d.vms) no_available_vm
  modify (λ d. record d {
    vms = update (λ v. v.uid == chosen.uid && v.phase == available) (mark_leased now) d.vms;
  })
  reloaded ← query (λ d. find (has_uid chosen.uid) d.vms)
  row ← or_fail reloaded other
  pure (row_to_vm row)
