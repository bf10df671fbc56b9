-- ===== src/Store/Events.antt =====
-- internal/store/sqlite.go: the events outbox.
use battery.Prelude.{
  ℕ, suc, String, Bool, ◌&&◌, some, List, [], ◌∷◌, ◌++◌, ◌==◌, string_eq, leb, ltb, take, unix_nano,
}
use battery.Types.{Event}
use battery.Table.{select, sort_by}
use battery.Store.Rows.{require_timestamp}
use battery.Store.Db.{Tx, ◌>>=◌, ◌>>◌, pure, lift, query, modify}

-- The id that AUTOINCREMENT gives: above every id that was ever given.
unfoldable pub append_event : Event → Tx ℕ
unfolding require_timestamp
append_event e = do
  created ← lift (require_timestamp e.created_at)
  id ← query (λ d. suc d.last_event_id)
  modify (λ d. record d {
    events = d.events ++ record e { id = id; created_at = some (unix_nano created) } ∷ [];
    last_event_id = id;
  })
  pure id

abbrev pub id_le : Event → Event → Bool
id_le e f = leb e.id f.id

abbrev pub event_in_pool : String → String → Event → Bool
event_in_pool name namespace e = e.pool_name == name && e.pool_namespace == namespace

unfoldable pub list_events_since : String → String → ℕ → ℕ → Tx (List Event)
list_events_since name namespace since limit = query (λ d.
    take limit
      (sort_by id_le (select (λ e. event_in_pool name namespace e && ltb since e.id) d.events)))

unfoldable pub list_all_events_since : ℕ → ℕ → Tx (List Event)
list_all_events_since since limit =
    query (λ d. take limit (sort_by id_le (select (λ e. ltb since e.id) d.events)))
