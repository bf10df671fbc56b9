-- ===== src/Api/Events.antt =====
-- internal/api/events.go: the batches of Subscribe, from its start, or a tick of its poll, to the next wait.
-- What is sent is a list.
pub mod Pending
pub mod Replayed
use battery.Prelude.{
  ℕ, zero, suc, Bool, Option, none, some, List, [], ◌∷◌, ◌++◌, length, nat_eq, ◌==◌, if◌then◌else◌,
}
use battery.Types.{Event, PoolRef}
use battery.Store.Error.{Result, ok, err}
use battery.Store.Db.{Db, Tx}
use battery.Store.Events.{list_events_since, list_all_events_since}

-- listEventsSince
abbrev pub list_since : Option PoolRef → ℕ → ℕ → Tx (List Event)
list_since none since limit = list_all_events_since since limit
list_since (some ref) since limit = list_events_since ref.name ref.namespace since limit

-- sinceID after the events of a batch have been sent.
unfoldable pub last_id : ℕ → List Event → ℕ
last_id since [] = since
last_id since (e ∷ es) = last_id e.id es

abbrev pub with_sent : List Event → Result (List Event × ℕ) → Result (List Event × ℕ)
with_sent sent (ok (more, since)) = ok (sent ++ more, since)
with_sent sent (err e) = err e

-- One round of the loop. A full batch is followed by another fetch at once.
abbrev pub next_batch :
    ℕ → ℕ → Result (List Event × Db) → (ℕ → Result (List Event × ℕ)) → Result (List Event × ℕ)
next_batch size since (err e) rest = err e
next_batch size since (ok (events, _)) rest =
    if length events == size
    then with_sent events (rest (last_id since events))
    else ok (events, last_id since events)

-- The rounds up to the first wait on the ticker: what they have sent, and sinceID. `rounds` bounds them.
unfoldable pub drain_batches : ℕ → Db → Option PoolRef → ℕ → ℕ → Result (List Event × ℕ)
unfolding last_id
drain_batches zero d ref since size = ok ([], since)
drain_batches (suc rounds) d ref since size =
    next_batch size since (list_since ref since size d)
      (λ from. drain_batches rounds d ref from size)
