-- ===== src/Api/Events/Replayed.antt =====
-- The batches of Subscribe in internal/api/events.go.
use battery.Prelude.{
  ℕ, zero, suc, ◌+◌, ◌≤◌, ◌<◌, ◌≡◌, refl, sym, ap, ◌∙◌, false, Option, none, some, List, [], ◌∷◌,
  ◌++◌, length, take, length-take, arith, Bool-cases, inl, inr, ◌==◌, nat_eq, beq→eq,
}
use battery.Types.{Event, PoolRef}
use battery.Store.Error.{ok}
use battery.Store.Db.{Db}
use battery.Store.Events.{list_events_since, list_all_events_since}
use battery.Store.WellFormed.{WellFormed, Rising}
use battery.Api.Events.{list_since, last_id, drain_batches}
use battery.Api.Events.Pending.{
  concerns, pending, drop, select-Rising, sort_by-Rising, last_id-bound, pending-drop,
}

take-all : (n : ℕ) (es : List Event) → length es ≤ n → take n es ≡ es
take-all zero [] h = refl
take-all zero (e ∷ es) h = absurd (omega (arith, h))
take-all (suc n) [] h = refl
take-all (suc n) (e ∷ es) h = ap (λ l. e ∷ l) (take-all n es (omega (arith, h)))

drop-all : (n : ℕ) (es : List Event) → length es ≤ n → drop n es ≡ []
drop-all zero [] h = refl
drop-all zero (e ∷ es) h = absurd (omega (arith, h))
drop-all (suc n) [] h = refl
drop-all (suc n) (e ∷ es) h = drop-all n es (omega (arith, h))

take-drop : (n : ℕ) (es : List Event) → take n es ++ drop n es ≡ es
take-drop zero es = refl
take-drop (suc n) [] = refl
take-drop (suc n) (e ∷ es) = ap (λ l. e ∷ l) (take-drop n es)

last_id-take-drop :
    (since n : ℕ) (es : List Event)
    → last_id (last_id since (take n es)) (drop n es) ≡ last_id since es
unfolding last_id
last_id-take-drop since zero es = refl
last_id-take-drop since (suc n) [] = refl
last_id-take-drop since (suc n) (e ∷ es) = last_id-take-drop e.id n es

length-take-drop : (n : ℕ) (es : List Event) → length (take n es) + length (drop n es) ≡ length es
length-take-drop zero es = omega arith
length-take-drop (suc n) [] = omega arith
length-take-drop (suc n) (e ∷ es) = omega (arith, length-take-drop n es)

short-take : (n : ℕ) (es : List Event) → (length (take n es) == n) ≡ false → length es ≤ n
short-take n es t = ground (arith, t, length-take n es)

module _ (d : Db) (w : WellFormed d) where
  list_since-pending :
      (ref : Option PoolRef) (since size : ℕ)
      → since ≤ d.last_event_id
      → list_since ref since size d ≡ ok (take size (pending ref since d.events), d)
  unfolding pending list_events_since list_all_events_since
  list_since-pending none since size h =
      rw
        (sort_by-Rising d.last_event_id since _
          (select-Rising d.last_event_id (concerns none) since 0 d.events h w.event_ids))
        refl
  list_since-pending (some ref) since size h =
      rw
        (sort_by-Rising d.last_event_id since _
          (select-Rising d.last_event_id (concerns (some ref)) since 0 d.events h w.event_ids))
        refl

  pending-Rising :
      (ref : Option PoolRef) (since : ℕ)
      → since ≤ d.last_event_id
      → Rising since d.last_event_id (pending ref since d.events)
  unfolding pending
  pending-Rising ref since h =
      select-Rising d.last_event_id (concerns ref) since 0 d.events h w.event_ids

  drain_batches-pending :
      (ref : Option PoolRef) (size rounds since : ℕ)
      → since ≤ d.last_event_id
      → length (pending ref since d.events) < rounds
      → drain_batches rounds d ref since (suc size)
        ≡ ok (pending ref since d.events, last_id since (pending ref since d.events))
  unfolding drain_batches
  drain_batches-pending ref size zero since h enough = absurd (omega (arith, enough))
  drain_batches-pending ref size (suc rounds) since h enough =
      rw (list_since-pending ref since (suc size) h)
        (elim (Bool-cases (length (take (suc size) ms) == suc size)) [
          | inr t ↦ rw (t, take-all (suc size) ms (short-take (suc size) ms t)) refl
          | inl t ↦
              let full : length (take (suc size) ms) ≡ suc size = beq→eq _ (suc size) t in
              rw
                (
                  t,
                  drain_batches-pending ref size rounds next bound
                      (rw remain (omega (arith, length-take-drop (suc size) ms, full, enough))),
                  remain,
                  take-drop (suc size) ms,
                  last_id-take-drop since (suc size) ms,
                )
                refl
        ])
    where
      ms : List Event
      ms = pending ref since d.events

      next : ℕ
      next = last_id since (take (suc size) ms)

      bound : next ≤ d.last_event_id
      bound = last_id-bound d.last_event_id since (suc size) ms h (pending-Rising ref since h)

      remain : pending ref next d.events ≡ drop (suc size) ms
      remain = pending-drop d.last_event_id ref since (suc size) 0 d.events h w.event_ids

-- Subscribe on a well-formed database, with any batch size of at least 1 and more rounds than there are
-- events to send: it comes to its wait, and until then it has sent exactly the events after `since`
-- that it was asked for, each once and in the order of their ids, and `sinceID` is then such
-- that none is left.
pub drain_batches_complete :
    (d : Db) (ref : Option PoolRef) (size rounds since : ℕ)
    → WellFormed d
    → since ≤ d.last_event_id
    → length (pending ref since d.events) < rounds
    → (next : ℕ) × (drain_batches rounds d ref since (suc size)
        ≡ ok (pending ref since d.events, next))
      × (pending ref next d.events ≡ [])
drain_batches_complete d ref size rounds since w h enough = (
  last_id since ms,
  drain_batches-pending d w ref size rounds since h enough,
  rw (ap (λ l. last_id since l) (sym (take-all (length ms) ms (omega arith)))) (
      pending-drop d.last_event_id ref since (length ms) 0 d.events h w.event_ids
      ∙ drop-all (length ms) ms (omega arith)),
)
  where
    ms : List Event
    ms = pending ref since d.events
