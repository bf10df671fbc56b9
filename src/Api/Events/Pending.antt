-- ===== src/Api/Events/Pending.antt =====
-- The events that a subscription of internal/api/events.go still has to send.
use battery.Prelude.{
  ℕ, zero, suc, ◌≤◌, ◌<◌, ◌≡◌, refl, ◌∙◌, Bool, true, ◌&&◌, Option, none, some, List, [], ◌∷◌, take,
  ltb, arith, Bool-cases, inl, inr, nat_eq,
}
use battery.Types.{Event, PoolRef}
use battery.Table.{select, sort_by, insert_by}
use battery.Store.Events.{event_in_pool, id_le}
use battery.Store.WellFormed.{Rising}
use battery.Api.Events.{last_id}

-- The events that a subscription asks for.
abbrev pub concerns : Option PoolRef → Event → Bool
concerns none e = true
concerns (some ref) e = event_in_pool ref.name ref.namespace e

-- Those of them with an id above `since`, in the order of the outbox.
unfoldable pub pending : Option PoolRef → ℕ → List Event → List Event
pending ref since es = select (λ e. concerns ref e && ltb since e.id) es

abbrev pub drop : ℕ → List Event → List Event
drop zero es = es
drop (suc n) [] = []
drop (suc n) (e ∷ es) = drop n es

module _ (last : ℕ) where
  Rising-mono : (a b : ℕ) (es : List Event) → a ≤ b → Rising b last es → Rising a last es
  Rising-mono a b [] h r = omega arith
  Rising-mono a b (e ∷ es) h r = (omega (arith, r.0), r.1)

  Rising-bound : (low : ℕ) (es : List Event) → Rising low last es → low ≤ last
  Rising-bound low [] r = r
  Rising-bound low (e ∷ es) r = omega (arith, r.0, Rising-bound e.id es r.1)

  select-keeps :
      (q : Event → Bool) (low : ℕ) (es : List Event)
      → Rising low last es
      → Rising low last (select q es)
  unfolding select
  select-keeps q low [] r = r
  select-keeps q low (e ∷ es) r = elim (Bool-cases (q e)) [
    | inl t ↦ rw t (r.0, select-keeps q e.id es r.1)
    | inr t ↦
        rw t (Rising-mono low e.id (select q es) (omega (arith, r.0)) (select-keeps q e.id es r.1))
  ]

  -- The events above `since` of a rising list rise from `since`.
  pub select-Rising :
      (p : Event → Bool) (since low : ℕ) (es : List Event)
      → since ≤ last
      → Rising low last es
      → Rising since last (select (λ e. p e && ltb since e.id) es)
  unfolding select
  select-Rising p since low [] h r = h
  select-Rising p since low (e ∷ es) h r = elim (Bool-cases (p e && ltb since e.id)) [
    | inr t ↦ rw t (select-Rising p since e.id es h r.1)
    | inl t ↦ rw t (above (p e) t, select-keeps _ e.id es r.1)
  ]
    where
      above : (a : Bool) → (a && ltb since e.id) ≡ true → since < e.id
      above a t = ground (arith, t)

  insert_by-Rising :
      (e : Event) (es : List Event) → Rising e.id last es → insert_by id_le e es ≡ e ∷ es
  unfolding insert_by
  insert_by-Rising e [] r = refl
  insert_by-Rising e (x ∷ xs) r = ground (arith, r.0)

  pub sort_by-Rising : (low : ℕ) (es : List Event) → Rising low last es → sort_by id_le es ≡ es
  unfolding sort_by
  sort_by-Rising low [] r = refl
  sort_by-Rising low (e ∷ es) r = rw (sort_by-Rising e.id es r.1) (insert_by-Rising e es r.1)

  last_id-take :
      (since n : ℕ) (es : List Event) → Rising since last es → since ≤ last_id since (take n es)
  unfolding last_id
  last_id-take since zero es r = omega arith
  last_id-take since (suc n) [] r = omega arith
  last_id-take since (suc n) (e ∷ es) r = omega (arith, r.0, last_id-take e.id n es r.1)

  pub last_id-bound :
      (since n : ℕ) (es : List Event)
      → since ≤ last
      → Rising since last es
      → last_id since (take n es) ≤ last
  unfolding last_id
  last_id-bound since zero es h r = h
  last_id-bound since (suc n) [] h r = h
  last_id-bound since (suc n) (e ∷ es) h r = last_id-bound e.id n es (Rising-bound e.id es r.1) r.1

  select-above :
      (since low : ℕ) (es : List Event)
      → since ≤ low
      → Rising low last es
      → select (λ e. ltb since e.id) es ≡ es
  unfolding select
  select-above since low [] h r = refl
  select-above since low (e ∷ es) h r =
      ground (arith, r.0, h, select-above since e.id es (omega (arith, r.0, h)) r.1)

  -- What is left of a rising list after its first `n` events.
  select-drop :
      (since n : ℕ) (es : List Event)
      → Rising since last es
      → select (λ e. ltb (last_id since (take n es)) e.id) es ≡ drop n es
  unfolding select last_id
  select-drop since zero es r = select-above since since es (omega arith) r
  select-drop since (suc n) [] r = refl
  select-drop since (suc n) (e ∷ es) r =
      ground (arith, last_id-take e.id n es r.1, select-drop e.id n es r.1)

  select-within :
      (p : Event → Bool) (since high : ℕ) (es : List Event)
      → since ≤ high
      → select (λ e. p e && ltb high e.id) es
        ≡ select (λ e. ltb high e.id) (select (λ e. p e && ltb since e.id) es)
  unfolding select
  select-within p since high [] h = refl
  select-within p since high (e ∷ es) h = ground (arith, h, select-within p since high es h)

  -- After the first `n` pending events are sent, the others are pending.
  pub pending-drop :
      (ref : Option PoolRef) (since n low : ℕ) (es : List Event)
      → since ≤ last
      → Rising low last es
      → pending ref (last_id since (take n (pending ref since es))) es
        ≡ drop n (pending ref since es)
  unfolding pending
  pending-drop ref since n low es h r =
      let ms = select-Rising (concerns ref) since low es h r in
      select-within (concerns ref) since _ es (last_id-take since n (pending ref since es) ms)
      ∙ select-drop since n (pending ref since es) ms
