-- ===== src/Store/Expiry.antt =====
-- The end of a lease: DeleteLeaseIfExpired against UpdateLeaseHeartbeat, internal/store/sqlite.go.
use mathlib.Core.Path.{subst}
use battery.Prelude.{
  sym, leb, unix_nano, unix_nano-small, ◌^◌, false, beq→eq, str_beq_sym, ap, some-eq-some, ℕ, ◌≡◌,
  ◌<◌, ◌≤◌, refl, ◌∙◌, true, false, none, some, String, List, [], ◌∷◌, arith, ◌==◌, string_eq,
  Bool-cases, Option-cases, inl, inr, ◌⊎◌, ltb,
}
use battery.Table.{find, update, remove, any}
use battery.Table.Laws.{
  find-remove, find-none, any-remove, any-ext, find-update, find-matches, any_of_find-none,
}
use battery.Store.Error.{ok, err, lease_not_expired, not_found}
use battery.Store.Rows.{LeaseRow, row_to_lease}
use battery.Store.Db.{Db}
use battery.Table.Keys.{Unique}
use battery.Store.WellFormed.{WellFormed}
use battery.Store.Leases.{
  renew_row, same_lease, has_lease_id, is_expired, update_lease_heartbeat, delete_lease_if_expired,
}
use battery.Store.Outcomes.{Post-ok}
use battery.Store.Outcomes.Leases.{update_lease_heartbeat-Post}

any-expired :
    (id : String) (now : ℕ) (ls : List LeaseRow) (row : LeaseRow)
    → find (has_lease_id id) ls ≡ some row
    → ltb now row.expires_at ≡ false
    → any (is_expired id now) ls ≡ true
unfolding find any
any-expired id now [] row e f = cc
any-expired id now (l ∷ ls) row e f = elim (Bool-cases (l.lease_id == id)) [
  | inl t ↦
      let same : l ≡ row = some-eq-some (rw t at e) in
      rw t (ground (arith, ap (λ (x : LeaseRow). x.expires_at) same, f))
  | inr t ↦ rw t (any-expired id now ls row (rw t at e) f)
]

-- The branches of DeleteLeaseIfExpired.
pub delete_lease_if_expired-branches :
    (id : String) (now : ℕ) (d : Db)
    → ((find (has_lease_id id) d.leases ≡ none)
        × (delete_lease_if_expired id now d ≡ err not_found))
      ⊎ ((row : LeaseRow) × (find (has_lease_id id) d.leases ≡ some row)
          × (((unix_nano now < row.expires_at)
                × (delete_lease_if_expired id now d ≡ err lease_not_expired))
              ⊎ ((row.expires_at ≤ unix_nano now)
                  × (delete_lease_if_expired id now d
                      ≡ ok (
                        row_to_lease row,
                        record d { leases = remove (is_expired id (unix_nano now)) d.leases },
                      )))))
unfolding delete_lease_if_expired
delete_lease_if_expired-branches id now d = elim (Option-cases (find (has_lease_id id) d.leases)) [
  | inl e ↦ inl (e, rw e)
  | inr (row, e) ↦ inr (
    row,
    e,
    elim (Bool-cases (ltb (unix_nano now) row.expires_at)) [
      | inl t ↦ inl (ltb_true _ row.expires_at t, rw (e, t))
      | inr t ↦
          inr (
            ltb_false _ row.expires_at t,
            rw (e, t, any-expired id (unix_nano now) d.leases row e t),
          )
    ],
  )
]
  where
    ltb_true : (a b : ℕ) → ltb a b ≡ true → a < b
    ltb_true a b h = ground arith

    ltb_false : (a b : ℕ) → ltb a b ≡ false → b ≤ a
    ltb_false a b h = ground arith

-- A lookup of the lease, once it is removed as expired.
gone :
    (id : String) (now : ℕ) (ls : List LeaseRow) (row : LeaseRow)
    → Unique same_lease ls
    → find (has_lease_id id) ls ≡ some row
    → row.expires_at ≤ now
    → find (has_lease_id id) (remove (is_expired id now) ls) ≡ none
unfolding find remove any
gone id now [] row u e h = cc e
gone id now (l ∷ ls) row u e h = elim (Bool-cases (l.lease_id == id)) [
  | inl t ↦
      let same : l ≡ row = some-eq-some (rw t at e) in
      rw (t, leb_of l.expires_at now (subst (λ (x : LeaseRow). x.expires_at ≤ now) (sym same) h))
        (find-none (has_lease_id id) (remove (is_expired id now) ls)
          (any-remove (is_expired id now) (has_lease_id id) ls (apart t u.0)))
  | inr t ↦ rw (t, t) (gone id now ls row u.1 (rw t at e) h)
]
  where
    leb_of : (a b : ℕ) → a ≤ b → leb a b ≡ true
    leb_of a b h = ground arith

    apart :
        (l.lease_id == id) ≡ true → any (same_lease l) ls ≡ false → any (has_lease_id id) ls ≡ false
    apart t free =
        any-ext (has_lease_id id) (same_lease l) ls (λ m.
          str_beq_sym m.lease_id id ∙ ap (λ x. x == m.lease_id) (sym (beq→eq l.lease_id id t)))
        ∙ free

-- What remains of the leases when the one with this id is gone: no row with the id, and each row with
-- another id as it was.
abbrev pub Without : String → Db → List LeaseRow → Type 0
Without id d left =
    (find (has_lease_id id) left ≡ none)
    × ((other : String)
        → (other == id) ≡ false
        → find (has_lease_id other) left ≡ find (has_lease_id other) d.leases)

-- DeleteLeaseIfExpired against what a caller sees of the leases. It refuses a lease that is not
-- there, and one that runs beyond `now`; or it returns the lease, which is there and has run out,
-- and afterwards that lease is not there, each lease with another id is as it was, and so is
-- every other table.
pub delete_lease_if_expired_cases :
    (id : String) (now : ℕ) (d : Db)
    → WellFormed d
    → ((find (has_lease_id id) d.leases ≡ none)
        × (delete_lease_if_expired id now d ≡ err not_found))
      ⊎ ((row : LeaseRow) × (find (has_lease_id id) d.leases ≡ some row)
          × (((unix_nano now < row.expires_at)
                × (delete_lease_if_expired id now d ≡ err lease_not_expired))
              ⊎ ((row.expires_at ≤ unix_nano now)
                  × ((left : List LeaseRow) × (delete_lease_if_expired id now d
                        ≡ ok (row_to_lease row, record d { leases = left }))
                      × Without id d left))))
delete_lease_if_expired_cases id now d w = elim (delete_lease_if_expired-branches id now d) [
  | inl e ↦ inl e
  | inr (row, e, inl f) ↦ inr (row, e, inl f)
  | inr (row, e, inr (over, f)) ↦ inr (
    row,
    e,
    inr (
      over,
      (
        remove (is_expired id (unix_nano now)) d.leases,
        f,
        (
          gone id (unix_nano now) d.leases row w.lease_keys e over,
          λ other off.
              find-remove (is_expired id (unix_nano now)) (has_lease_id other) d.leases
                (λ l same. rw (beq→eq l.lease_id other same, off) refl),
        ),
      ),
    ),
  )
]

-- A heartbeat wins over an expiry: once a heartbeat has moved a lease's expiry to a time before the
-- year 2262 and beyond `now`, the call that follows does not delete the lease as expired at `now`.
pub heartbeat_outlives_expiry :
    (id : String) (at expires now : ℕ) (d d' : Db) (u : Unit {0})
    → update_lease_heartbeat id at expires d ≡ ok (u, d')
    → now < expires
    → expires < 2 ^ 64
    → delete_lease_if_expired id now d' ≡ err lease_not_expired
unfolding delete_lease_if_expired
heartbeat_outlives_expiry id at expires now d d' u e later storable =
    Post-ok (update_lease_heartbeat id at expires d)
      (λ _ x. delete_lease_if_expired id now x ≡ err lease_not_expired)
      (update_lease_heartbeat-Post d id at expires _ refused) e
  where
    renew : LeaseRow → LeaseRow
    renew = renew_row (unix_nano at) (unix_nano expires)

    runs_on : ltb (unix_nano now) (unix_nano expires) ≡ true
    runs_on =
        rw (unix_nano-small now (omega (arith, later, storable)), unix_nano-small expires storable)
          ltb_less
      where
        ltb_less : ltb now expires ≡ true
        ltb_less = ground arith

    renewed :
        (row : LeaseRow)
        → find (has_lease_id id) d.leases ≡ some row
        → find (has_lease_id id) (update (has_lease_id id) renew d.leases) ≡ some (renew row)
    renewed row f =
        find-update (has_lease_id id) (has_lease_id id) renew d.leases (λ x. refl)
        ∙ rw (f, find-matches (has_lease_id id) d.leases f)

    refused :
        any (has_lease_id id) d.leases ≡ true
        → delete_lease_if_expired id now
            (record d { leases = update (has_lease_id id) renew d.leases })
          ≡ err lease_not_expired
    refused there = elim (Option-cases (find (has_lease_id id) d.leases)) [
      | inl f ↦ cc (there, any_of_find-none (has_lease_id id) d.leases f)
      | inr (row, f) ↦ rw (renewed row f, runs_on) refl
    ]
