-- ===== src/Api/Lease/Renewal.antt =====
-- Heartbeat of internal/api/lease.go against the sweeper.
use mathlib.Core.Option
use battery.Prelude.{
  unix_nano, unix_nano-small, add_duration, as_duration, ℤ, ◌^◌, arith, List, if◌then◌else◌, ℕ, suc,
  ◌≡◌, ◌<◌, refl, sym, ap, ◌∙◌, String, inl, inr, some, some-eq-some, Option-cases,
}
use battery.Types.{LeaseRecord}
use battery.Table.{find, update}
use battery.Table.Laws.{find-update, find-matches}
use battery.Store.Error.{ok}
use battery.Store.Rows.{LeaseRow}
use battery.Store.Db.{Db}
use battery.Store.Pools.{get_pool}
use battery.Store.Leases.{has_lease_id, get_lease, update_lease_heartbeat}
use battery.Store.Outcomes.{Post-ok}
use battery.Store.Outcomes.Leases.{update_lease_heartbeat-Post}
use battery.World.{World, store, reached, attempt, ◌>>=◌}
use battery.World.Rules.{Then, attempt_cases, Then-ok}
use battery.Reconciler.Deletion.{begin_expiry}
use battery.Reconciler.Deletion.Expiry.{begin_expiry_spares}
use battery.Api.Status.{when_ok, Reply, reply}
use battery.Api.Lease.{heartbeat, renew, renewed}

reply-eq-reply : {A : Type 0} {a b : A} → reply a ≡ reply b → a ≡ b
reply-eq-reply e = cc

-- The row of lease `id`, if there is one, has the expiry that the reply tells.
abbrev Told : String → Reply ℕ → World → Type 0
Told id r x =
    (expires : ℕ)
    → r ≡ reply expires
    → (row : LeaseRow) → find (has_lease_id id) x.db.leases ≡ some row
    → row.expires_at ≡ unix_nano expires

find-renewed :
    (id : String) (at expires : ℕ) (ls : List LeaseRow) (row : LeaseRow)
    → find (has_lease_id id) (
        update
          (has_lease_id id)
          (λ l. record l { last_heartbeat_at = at; expires_at = expires })
          ls)
      ≡ some row
    → row.expires_at ≡ expires
find-renewed id at expires ls row e = elim (Option-cases (find (has_lease_id id) ls)) [
  | inl f ↦ cc (e, (rw f at moved))
  | inr (old, f) ↦
      ap (λ (l : LeaseRow). l.expires_at)
        (some-eq-some (sym e ∙ (rw (f, find-matches (has_lease_id id) ls f) at moved)))
]
  where
    moved :
        find (has_lease_id id) (
          update
            (has_lease_id id)
            (λ l. record l { last_heartbeat_at = at; expires_at = expires })
            ls)
        ≡ Option.map
            (λ l.
              if has_lease_id id l
              then record l { last_heartbeat_at = at; expires_at = expires }
              else l)
            (find (has_lease_id id) ls)
    moved = find-update (has_lease_id id) (has_lease_id id) _ ls (λ _. refl)

heartbeat-renewed :
    (id : String) (at expires : ℕ) (d d' : Db) (u : Unit {0})
    → update_lease_heartbeat id at expires d ≡ ok (u, d')
    → (row : LeaseRow) → find (has_lease_id id) d'.leases ≡ some row
    → row.expires_at ≡ unix_nano expires
heartbeat-renewed id at expires d d' u e =
    Post-ok (update_lease_heartbeat id at expires d)
      (λ _ x.
        (row : LeaseRow)
        → find (has_lease_id id) x.leases ≡ some row
        → row.expires_at ≡ unix_nano expires)
      (update_lease_heartbeat-Post d id at expires _
        (λ _ row f. find-renewed id (unix_nano at) (unix_nano expires) d.leases row f))
      e

renew-Told :
    (id : String) (threshold : ℤ) (w : World)
    → Then (renew id threshold w) (Told id) (λ _. Unit {0})
renew-Told id threshold w =
    let at = w.env.clock w.time in
    attempt_cases (update_lease_heartbeat id at (add_duration at threshold)) w
      (λ o x. Told id (renewed (add_duration at threshold) o) x)
      (λ u d e expires r row f.
        heartbeat-renewed id at (add_duration at threshold) (reached w) d u e row f
        ∙ ap unix_nano (reply-eq-reply r))
      (λ e expires r. cc r)

pool-Told :
    (id : String) (lease : LeaseRecord) (w : World)
    → Then
        ((do
          pool ← attempt (store (get_pool lease.pool_name lease.pool_namespace))
          when_ok pool λ p. renew id (as_duration p.heartbeat_expiry_threshold))
          w)
        (Told id)
        (λ _. Unit {0})
pool-Told id lease w =
    attempt_cases (get_pool lease.pool_name lease.pool_namespace) w
      (λ o x.
        Then (when_ok o (λ p. renew id (as_duration p.heartbeat_expiry_threshold)) x) (Told id)
          (λ _. Unit {0}))
      (λ p d e.
        renew-Told id (as_duration p.heartbeat_expiry_threshold)
          (record w { db = d; time = suc w.time }))
      (λ e expires r. cc r)

heartbeat-Told : (id : String) (w : World) → Then (heartbeat id w) (Told id) (λ _. Unit {0})
unfolding heartbeat
heartbeat-Told id w =
    attempt_cases (get_lease id) w
      (λ o x.
        Then
          (when_ok o
            (λ lease. do
              pool ← attempt (store (get_pool lease.pool_name lease.pool_namespace))
              when_ok pool λ p. renew id (as_duration p.heartbeat_expiry_threshold))
            x)
          (Told id) (λ _. Unit {0}))
      (λ lease d e. pool-Told id lease (record w { db = d; time = suc w.time }))
      (λ e expires r. cc r)

-- A heartbeat that was answered with an expiry before the year 2262 is kept to: the sweeper that finds
-- the lease in its list of expired ones, and reaches the database as the heartbeat left it, does
-- nothing at any time before that expiry.
pub heartbeat_spares :
    (id : String) (w x v : World) (expires at : ℕ) (l : LeaseRecord)
    → heartbeat id w ≡ (ok (reply expires), x)
    → reached v ≡ x.db
    → l.lease_id ≡ id
    → at < expires
    → expires < 2 ^ 64
    → begin_expiry l at v ≡ (ok tt, record v { db = x.db; time = suc v.time })
heartbeat_spares id w x v expires at l e same named before storable =
    begin_expiry_spares l at v (λ row f. kept row (told row (rw (same, named) at f))) ∙ rw same refl
  where
    told :
        (row : LeaseRow)
        → find (has_lease_id id) x.db.leases ≡ some row
        → row.expires_at ≡ unix_nano expires
    told = Then-ok (heartbeat id w) (Told id) (λ _. Unit {0}) (heartbeat-Told id w) e expires refl

    kept : (row : LeaseRow) → row.expires_at ≡ unix_nano expires → unix_nano at < row.expires_at
    kept row stored =
        rw
          (
            stored,
            unix_nano-small expires storable,
            unix_nano-small at (omega (arith, before, storable)),
          )
          before
