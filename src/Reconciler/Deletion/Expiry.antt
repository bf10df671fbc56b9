-- ===== src/Reconciler/Deletion/Expiry.antt =====
-- beginExpiry of internal/reconciler/sweeper.go spares a lease that has been renewed.
use battery.Prelude.{unix_nano, ℕ, suc, ◌≡◌, ◌<◌, refl, Bool-cases, inl, inr, some, arith}
use battery.Types.{LeaseRecord}
use battery.Table.{find}
use battery.Store.Error.{ok}
use battery.Store.Rows.{LeaseRow}
use battery.Store.Leases.{has_lease_id}
use battery.Store.Expiry.{delete_lease_if_expired-branches}
use battery.World.{World, reached}
use battery.Reconciler.Deletion.{begin_expiry}

-- A lease that, when the sweeper reaches the store, has no row any more or runs beyond the sweep's
-- time (a heartbeat has renewed it since it was listed): the sweeper does nothing to it or its VM, and
-- the database is as the other goroutines have left it.
pub begin_expiry_spares :
    (l : LeaseRecord) (at : ℕ) (w : World)
    → ((row : LeaseRow)
        → find (has_lease_id l.lease_id) (reached w).leases ≡ some row
        → unix_nano at < row.expires_at)
    → begin_expiry l at w ≡ (ok tt, record w { db = reached w; time = suc w.time })
unfolding begin_expiry
begin_expiry_spares l at w later = elim (Bool-cases (w.env.fails w.time)) [
  | inl f ↦ rw f refl
  | inr f ↦ elim (delete_lease_if_expired-branches l.lease_id at (reached w)) [
    | inl (_, e) ↦ rw (f, e) refl
    | inr (row, there, inl (_, e)) ↦ rw (f, e) refl
    | inr (row, there, inr (over, _)) ↦ absurd (omega (arith, later row there, over))
  ]
]
