-- ===== src/Reconciler/Provision/Refused.antt =====
-- Provision of internal/reconciler/provision.go on a host that is cordoned or removed after it was picked.
use battery.Prelude.{◌≡◌, refl, suc, String, true, some, Option-cases, Bool-cases, inl, inr}
use battery.Types.{PoolSpec}
use battery.Table.{find}
use battery.Store.Error.{other}
use battery.Store.Rows.{HostRow}
use battery.Store.Hosts.{is_host, reserve_placement}
use battery.World.{World, reached}
use battery.Store.Error.{ok}
use battery.Reconciler.Provision.{Failure, stopped, nowhere, store_failed, reserve_and_fill}

-- Provision on a host that, when the reservation reaches the store, is cordoned or not registered (an
-- operator has cordoned or removed it since it was picked), whatever other goroutines do: it
-- asks flintlock for nothing, leaves the database as the others have left it, and returns an error.
pub reserve_and_fill_refuses :
    (p : PoolSpec) (host id : String) (w : World)
    → ((row : HostRow) → find (is_host host) (reached w).hosts ≡ some row → row.cordoned ≡ true)
    → (f : Failure) × (reserve_and_fill p host id w
        ≡ (ok (stopped f), record w { db = reached w; time = suc w.time }))
unfolding reserve_and_fill reserve_placement
reserve_and_fill_refuses p host id w closed = elim (Bool-cases (w.env.fails w.time)) [
  | inl t ↦ (store_failed other, rw t refl)
  | inr t ↦ elim (Option-cases (find (is_host host) (reached w).hosts)) [
    | inl g ↦ (nowhere, rw (t, g) refl)
    | inr (row, g) ↦ (nowhere, rw (t, g, closed row g) refl)
  ]
]
