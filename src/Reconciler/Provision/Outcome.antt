-- ===== src/Reconciler/Provision/Outcome.antt =====
-- Provision of internal/reconciler/provision.go, from the choice of a host on.
use battery.Prelude.{
  ℕ, suc, ◌≡◌, refl, sym, ap, ◌∙◌, Bool, true, false, not, String, List, none, some, Bool-cases,
  inl, inr, ◌⊎◌, string_eq,
}
use battery.Types.{VmRecord, PoolSpec, phase_eq}
use battery.Table.{any}
use battery.Store.Error.{Result, ok, err}
use battery.Store.Rows.{HostRow}
use battery.Store.Db.{Db}
use battery.Store.Outcomes.{Post-ok}
use battery.World.{World, store, handle, pure}
use battery.Store.Error.{ok-eq-ok}
use battery.World.Quiet.{Quiet, Ends, Ends-store}
use battery.World.Steady.{Keeps, Holds, Holds-store, Ends-try}
use battery.Reconciler.Provision.{Provisioned, provisioned, stopped, Failure, fill_place}
use battery.Reconciler.Provision.Added.{NoneAdded}
use battery.Reconciler.Provision.Hooks.{Outcome, serves}
use battery.Reconciler.Provision.Making.{fill_place-Outcome}
use battery.Types.{Host}
use battery.Table.{find}
use battery.Store.Hosts.{list_hosts, reserve_placement, is_host}
use battery.Store.Vms.{list_vms_by_pool}
use battery.Store.Outcomes.Hosts.{reserve_placement-Post}
use battery.World.{lifted}
use battery.Reconciler.HostPick.{
  Picked, picked, no_eligible_host, unlisted, pick_host, ineligible_hosts,
}
use battery.Reconciler.Provision.{
  unplaced, placement_id, reserve_and_fill, place, list_if_needed, provision,
}

-- A host that is registered and not cordoned.
abbrev pub IsOpen : Db → String → Type 0
IsOpen d host = (row : HostRow) × (find (is_host host) d.hosts ≡ some row) × (row.cordoned ≡ false)

abbrev pub Supplied : PoolSpec → Db → String → Db → Type 0
Supplied p d uid d' = (host : String) × IsOpen d host × (any (serves p host uid) d'.vms ≡ true)

module _ (p : PoolSpec) (d : Db) where
  abbrev Ended : Result Provisioned → World → Type 0
  Ended (ok (provisioned uid)) x = Supplied p d uid x.db
  Ended (ok (stopped f)) x = NoneAdded d.vms x.db
  Ended (err e) x = true ≡ false

  abbrev Same : Db → Type 0
  Same y = y ≡ d

  Ended-from :
      (host : String)
      → IsOpen d host
      → (r : Result Provisioned) (x : World) → Outcome d.vms p host r x
      → Ended r x
  Ended-from host opened (ok (provisioned uid)) x h = (host, opened, h)
  Ended-from host opened (ok (stopped f)) x h = h
  Ended-from host opened (err e) x h = h

  none_added : (x : World) → x.db ≡ d → NoneAdded d.vms x.db
  none_added x e uid h = rw e at h

  reserve_and_fill-Ended :
      (host id : String) (w : World)
      → Quiet w
      → w.db ≡ d
      → Ends (reserve_and_fill p host id w) Ended
  unfolding reserve_and_fill
  reserve_and_fill-Ended host id w q same =
      let at = w.env.clock w.time in
      Ends-store (reserve_placement at id host p.name p.namespace) w
        (λ o x.
          Ends (handle (o, x) (λ e. pure (stopped (unplaced e))) (λ _. fill_place p host id)) Ended)
        q
        (λ u y e.
          let x = record w { db = y; time = suc w.time } in
          let granted = reserved host id at y u (rw same at e) in
          let o = fill_place p host id x in
          Ended-from host granted.0 o.0 o.1
            (fill_place-Outcome d.vms p host id x (q, λ uid h. rw granted.1 at h)))
        (λ e _. none_added (record w { time = suc w.time }) same)
    where
      reserved :
          (host id : String) (at : ℕ) (y : Db) (u : Unit {0})
          → reserve_placement at id host p.name p.namespace d ≡ ok (u, y)
          → IsOpen d host × (y.vms ≡ d.vms)
      reserved host id at y u e =
          Post-ok (reserve_placement at id host p.name p.namespace d)
            (λ _ z. IsOpen d host × (z.vms ≡ d.vms))
            (reserve_placement-Post d at id host p.name p.namespace _
              λ row found free _. ((row, found, free), refl))
            e

  place-Ended : (o : Picked) (w : World) → Quiet w → w.db ≡ d → Ends (place p o w) Ended
  place-Ended no_eligible_host w q same = none_added w same
  place-Ended (unlisted e) w q same = none_added w same
  place-Ended (picked host) w q same =
      reserve_and_fill-Ended host (placement_id p.name (w.env.ids w.time))
        (record w { time = suc w.time }) q same

  -- The reads before the choice.
  list_hosts-Keeps : Keeps Same list_hosts
  unfolding list_hosts
  list_hosts-Keeps y z hosts e k = sym (ap (λ (r : List Host × Db). r.1) (ok-eq-ok e)) ∙ k

  list_vms-Keeps : Keeps Same (list_vms_by_pool p.name p.namespace none)
  unfolding list_vms_by_pool
  list_vms-Keeps y z vms e k = sym (ap (λ (r : List VmRecord × Db). r.1) (ok-eq-ok e)) ∙ k

  list_if_needed-Holds : (skipped : String → Bool) → Holds Same (list_if_needed p skipped)
  list_if_needed-Holds skipped w s =
      elim (Bool-cases (any (λ h. not (skipped h)) p.flintlock_hosts)) [
        | inl t ↦
            rw t (Holds-store Same (list_vms_by_pool p.name p.namespace none) list_vms-Keeps w s)
        | inr t ↦ rw t s
      ]

  provision-Ended : (w : World) → Quiet w → w.db ≡ d → Ends (provision p w) Ended
  unfolding provision
  provision-Ended w q same =
      let hosts = store list_hosts w in
      Ends-try Same (lifted (ineligible_hosts p hosts.0)) _ _ Ended hosts.1 (λ x s. s)
        (Holds-store Same list_hosts list_hosts-Keeps w (q, same)) (λ e x s. none_added x s.1)
        (λ skipped x s.
          let listed = list_if_needed p skipped x in
          let t = list_if_needed-Holds skipped x s in
          place-Ended (pick_host p skipped listed.0) listed.1 t.0 t.1)

-- Provision for pool `p`, while no other goroutine calls the store but store calls may fail, flintlock may
-- not answer, the microVM may not boot and hooks may fail. It returns either the uid of a VM that is
-- AVAILABLE in the pool, on a host that was registered and not cordoned; or an error, and
-- then no VM is AVAILABLE that was not before.
pub provision_outcomes :
    (p : PoolSpec) (w : World)
    → Quiet w
    → ((uid : String) × (x : World) × (provision p w ≡ (ok (provisioned uid), x))
        × Supplied p w.db uid x.db)
      ⊎ ((f : Failure) × (x : World) × (provision p w ≡ (ok (stopped f), x))
          × NoneAdded w.db.vms x.db)
provision_outcomes p w q = outcomes (provision p w) (provision-Ended p w.db w q refl)
  where
    outcomes :
        (r : Result Provisioned × World)
        → Ends r (Ended p w.db)
        → ((uid : String) × (x : World) × (r ≡ (ok (provisioned uid), x))
            × Supplied p w.db uid x.db)
          ⊎ ((f : Failure) × (x : World) × (r ≡ (ok (stopped f), x)) × NoneAdded w.db.vms x.db)
    outcomes (ok (provisioned uid), x) h = inl (uid, x, refl, h)
    outcomes (ok (stopped f), x) h = inr (f, x, refl, h)
    outcomes (err e, x) h = cc h
