-- ===== src/Store/WellFormed.antt =====
-- The invariant of the database: unique keys, rising event ids, and no reservation on a host that
-- the registry does not have.
use battery.Prelude.{
  ℕ, suc, ◌≡◌, refl, ◌≤◌, ◌<◌, Bool, true, false, ◌&&◌, String, List, [], ◌∷◌, ◌++◌, All, arith,
  ◌==◌, string_eq, inl, inr, All-mono, All-append, All-zip, ◌∙◌, beq→eq,
}
use battery.Types.{Event}
use battery.Table.{remove, any, count}
use battery.Table.Laws.{
  any-update, any-append, All-remove, any_of_find, count-zero_iff, All_of_any, any-remove_apart,
}
use battery.Table.Keys.{Unique, Unique-update, Unique-remove, Unique-append}
use battery.Store.Rows.{PoolRow, VmRow, LeaseRow, HostRow}
use battery.Store.Db.{Db, Placement, empty}
use battery.Store.Pools.{same_pool}
use battery.Store.Vms.{same_vm}
use battery.Store.Leases.{same_lease, same_request}
use battery.Store.Hosts.{
  same_host, is_host, vms_and_placements, pools_naming, placed_on, is_empty, is_zero,
}
use battery.Store.Call.{Call, step, run}
use battery.Store.Moves.{
  Moves, PoolsMove, VmsMove, LeasesMove, EventsMove, HostsMove, PlacementsMove, keep, insert,
  overwrite, claim, mark, erase, rewrite, renew, append, alter, clear,
}
use battery.Store.Moves.Step.{step-Moves}

abbrev pub same_placement : Placement → Placement → Bool
same_placement p q = p.id == q.id

-- Ids rise along the outbox, from above `low` and up to `last`.
abbrev pub Rising : ℕ → ℕ → List Event → Type 0
Rising low last [] = low ≤ last
Rising low last (e ∷ es) = (low < e.id) × Rising e.id last es

-- The host of every reservation is registered.
abbrev pub Placed : List HostRow → List Placement → Type 0
Placed hosts = All (λ p. any (is_host p.host) hosts ≡ true)

pub record WellFormed (d : Db) : Type 0 where
  pub pool_keys : Unique same_pool d.pools
  pub vm_keys : Unique same_vm d.vms
  pub lease_keys : Unique same_lease d.leases
  pub request_keys : Unique same_request d.leases
  pub event_ids : Rising 0 d.last_event_id d.events
  pub host_keys : Unique same_host d.hosts
  pub placement_keys : Unique same_placement d.placements
  pub placed : Placed d.hosts d.placements

module _ (d : Db) (w : WellFormed d) where
  pool_keys-move : (ps : List PoolRow) → PoolsMove d ps → Unique same_pool ps
  pool_keys-move ps (keep e) = rw e w.pool_keys
  pool_keys-move ps (insert row free e) =
      rw e (Unique-append same_pool row d.pools free w.pool_keys)
  pool_keys-move ps (rewrite row e) =
      rw e (Unique-update same_pool _ _ d.pools (λ x y. refl) (λ x y. refl) w.pool_keys)
  pool_keys-move ps (erase n s e) = rw e (Unique-remove same_pool _ d.pools w.pool_keys)

  vm_keys-move : (vs : List VmRow) → VmsMove d vs → Unique same_vm vs
  vm_keys-move vs (keep e) = rw e w.vm_keys
  vm_keys-move vs (insert row free e) = rw e (Unique-append same_vm row d.vms free w.vm_keys)
  vm_keys-move vs (overwrite row e) =
      rw e (Unique-update same_vm _ _ d.vms (λ x y. refl) (λ x y. refl) w.vm_keys)
  vm_keys-move vs (claim t u e) =
      rw e (Unique-update same_vm _ _ d.vms (λ x y. refl) (λ x y. refl) w.vm_keys)
  vm_keys-move vs (mark t p e) =
      rw e (Unique-update same_vm p _ d.vms (λ x y. refl) (λ x y. refl) w.vm_keys)
  vm_keys-move vs (erase u e) = rw e (Unique-remove same_vm _ d.vms w.vm_keys)

  lease_keys-move :
      (ls : List LeaseRow) → LeasesMove d ls → Unique same_lease ls × Unique same_request ls
  lease_keys-move ls (keep e) = rw e (w.lease_keys, w.request_keys)
  lease_keys-move ls (insert row free unused e) = rw e (
    Unique-append same_lease row d.leases free w.lease_keys,
    Unique-append same_request row d.leases unused w.request_keys,
  )
  lease_keys-move ls (renew id at expires e) = rw e (
    Unique-update same_lease _ _ d.leases (λ x y. refl) (λ x y. refl) w.lease_keys,
    Unique-update same_request _ _ d.leases (λ x y. refl) (λ x y. refl) w.request_keys,
  )
  lease_keys-move ls (erase p e) = rw e (
    Unique-remove same_lease p d.leases w.lease_keys,
    Unique-remove same_request p d.leases w.request_keys,
  )

  host_keys-move : (c : Call) (hs : List HostRow) → HostsMove c d hs → Unique same_host hs
  host_keys-move c hs (keep e) = rw e w.host_keys
  host_keys-move c hs (insert h row _ _ free e) =
      rw e (Unique-append same_host row d.hosts free w.host_keys)
  host_keys-move c hs (alter name f named _ _ e) =
      rw e (
        Unique-update same_host _ f d.hosts (λ x y. rw (named x)) (λ x y. rw (named y)) w.host_keys)
  host_keys-move c hs (erase name _ _ e) = rw e (Unique-remove same_host _ d.hosts w.host_keys)

  placement_keys-move : (ps : List Placement) → PlacementsMove d ps → Unique same_placement ps
  placement_keys-move ps (keep e) = rw e w.placement_keys
  placement_keys-move ps (insert row h free _ _ e) =
      rw e (Unique-append same_placement row d.placements free w.placement_keys)
  placement_keys-move ps (erase id e) =
      rw e (Unique-remove same_placement _ d.placements w.placement_keys)
  placement_keys-move ps (clear e) = rw e tt

Rising-append :
    (low last : ℕ) (es : List Event) (e : Event)
    → e.id ≡ suc last
    → Rising low last es
    → Rising low (suc last) (es ++ e ∷ [])
Rising-append low last [] e h r = omega arith
Rising-append low last (x ∷ es) e h r = (r.0, Rising-append x.id last es e h r.1)

event_ids-move :
    (d d' : Db)
    → EventsMove d d'
    → Rising 0 d.last_event_id d.events
    → Rising 0 d'.last_event_id d'.events
event_ids-move d d' (keep e l) r = rw (e, l) r
event_ids-move d d' (append x h e l) r = rw (e, l) (Rising-append 0 d.last_event_id d.events x h r)

-- A host that nothing is placed on is the host of no reservation.
erase-Placed :
    (d : Db) (name : String)
    → (is_empty (pools_naming name d) && is_zero (vms_and_placements name d)) ≡ true
    → Placed d.hosts d.placements
    → Placed (remove (is_host name) d.hosts) d.placements
unfolding vms_and_placements
erase-Placed d name free w =
    All-zip (λ p. any (is_host p.host) d.hosts ≡ true) (λ p. placed_on name p ≡ false) _
      d.placements
      (λ p there off.
        any-remove_apart (is_host name) (is_host p.host) d.hosts
          (λ h e. other h.name p.host name e off)
        ∙ there)
      w unplaced
  where
    other :
        (h host gone : String) → (h == host) ≡ true → (host == gone) ≡ false → (h == gone) ≡ false
    other h host gone e f = rw (beq→eq h host e) f

    none_placed : count (placed_on name) d.placements ≡ 0
    none_placed = ground arith

    unplaced : All (λ p. placed_on name p ≡ false) d.placements
    unplaced =
        All_of_any (placed_on name) d.placements ((count-zero_iff _ d.placements).0 none_placed)

module _ (c : Call) (d : Db) (placed : Placed d.hosts d.placements) where
  Placed-hosts : (hs : List HostRow) → HostsMove c d hs → Placed hs d.placements
  Placed-hosts hs (keep e) = rw e placed
  Placed-hosts hs (insert h row _ _ _ e) = rw e (
      All-mono _ _ d.placements
        (λ p there. any-append (is_host p.host) d.hosts (row ∷ []) ∙ rw there) placed)
  Placed-hosts hs (alter name f named _ _ e) = rw e (
      All-mono _ _ d.placements
        (λ p there.
          any-update (is_host name) (is_host p.host) f d.hosts (λ h. rw (named h)) ∙ there)
        placed)
  Placed-hosts hs (erase name _ free e) = rw e (erase-Placed d name free placed)

  Placed-placements : (ps : List Placement) → PlacementsMove d ps → Placed d.hosts ps
  Placed-placements ps (keep e) = rw e placed
  Placed-placements ps (insert row h _ found _ e) = rw e (
      All-append _ d.placements (row ∷ []) placed
        (any_of_find (is_host row.host) d.hosts found, tt))
  Placed-placements ps (erase id e) = rw e (All-remove _ _ d.placements placed)
  Placed-placements ps (clear e) = rw e tt

  Placed-move : (d' : Db) → Moves c d d' → Placed d'.hosts d'.placements
  Placed-move d' m = elim m.apart [
    | inl e ↦ rw e (Placed-placements d'.placements m.placements)
    | inr e ↦ rw e (Placed-hosts d'.hosts m.hosts)
  ]

-- Every call keeps a well-formed database well-formed: keys stay unique (the non-NULL request ids
-- of leases among them), event ids rise, and every placement reservation is on a registered host.
pub step-WellFormed : (d : Db) (c : Call) → WellFormed d → WellFormed (step d c)
step-WellFormed d c w =
    let d' = step d c in
    let m = step-Moves d c in
    record {
      pool_keys = pool_keys-move d w d'.pools m.pools;
      vm_keys = vm_keys-move d w d'.vms m.vms;
      lease_keys = (lease_keys-move d w d'.leases m.leases).0;
      request_keys = (lease_keys-move d w d'.leases m.leases).1;
      event_ids = event_ids-move d d' m.events w.event_ids;
      host_keys = host_keys-move d w c d'.hosts m.hosts;
      placement_keys = placement_keys-move d w d'.placements m.placements;
      placed = Placed-move c d w.placed d' m;
    }

empty-WellFormed : WellFormed empty
empty-WellFormed = record {
  pool_keys = tt;
  vm_keys = tt;
  lease_keys = tt;
  request_keys = tt;
  event_ids = omega arith;
  host_keys = tt;
  placement_keys = tt;
  placed = tt;
}

run-WellFormed : (d : Db) (cs : List Call) → WellFormed d → WellFormed (run d cs)
unfolding run
run-WellFormed d [] w = w
run-WellFormed d (c ∷ cs) w = run-WellFormed (step d c) cs (step-WellFormed d c w)

-- A database that starts empty is well-formed after any sequence of calls.
pub run-empty-WellFormed : (cs : List Call) → WellFormed (run empty cs)
run-empty-WellFormed cs = run-WellFormed empty cs empty-WellFormed
