-- ===== src/Store/Moves/Step.antt =====
-- Every writing call of internal/store/sqlite.go moves the tables as Store/Moves lists.
use battery.Prelude.{unix_nano, ℕ, refl, Bool, true, false, String, List, string_eq, inl, inr}
use battery.Types.{phase_eq}
use battery.Store.Error.{Result}
use battery.Store.Rows.{PoolRow, VmRow, LeaseRow, HostRow}
use battery.Store.Db.{Db, Placement, commit}
use battery.Store.Pools.{vm_in_pool, lease_in_pool}
use battery.Store.Leases.{has_lease_id, is_expired}
use battery.Store.Hosts.{
  is_host, same_host, set_address, set_cordoned, set_draining, is_empty, is_zero, pools_naming,
  vms_and_placements, on_draining_host, is_unleased,
}
use battery.Store.Outcomes.{Post, commit-Post}
use battery.Store.Outcomes.Pools.{
  create_pool-Post, update_pool-Post, delete_pool-Post, delete_pool_and_mark_vms-Post,
}
use battery.Store.Outcomes.Vms.{
  create_vm-Post, update_vm-Post, delete_vm-Post, delete_vm_checking_pool-Post,
  claim_available_vm-Post,
}
use battery.Store.Outcomes.Leases.{
  create_lease-Post, lease_vm-Post, update_lease_heartbeat-Post, delete_lease-Post,
  delete_lease_if_expired-Post, append_event-Post,
}
use battery.Store.Outcomes.Hosts.{
  create_host-Post, update_host-Post, delete_host-Post, set_host_cordoned-Post, drain_host-Post,
  reserve_placement-Post,
}
use battery.Store.Call.{
  Call, step, create_pool, update_pool, delete_pool, delete_pool_and_mark_vms, create_vm, update_vm,
  delete_vm, delete_vm_checking_pool, claim_available_vm, create_lease, lease_vm,
  update_lease_heartbeat, delete_lease, delete_lease_if_expired, append_event, create_host,
  update_host, delete_host, set_host_cordoned, drain_host, mark_draining_hosts_vms_deleting,
  reserve_placement, release_placement, clear_placements,
}
use battery.Store.Moves.{
  DrainsCordoned, KeepsCordon, PoolsMove, VmsMove, LeasesMove, EventsMove, HostsMove,
  PlacementsMove, Moves,
}

module _ (c : Call) (d : Db) where
  still : Moves c d d
  still = record {
    pools = PoolsMove.keep refl;
    vms = VmsMove.keep refl;
    leases = LeasesMove.keep refl;
    events = EventsMove.keep refl refl;
    hosts = HostsMove.keep refl;
    placements = PlacementsMove.keep refl;
    apart = inl refl;
  }

  pools_only : (ps : List PoolRow) → PoolsMove d ps → Moves c d (record d { pools = ps })
  pools_only ps m = record {
    pools = m;
    vms = VmsMove.keep refl;
    leases = LeasesMove.keep refl;
    events = EventsMove.keep refl refl;
    hosts = HostsMove.keep refl;
    placements = PlacementsMove.keep refl;
    apart = inl refl;
  }

  vms_only : (vs : List VmRow) → VmsMove d vs → Moves c d (record d { vms = vs })
  vms_only vs m = record {
    pools = PoolsMove.keep refl;
    vms = m;
    leases = LeasesMove.keep refl;
    events = EventsMove.keep refl refl;
    hosts = HostsMove.keep refl;
    placements = PlacementsMove.keep refl;
    apart = inl refl;
  }

  leases_only : (ls : List LeaseRow) → LeasesMove d ls → Moves c d (record d { leases = ls })
  leases_only ls m = record {
    pools = PoolsMove.keep refl;
    vms = VmsMove.keep refl;
    leases = m;
    events = EventsMove.keep refl refl;
    hosts = HostsMove.keep refl;
    placements = PlacementsMove.keep refl;
    apart = inl refl;
  }

  hosts_only : (hs : List HostRow) → HostsMove c d hs → Moves c d (record d { hosts = hs })
  hosts_only hs m = record {
    pools = PoolsMove.keep refl;
    vms = VmsMove.keep refl;
    leases = LeasesMove.keep refl;
    events = EventsMove.keep refl refl;
    hosts = m;
    placements = PlacementsMove.keep refl;
    apart = inr refl;
  }

  placements_only :
      (ps : List Placement) → PlacementsMove d ps → Moves c d (record d { placements = ps })
  placements_only ps m = record {
    pools = PoolsMove.keep refl;
    vms = VmsMove.keep refl;
    leases = LeasesMove.keep refl;
    events = EventsMove.keep refl refl;
    hosts = HostsMove.keep refl;
    placements = m;
    apart = inl refl;
  }

set_cordoned-DrainsCordoned :
    (now : ℕ) (b : Bool) (r : String) (h : HostRow)
    → DrainsCordoned h
    → DrainsCordoned (set_cordoned now b r h)
set_cordoned-DrainsCordoned now true r h k e = refl
set_cordoned-DrainsCordoned now false r h k e = e

set_cordoned-KeepsCordon :
    (now : ℕ) (name : String) (b : Bool) (r : String)
    → KeepsCordon (set_host_cordoned now name b r) name (set_cordoned now b r)
set_cordoned-KeepsCordon now name true r = inl λ h k. refl
set_cordoned-KeepsCordon now name false r = inr (now, r, refl)

-- A call moves the tables so, if it does whenever it commits.
moves :
    {A : Type 0} (d : Db) (c : Call) (r : Result (A × Db))
    → Post r (λ _. Moves c d)
    → Moves c d (commit d r)
moves d c r = commit-Post (Moves c d) d r (still c d)

-- Every call moves each table in one of these ways, or rolls back.
pub step-Moves : (d : Db) (c : Call) → Moves c d (step d c)
step-Moves d (create_pool p) =
    moves d _ _
      (create_pool-Post d p _ λ row _ free. pools_only _ d _ (PoolsMove.insert row free refl))
step-Moves d (update_pool p) =
    moves d _ _ (update_pool-Post d p _ λ row _ _. pools_only _ d _ (PoolsMove.rewrite row refl))
step-Moves d (delete_pool n s) =
    moves d _ _ (delete_pool-Post d n s _ λ _. pools_only _ d _ (PoolsMove.erase n s refl))
step-Moves d (delete_pool_and_mark_vms t n s f) = moves d _ _ (
    delete_pool_and_mark_vms-Post d t n s f _ λ _ _. record {
      pools = PoolsMove.erase n s refl;
      vms = VmsMove.mark t (vm_in_pool n s) refl;
      leases = LeasesMove.erase (lease_in_pool n s) refl;
      events = EventsMove.keep refl refl;
      hosts = HostsMove.keep refl;
      placements = PlacementsMove.keep refl;
      apart = inl refl;
    })
step-Moves d (create_vm v) =
    moves d _ _ (create_vm-Post d v _ λ row _ free. vms_only _ d _ (VmsMove.insert row free refl))
step-Moves d (update_vm v) =
    moves d _ _ (update_vm-Post d v _ λ row _ _. vms_only _ d _ (VmsMove.overwrite row refl))
step-Moves d (delete_vm u) =
    moves d _ _ (delete_vm-Post d u _ λ _. vms_only _ d _ (VmsMove.erase u refl))
step-Moves d (delete_vm_checking_pool u) =
    moves d _ _ (delete_vm_checking_pool-Post d u _ λ _ _. vms_only _ d _ (VmsMove.erase u refl))
step-Moves d (claim_available_vm t i n s) = moves d _ _ (
    claim_available_vm-Post d t i n s _
      λ chosen _ _ _ _. vms_only _ d _ (VmsMove.claim t chosen.uid refl))
step-Moves d (create_lease l) = moves d _ _ (
    create_lease-Post d l _
      λ row _ free unused. leases_only _ d _ (LeasesMove.insert row free unused refl))
step-Moves d (lease_vm v l) = moves d _ _ (
    lease_vm-Post d v l _ λ vm lease _ _ _ free unused. record {
      pools = PoolsMove.keep refl;
      vms = VmsMove.overwrite vm refl;
      leases = LeasesMove.insert lease free unused refl;
      events = EventsMove.keep refl refl;
      hosts = HostsMove.keep refl;
      placements = PlacementsMove.keep refl;
      apart = inl refl;
    })
step-Moves d (update_lease_heartbeat l a e) = moves d _ _ (
    update_lease_heartbeat-Post d l a e _
      λ _. leases_only _ d _ (LeasesMove.renew l (unix_nano a) (unix_nano e) refl))
step-Moves d (delete_lease l) =
    moves d _ _
      (delete_lease-Post d l _ λ _. leases_only _ d _ (LeasesMove.erase (has_lease_id l) refl))
step-Moves d (delete_lease_if_expired l t) = moves d _ _ (
    delete_lease_if_expired-Post d l t _
      λ _ _ _. leases_only _ d _ (LeasesMove.erase (is_expired l (unix_nano t)) refl))
step-Moves d (append_event e) = moves d _ _ (
    append_event-Post d e _ λ created _. record {
      pools = PoolsMove.keep refl;
      vms = VmsMove.keep refl;
      leases = LeasesMove.keep refl;
      events = EventsMove.append _ refl refl refl;
      hosts = HostsMove.keep refl;
      placements = PlacementsMove.keep refl;
      apart = inl refl;
    })
step-Moves d (create_host h) = moves d _ _ (
    create_host-Post d h _ λ row e free. hosts_only _ d _ (HostsMove.insert h row refl e free refl))
step-Moves d (update_host t h) = moves d _ _ (
    update_host-Post d t h _ λ _ _ _.
      hosts_only _ d _
        (HostsMove.alter h.name (set_address t h) (λ _. refl) (λ _ k. k) (inl λ _ k. k) refl))
step-Moves d (delete_host n) =
    moves d _ _
      (delete_host-Post d n _ λ _ free. hosts_only _ d _ (HostsMove.erase n refl free refl))
step-Moves d (set_host_cordoned t n b r) = moves d _ _ (
    set_host_cordoned-Post d t n b r _ λ _ _ _. hosts_only _ d _ (
      HostsMove.alter n (set_cordoned t b r) (λ _. refl) (set_cordoned-DrainsCordoned t b r)
        (set_cordoned-KeepsCordon t n b r) refl))
step-Moves d (drain_host t n r) = moves d _ _ (
    drain_host-Post d t n r _ λ _ _ _. record {
      pools = PoolsMove.keep refl;
      vms = VmsMove.mark t _ refl;
      leases = LeasesMove.keep refl;
      events = EventsMove.keep refl refl;
      hosts =
          HostsMove.alter n (set_draining t r) (λ _. refl) (λ _ _ _. refl) (inl λ _ _. refl) refl;
      placements = PlacementsMove.keep refl;
      apart = inr refl;
    })
step-Moves d (mark_draining_hosts_vms_deleting t) =
    unfold battery.Store.Hosts.mark_draining_hosts_vms_deleting in
    vms_only _ d _ (VmsMove.mark t _ refl)
step-Moves d (reserve_placement t i h n s) = moves d _ _ (
    reserve_placement-Post d t i h n s _ λ row found open_ free.
      placements_only _ d _ (PlacementsMove.insert _ row free found open_ refl))
step-Moves d (release_placement i) =
    unfold battery.Store.Hosts.release_placement in
    placements_only _ d _ (PlacementsMove.erase i refl)
step-Moves d clear_placements =
    unfold battery.Store.Hosts.clear_placements in placements_only _ d _ (PlacementsMove.clear refl)
