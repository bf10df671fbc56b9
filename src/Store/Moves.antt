-- ===== src/Store/Moves.antt =====
-- What the calls of internal/store/sqlite.go may do to each table. A property of one table under
-- every call needs a case for each move of that table only.
pub mod Step
use battery.Prelude.{
  ℕ, suc, ◌≡◌, refl, Bool, true, false, ◌&&◌, not, some, String, List, [], ◌∷◌, ◌++◌, arith, ◌==◌,
  string_eq, ◌⊎◌, inl, inr,
}
use battery.Types.{Event, Host, deleting, available, phase_eq}
use battery.Table.{find, update, remove, any}
use battery.Store.Error.{Result, ok}
use battery.Store.Rows.{PoolRow, VmRow, LeaseRow, HostRow, host_to_row}
use battery.Store.Db.{Db, Placement, commit}
use battery.Store.Pools.{is_pool, same_pool, vm_in_pool, lease_in_pool, mark_deleting}
use battery.Store.Vms.{has_uid, same_vm, may_update, overwrite_vm, mark_leased}
use battery.Store.Leases.{has_lease_id, same_lease, same_request, is_expired}
use battery.Store.Hosts.{
  is_host, same_host, set_address, set_cordoned, set_draining, is_empty, is_zero, pools_naming,
  vms_and_placements, on_draining_host, is_unleased,
}
use battery.Store.Outcomes.{Post, commit-Post}
use battery.Store.Outcomes.Pools.{
  create_pool-Post, update_pool-Post, delete_pool-Post, delete_pool_and_mark_vms-Post,
}
use battery.Store.Outcomes.Vms.{
  create_vm-Post, update_vm-Post, delete_vm-Post, delete_vm_checking_pool-Post,
  claim_available_vm-Post,
}
use battery.Store.Outcomes.Leases.{
  create_lease-Post, lease_vm-Post, update_lease_heartbeat-Post, delete_lease-Post,
  delete_lease_if_expired-Post, append_event-Post,
}
use battery.Store.Outcomes.Hosts.{
  create_host-Post, update_host-Post, delete_host-Post, set_host_cordoned-Post, drain_host-Post,
  reserve_placement-Post,
}
use battery.Store.Call.{
  Call, step, create_pool, update_pool, delete_pool, delete_pool_and_mark_vms, create_vm, update_vm,
  delete_vm, delete_vm_checking_pool, claim_available_vm, create_lease, lease_vm,
  update_lease_heartbeat, delete_lease, delete_lease_if_expired, append_event, create_host,
  update_host, delete_host, set_host_cordoned, drain_host, mark_draining_hosts_vms_deleting,
  reserve_placement, release_placement, clear_placements,
}

abbrev pub DrainsCordoned : HostRow → Type 0
DrainsCordoned h = h.draining ≡ true → h.cordoned ≡ true

pub data PoolsMove (d : Db) (pools : List PoolRow) : Type 0 where
  keep : pools ≡ d.pools → PoolsMove d pools
  insert :
      (row : PoolRow)
      → any (λ r. same_pool r row) d.pools ≡ false
      → pools ≡ d.pools ++ row ∷ []
      → PoolsMove d pools
  rewrite :
      (row : PoolRow)
      → pools
        ≡ update
            (is_pool row.name row.namespace)
            (λ r. record row { name = r.name; namespace = r.namespace })
            d.pools
      → PoolsMove d pools
  erase : (n s : String) → pools ≡ remove (is_pool n s) d.pools → PoolsMove d pools

pub data VmsMove (d : Db) (vms : List VmRow) : Type 0 where
  keep : vms ≡ d.vms → VmsMove d vms
  insert :
      (row : VmRow)
      → any (λ v. same_vm v row) d.vms ≡ false
      → vms ≡ d.vms ++ row ∷ []
      → VmsMove d vms
  overwrite : (row : VmRow) → vms ≡ update (may_update row) (overwrite_vm row) d.vms → VmsMove d vms
  claim :
      (now : ℕ) (uid : String)
      → vms ≡ update (λ v. v.uid == uid && v.phase == available) (mark_leased now) d.vms
      → VmsMove d vms
  mark : (now : ℕ) (p : VmRow → Bool) → vms ≡ update p (mark_deleting now) d.vms → VmsMove d vms
  erase : (uid : String) → vms ≡ remove (has_uid uid) d.vms → VmsMove d vms

pub data LeasesMove (d : Db) (leases : List LeaseRow) : Type 0 where
  keep : leases ≡ d.leases → LeasesMove d leases
  insert :
      (row : LeaseRow)
      → any (λ l. same_lease l row) d.leases ≡ false
      → any (λ l. same_request l row) d.leases ≡ false
      → leases ≡ d.leases ++ row ∷ []
      → LeasesMove d leases
  renew :
      (id : String) (at expires : ℕ)
      → leases
        ≡ update
            (has_lease_id id)
            (λ l. record l { last_heartbeat_at = at; expires_at = expires })
            d.leases
      → LeasesMove d leases
  erase : (p : LeaseRow → Bool) → leases ≡ remove p d.leases → LeasesMove d leases

pub data EventsMove (d d' : Db) : Type 0 where
  keep : d'.events ≡ d.events → d'.last_event_id ≡ d.last_event_id → EventsMove d d'
  append :
      (e : Event)
      → e.id ≡ suc d.last_event_id
      → d'.events ≡ d.events ++ e ∷ []
      → d'.last_event_id ≡ suc d.last_event_id
      → EventsMove d d'

-- `f` never uncordons, unless the call is UncordonHost's for host `name`.
abbrev pub KeepsCordon : Call → String → (HostRow → HostRow) → Type 0
KeepsCordon c name f =
    ((h : HostRow) → h.cordoned ≡ true → (f h).cordoned ≡ true)
    ⊎ ((t : ℕ) × (r : String) × (c ≡ set_host_cordoned t name false r))

pub data HostsMove (c : Call) (d : Db) (hosts : List HostRow) : Type 0 where
  keep : hosts ≡ d.hosts → HostsMove c d hosts
  insert :
      (h : Host) (row : HostRow)
      → c ≡ create_host h
      → host_to_row h ≡ ok row
      → any (λ k. same_host k row) d.hosts ≡ false
      → hosts ≡ d.hosts ++ row ∷ []
      → HostsMove c d hosts
  alter :
      (name : String) (f : HostRow → HostRow)
      → ((h : HostRow) → (f h).name ≡ h.name)
      → ((h : HostRow) → DrainsCordoned h → DrainsCordoned (f h))
      → KeepsCordon c name f
      → hosts ≡ update (is_host name) f d.hosts
      → HostsMove c d hosts
  erase :
      (name : String)
      → c ≡ delete_host name
      → (is_empty (pools_naming name d) && is_zero (vms_and_placements name d)) ≡ true
      → hosts ≡ remove (is_host name) d.hosts
      → HostsMove c d hosts

pub data PlacementsMove (d : Db) (placements : List Placement) : Type 0 where
  keep : placements ≡ d.placements → PlacementsMove d placements
  insert :
      (row : Placement) (host : HostRow)
      → any (λ p. p.id == row.id) d.placements ≡ false
      → find (is_host row.host) d.hosts ≡ some host
      → host.cordoned ≡ false
      → placements ≡ d.placements ++ row ∷ []
      → PlacementsMove d placements
  erase :
      (id : String)
      → placements ≡ remove (λ p. p.id == id) d.placements
      → PlacementsMove d placements
  clear : placements ≡ [] → PlacementsMove d placements

-- The moves of all tables from `d` to `d'` under the call `c`. At most one of `hosts` and
-- `placements` moves.
pub record Moves (c : Call) (d d' : Db) : Type 0 where
  pub pools : PoolsMove d d'.pools
  pub vms : VmsMove d d'.vms
  pub leases : LeasesMove d d'.leases
  pub events : EventsMove d d'
  pub hosts : HostsMove c d d'.hosts
  pub placements : PlacementsMove d d'.placements
  pub apart : (d'.hosts ≡ d.hosts) ⊎ (d'.placements ≡ d.placements)
