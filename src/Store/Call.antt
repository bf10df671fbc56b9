-- ===== src/Store/Call.antt =====
-- The calls of the Store interface that write, and what each does to the database. Calls come from
-- many goroutines; the store's single connection puts them in one order, so a history of the
-- database is a list of calls.
use battery.Prelude.{ℕ, String, Bool, List, [], ◌∷◌}
use battery.Types.{PoolSpec, VmRecord, LeaseRecord, Event, Host}
use battery.Store.Db.{Db, commit}
use battery.Store.Pools
use battery.Store.Vms
use battery.Store.Leases
use battery.Store.Events
use battery.Store.Hosts

-- `now` and the choice of a row are the environment's.
pub data Call : Type 0 where
  create_pool update_pool : PoolSpec → Call
  delete_pool : String → String → Call
  delete_pool_and_mark_vms : ℕ → String → String → Bool → Call
  create_vm update_vm : VmRecord → Call
  delete_vm delete_vm_checking_pool : String → Call
  claim_available_vm : ℕ → ℕ → String → String → Call
  create_lease : LeaseRecord → Call
  lease_vm : VmRecord → LeaseRecord → Call
  update_lease_heartbeat : String → ℕ → ℕ → Call
  delete_lease : String → Call
  delete_lease_if_expired : String → ℕ → Call
  append_event : Event → Call
  create_host : Host → Call
  update_host : ℕ → Host → Call
  delete_host : String → Call
  set_host_cordoned : ℕ → String → Bool → String → Call
  drain_host : ℕ → String → String → Call
  mark_draining_hosts_vms_deleting : ℕ → Call
  reserve_placement : ℕ → String → String → String → String → Call
  release_placement : String → Call
  clear_placements : Call

abbrev pub step : Db → Call → Db
step d (create_pool p) = commit d (Pools.create_pool p d)
step d (update_pool p) = commit d (Pools.update_pool p d)
step d (delete_pool n s) = commit d (Pools.delete_pool n s d)
step d (delete_pool_and_mark_vms t n s f) = commit d (Pools.delete_pool_and_mark_vms t n s f d)
step d (create_vm v) = commit d (Vms.create_vm v d)
step d (update_vm v) = commit d (Vms.update_vm v d)
step d (delete_vm u) = commit d (Vms.delete_vm u d)
step d (delete_vm_checking_pool u) = commit d (Vms.delete_vm_checking_pool u d)
step d (claim_available_vm t i n s) = commit d (Vms.claim_available_vm t i n s d)
step d (create_lease l) = commit d (Leases.create_lease l d)
step d (lease_vm v l) = commit d (Leases.lease_vm v l d)
step d (update_lease_heartbeat l a e) = commit d (Leases.update_lease_heartbeat l a e d)
step d (delete_lease l) = commit d (Leases.delete_lease l d)
step d (delete_lease_if_expired l t) = commit d (Leases.delete_lease_if_expired l t d)
step d (append_event e) = commit d (Events.append_event e d)
step d (create_host h) = commit d (Hosts.create_host h d)
step d (update_host t h) = commit d (Hosts.update_host t h d)
step d (delete_host h) = commit d (Hosts.delete_host h d)
step d (set_host_cordoned t h c r) = commit d (Hosts.set_host_cordoned t h c r d)
step d (drain_host t h r) = commit d (Hosts.drain_host t h r d)
step d (mark_draining_hosts_vms_deleting t) = commit d (Hosts.mark_draining_hosts_vms_deleting t d)
step d (reserve_placement t i h n s) = commit d (Hosts.reserve_placement t i h n s d)
step d (release_placement i) = commit d (Hosts.release_placement i d)
step d clear_placements = commit d (Hosts.clear_placements d)

unfoldable pub run : Db → List Call → Db
run d [] = d
run d (c ∷ cs) = run (step d c) cs
