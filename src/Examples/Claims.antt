-- ===== src/Examples/Claims.antt =====
-- The theorems on claims, provisioning and subscriptions, at the database of Examples/Data.
use battery.Prelude.{
  ℕ, zero, suc, ◌≡◌, refl, true, String, [], ◌∷◌, Option, some, ◌⊎◌, arith, string_eq,
}
use battery.Types.{Event, EventType, PoolRef, vm_available, vm_claimed, vm_provisioned}
use battery.Table.{find, select}
use battery.Store.Error.{ok}
use battery.Store.Rows.{HostRow}
use battery.Store.Db.{Db}
use battery.Store.Hosts.{is_host}
use battery.Store.WellFormed.{WellFormed}
use battery.World.{World, reached}
use battery.World.Quiet.{Quiet}
use battery.Store.Call.{run}
use battery.Api.Status.{Code, reply, status}
use battery.Api.Claim.{ClaimResponse, claim_vm}
use battery.Api.Claim.Replayed.{IsBacked}
use battery.Api.Claim.Outcome.{claim_vm_outcomes}
use battery.Api.Claim.Replay.{claim_vm_replays}
use battery.Api.Events.{drain_batches}
use battery.Api.Events.Pending.{pending}
use battery.Api.Events.Replayed.{drain_batches_complete}
use battery.Reconciler.Provision.{Failure, provisioned, stopped, provision, reserve_and_fill}
use battery.Reconciler.Provision.Added.{NoneAdded}
use battery.Reconciler.Provision.Outcome.{Supplied, provision_outcomes}
use battery.Reconciler.Provision.Refused.{reserve_and_fill_refuses}
use battery.Examples.Data.{base, base-WellFormed, lease_row, pool, host_row}
use battery.Examples.Leases.{start}

base-Quiet : Quiet (start base [] 7)
base-Quiet zero = refl
base-Quiet (suc t) = refl

claim_vm_outcomes_example :
    ((r : ClaimResponse) × (x : World) × (claim_vm "web" "prod" "r9" (start base [] 7)
        ≡ (ok (reply r), x))
      × IsBacked r "web" "prod" x.db)
    ⊎ ((c : Code) × (x : World) × (claim_vm "web" "prod" "r9" (start base [] 7)
          ≡ (ok (status c), x))
        × (x.db.leases ≡ base.leases))
claim_vm_outcomes_example = claim_vm_outcomes "web" "prod" "r9" (start base [] 7) base-Quiet

claim_vm_replays_example :
    ((r : ClaimResponse) × (x : World) × (claim_vm "web" "prod" "r1" (start base [] 7)
        ≡ (ok (reply r), x))
      × ((x.db ≡ base) × ((r.lease_id ≡ "l1") × (r.vm_uid ≡ "v2"))))
    ⊎ ((c : Code) × (x : World) × (claim_vm "web" "prod" "r1" (start base [] 7)
          ≡ (ok (status c), x))
        × (x.db ≡ base))
unfolding find
claim_vm_replays_example =
    claim_vm_replays lease_row "web" "prod" "r1" (start base [] 7) base-Quiet refl refl

provision_outcomes_example :
    ((uid : String) × (x : World) × (provision pool (start base [] 7) ≡ (ok (provisioned uid), x))
      × Supplied pool base uid x.db)
    ⊎ ((f : Failure) × (x : World) × (provision pool (start base [] 7) ≡ (ok (stopped f), x))
        × NoneAdded base.vms x.db)
provision_outcomes_example = provision_outcomes pool (start base [] 7) base-Quiet

-- `h1` has been cordoned.
abbrev cordoned : Db
cordoned = record base { hosts = record (host_row "h1") { cordoned = true } ∷ host_row "h2" ∷ [] }

cordoned-h1 :
    (row : HostRow)
    → find (is_host "h1") (reached (start cordoned [] 7)).hosts ≡ some row
    → row.cordoned ≡ true
unfolding find run
cordoned-h1 row e = cc e

reserve_and_fill_refuses_example :
    (f : Failure) × (reserve_and_fill pool "h1" "web-1" (start cordoned [] 7)
      ≡ (ok (stopped f), record (start cordoned [] 7) { db = cordoned; time = 1 }))
unfolding run
reserve_and_fill_refuses_example =
    reserve_and_fill_refuses pool "h1" "web-1" (start cordoned [] 7) cordoned-h1

abbrev event : ℕ → String → EventType → Event
event id name type = record {
  id = id;
  pool_name = name;
  pool_namespace = "prod";
  vm_uid = "v1";
  type = type;
  created_at = some 1;
  payload_json = "";
}

abbrev with_events : Db
with_events = record base {
  events =
      event 1 "web" vm_provisioned
      ∷ event 2 "db" vm_available
      ∷ event 3 "web" vm_available
      ∷ event 5 "web" vm_claimed
      ∷ [];
  last_event_id = 6;
}

with_events-WellFormed : WellFormed with_events
with_events-WellFormed = record {
  pool_keys = base-WellFormed.pool_keys;
  vm_keys = base-WellFormed.vm_keys;
  lease_keys = base-WellFormed.lease_keys;
  request_keys = base-WellFormed.request_keys;
  event_ids = (omega arith, (omega arith, (omega arith, (omega arith, omega arith))));
  host_keys = base-WellFormed.host_keys;
  placement_keys = base-WellFormed.placement_keys;
  placed = base-WellFormed.placed;
}

abbrev web : Option PoolRef
web = some (record { name = "web"; namespace = "prod" })

drain_batches_complete_example :
    (next : ℕ) × (drain_batches 4 with_events web 0 2 ≡ ok (pending web 0 with_events.events, next))
    × (pending web next with_events.events ≡ [])
unfolding pending select
drain_batches_complete_example =
    drain_batches_complete with_events web 1 4 0 with_events-WellFormed (omega arith) (omega arith)
