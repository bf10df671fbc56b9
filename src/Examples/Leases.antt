-- ===== src/Examples/Leases.antt =====
-- The theorems on the programs that end and renew leases, at the database of Examples/Data.
use battery.Prelude.{
  pos, some, none, zero, some-eq-some, ℕ, suc, ◌≡◌, refl, Bool, true, false, List, [], ◌∷◌, none,
  ◌⊎◌, arith, ap, string_eq,
}
use battery.Types.{available, phase_eq}
use battery.Table.{find, any, update}
use battery.Store.Error.{Error, ok, err}
use battery.Store.Rows.{row_to_lease, LeaseRow, row_to_pool}
use battery.Store.Db.{Db}
use battery.Store.Pools.{get_pool}
use battery.Store.Vms.{has_uid}
use battery.Store.Leases.{get_lease, update_lease_heartbeat}
use battery.Store.Call.{Call, run}
use battery.World.{World, Environment, deleted, dialled, swapped, exited, in_state_created, reached}
use battery.Reconciler.Deletion.{begin_expiry, ensure_vm_deleted_checking_pool}
use battery.Reconciler.Deletion.Confirmed.{Confirmed, Standing, ensure_vm_deleted_cases}
use battery.Reconciler.Deletion.Expiry.{begin_expiry_spares}
use battery.Api.Lease.{heartbeat}
use battery.Api.Lease.Renewal.{heartbeat_spares}
use battery.Table.{remove}
use battery.Store.Rows.{row_to_vm, vm_to_row, require_timestamp}
use battery.Store.Vms.{get_vm, update_vm, update_vm_row, delete_vm_checking_pool}
use battery.Store.Leases.{delete_lease}
use battery.Store.Events.{append_event}
use battery.World.Quiet.{Quiet}
use battery.Reconciler.Deletion.{finish_vm_release, emit_event}
use battery.Api.Status.{Code, status, reply}
use battery.Api.Lease.{release_vm}
use battery.Api.Lease.Release.{release_vm_outcomes}
use battery.Prelude.{◌||◌, ◌==◌}
use battery.Types.{leased, phase_eq, provisioning, create_hook_running, deleting}
use battery.Table.{select, sort_by, insert_by}
use battery.Store.Vms.{list_vms_by_phase}
use battery.Reconciler.Recovery.{recover_abandoned_provisions}
use battery.Reconciler.Recovery.Marked.{recover_abandoned_provisions_clears}
use battery.Examples.Data.{vm_row, base, vm, lease_row}

-- Nothing fails, and no other goroutine calls the store but with `calls` before the first action.
abbrev pub outside : List Call → ℕ → Environment
outside calls at = record {
  others = λ t. elim t [ zero ↦ calls | suc _ ↦ [] ];
  fails = λ _. false;
  clock = λ _. at;
  connects = λ _. true;
  answers = λ _. deleted;
  rows = λ _. 0;
  ids = λ _. "id";
  addresses = λ _. "a:9090";
  supports = λ _. true;
  creates = λ _. some "v9";
  polls = λ _. in_state_created;
  ticks = λ _. 3;
  ready = λ _. true;
  executes = λ _. exited (pos 0);
  interfaces = λ _. none;
  dials = λ _. dialled;
  swaps = λ _. swapped;
  adds = λ _. true;
  versions = λ _. "v0.15.2";
  starts = λ _. true;
  stops = λ _. true;
  leaves = λ _. false;
}

abbrev pub start : Db → List Call → ℕ → World
start d calls at = record { db = d; env = outside calls at; time = 0; effects = [] }

ensure_vm_deleted_cases_example :
    ((b : Bool) × (x : World) × (ensure_vm_deleted_checking_pool
          (vm "v1" "h1" available none)
          (start base [] 7)
        ≡ (ok b, x))
      × (Confirmed (start base [] 7) "v1" x × (any (has_uid "v1") x.db.vms ≡ false)))
    ⊎ ((e : Error) × (x : World) × (ensure_vm_deleted_checking_pool
            (vm "v1" "h1" available none)
            (start base [] 7)
          ≡ (err e, x))
        × (Standing (vm "v1" "h1" available none) (start base [] 7) x
            ⊎ Confirmed (start base [] 7) "v1" x))
ensure_vm_deleted_cases_example =
    ensure_vm_deleted_cases (vm "v1" "h1" available none) (start base [] 7)

abbrev renewed : Db
renewed = record base { leases = record lease_row { last_heartbeat_at = 30; expires_at = 60 } ∷ [] }

-- A heartbeat comes in after the lease was listed as expired.
abbrev late : World
late = start base (Call.update_lease_heartbeat "l1" 30 60 ∷ []) 40

begin_expiry_spares_example :
    begin_expiry (row_to_lease lease_row) 40 late
    ≡ (ok tt, record late { db = reached late; time = 1 })
unfolding run update_lease_heartbeat any update find row_to_lease
begin_expiry_spares_example =
    begin_expiry_spares (row_to_lease lease_row) 40 late
      (λ row f. omega (arith, ap (λ (l : LeaseRow). l.expires_at) (some-eq-some f)))

heartbeat_spares_example :
    begin_expiry (row_to_lease lease_row) 40 (start renewed [] 40)
    ≡ (ok tt, record (start renewed [] 40) { db = renewed; time = 1 })
unfolding heartbeat get_lease get_pool row_to_lease row_to_pool update_lease_heartbeat run any
    update find
heartbeat_spares_example =
    heartbeat_spares "l1" (start base [] 30) (record (start base [] 30) { db = renewed; time = 3 })
      (start renewed [] 40) 60 40 (row_to_lease lease_row) refl refl refl (omega arith)
      (omega arith)

start-Quiet : Quiet (start base [] 7)
start-Quiet zero = refl
start-Quiet (suc t) = refl

release_vm_outcomes_example :
    ((x : World) × (release_vm "l1" (start base [] 7) ≡ (ok (reply tt), x))
      × (any (has_uid "v2") x.db.vms ≡ false))
    ⊎ ((c : Code) × (x : World) × (release_vm "l1" (start base [] 7) ≡ (ok (status c), x))
        × (x.db.leases ≡ base.leases))
unfolding find
release_vm_outcomes_example = release_vm_outcomes "l1" (start base [] 7) lease_row start-Quiet refl

-- With flintlock answering, it is the first of the two.
release_done : (release_vm "l1" (start base [] 7)).0 ≡ ok (reply tt)
unfolding release_vm ensure_vm_deleted_checking_pool finish_vm_release emit_event get_lease get_vm
    row_to_vm row_to_lease update_vm update_vm_row vm_to_row require_timestamp
    delete_vm_checking_pool delete_lease append_event run any update find remove
release_done = refl

-- A VM was being provisioned when the daemon stopped.
abbrev stopped : Db
stopped = record base {
  vms = vm_row "v1" "h1" provisioning none ∷ vm_row "v2" "h1" leased (some "l1") ∷ [];
}

abbrev recovered : World
recovered = record (start stopped [] 7) {
  db = record base {
    vms =
        record (vm_row "v1" "h1" deleting none) { updated_at = 7 }
        ∷ vm_row "v2" "h1" leased (some "l1")
        ∷ [];
  };
  time = 3;
}

stopped-Quiet : Quiet (start stopped [] 7)
stopped-Quiet zero = refl
stopped-Quiet (suc t) = refl

recover_abandoned_provisions_clears_example :
    any (λ v. v.phase == provisioning || v.phase == create_hook_running) recovered.db.vms ≡ false
unfolding recover_abandoned_provisions list_vms_by_phase row_to_vm update_vm update_vm_row vm_to_row
    require_timestamp select sort_by insert_by run any update
recover_abandoned_provisions_clears_example =
    recover_abandoned_provisions_clears (start stopped [] 7) recovered 1 stopped-Quiet refl
