-- ===== src/Examples/Stores.antt =====
-- The theorems on the store's pools, VMs and leases, at the database of Examples/Data.
use battery.Prelude.{
  ℕ, ◌≡◌, ◌≢◌, ◌<◌, ◌≤◌, refl, true, false, ◌&&◌, ◌||◌, not, none, some, List, [], ◌∷◌, map, ◌⊎◌,
  arith, string_eq,
}
use battery.Types.{VmRecord, available, leased, deleting, phase_eq}
use battery.Table.{select, find, update, any, sort_by}
use battery.Store.Error.{
  ok, err, lease_not_expired, not_found, no_available_vm, pool_has_leased_vms,
}
use battery.Store.Rows.{
  VmRow, LeaseRow, row_to_vm, row_to_lease, vm_to_row, lease_to_row, require_timestamp,
  null_if_empty,
}
use battery.Store.Db.{Db, empty, choose}
use battery.Store.Pools.{vm_in_pool, is_pool, is_held, uid_le, delete_pool_and_mark_vms}
use battery.Store.Vms.{is_claimable, mark_leased, claim_available_vm, update_vm, update_vm_row}
use battery.Store.Leases.{
  has_lease_id, update_lease_heartbeat, delete_lease_if_expired, lease_vm, create_lease,
  insert_lease_row,
}
use battery.Store.Call.{Call, step, run}
use battery.Store.WellFormed.{WellFormed, step-WellFormed, run-empty-WellFormed}
use battery.Store.Deleting.{IsDeletingOrGone, deleting_terminal}
use battery.Store.Claim.{Claimed, claim_available_vm-Claimed}
use battery.Store.Claim.Total.{claim_available_vm_total, claims_distinct}
use battery.Store.Leasing.{Leased, lease_vm-Leased, lease_to_row-row_to_lease}
use battery.Store.Expiry.{Without, delete_lease_if_expired_cases, heartbeat_outlives_expiry}
use battery.Store.PoolDelete.{PoolDeleted, delete_pool_and_mark_vms_cases}
use battery.Examples.Data.{base, base-WellFormed, pool, vm, vm_row, lease, lease_row}

step-WellFormed_example :
    WellFormed (step base (Call.lease_vm (vm "v1" "h1" leased (some "l2")) lease))
step-WellFormed_example =
    step-WellFormed base (Call.lease_vm (vm "v1" "h1" leased (some "l2")) lease) base-WellFormed

abbrev calls : List Call
calls = Call.create_pool pool ∷ Call.create_vm (vm "v1" "h1" available none) ∷ []

run-empty-WellFormed_example : WellFormed (run empty calls)
run-empty-WellFormed_example = run-empty-WellFormed calls

-- `base` with VM `v1` marked for deletion.
abbrev condemned : Db
condemned = record base { vms = vm_row "v1" "h1" deleting none ∷ [] }

deleting_terminal_example :
    IsDeletingOrGone "v1" (step condemned (Call.update_vm (vm "v1" "h1" available none)))
unfolding any
deleting_terminal_example =
    deleting_terminal "v1" condemned (Call.update_vm (vm "v1" "h1" available none)) refl
      ((λ _. refl), tt)

-- The VM that a claim at time `now` takes from `d`, if it chooses the row `row`.
abbrev claimed : ℕ → VmRow → VmRecord
claimed now row = row_to_vm (mark_leased now row)

abbrev after_claim : Db
after_claim = record base {
  vms =
      mark_leased 5 (vm_row "v1" "h1" available none)
      ∷ vm_row "v2" "h1" leased (some "l1")
      ∷ vm_row "v3" "h2" available none
      ∷ [];
}

abbrev after_claims : Db
after_claims = record base {
  vms =
      mark_leased 5 (vm_row "v1" "h1" available none)
      ∷ vm_row "v2" "h1" leased (some "l1")
      ∷ mark_leased 6 (vm_row "v3" "h2" available none)
      ∷ [];
}

first_claim :
    claim_available_vm 5 0 "web" "prod" base
    ≡ ok (claimed 5 (vm_row "v1" "h1" available none), after_claim)
unfolding claim_available_vm choose select find update any
first_claim = refl

second_claim :
    claim_available_vm 6 4 "web" "prod" after_claim
    ≡ ok (claimed 6 (vm_row "v3" "h2" available none), after_claims)
unfolding claim_available_vm choose select find update any
second_claim = refl

claim_available_vm-Claimed_example :
    Claimed 5 "web" "prod" base (claimed 5 (vm_row "v1" "h1" available none)) after_claim
claim_available_vm-Claimed_example =
    claim_available_vm-Claimed 5 0 "web" "prod" base (claimed 5 (vm_row "v1" "h1" available none))
      after_claim base-WellFormed first_claim

claim_available_vm_total_example :
    ((any (is_claimable "web" "prod") base.vms ≡ true)
      × (v : VmRecord) × (d' : Db) × (claim_available_vm 5 7 "web" "prod" base ≡ ok (v, d')))
    ⊎ ((any (is_claimable "web" "prod") base.vms ≡ false)
        × (claim_available_vm 5 7 "web" "prod" base ≡ err no_available_vm))
claim_available_vm_total_example = claim_available_vm_total 5 7 "web" "prod" base base-WellFormed

claims_distinct_example :
    (claimed 5 (vm_row "v1" "h1" available none)).uid
    ≢ (claimed 6 (vm_row "v3" "h2" available none)).uid
claims_distinct_example =
    claims_distinct 5 0 6 4 "web" "prod" "web" "prod" base after_claim after_claims
      (claimed 5 (vm_row "v1" "h1" available none)) (claimed 6 (vm_row "v3" "h2" available none))
      base-WellFormed first_claim second_claim

abbrev new_lease_row : LeaseRow
new_lease_row = record {
  lease_id = "l2";
  vm_uid = "v1";
  pool_name = "web";
  pool_namespace = "prod";
  claimed_at = 5;
  last_heartbeat_at = 5;
  expires_at = 35;
  request_id = some "r2";
}

lease_to_row-row_to_lease_example : row_to_lease new_lease_row ≡ lease
unfolding lease_to_row require_timestamp null_if_empty
lease_to_row-row_to_lease_example =
    lease_to_row-row_to_lease lease new_lease_row (omega arith) (omega arith) (omega arith) refl

abbrev after_lease : Db
after_lease = record after_claim {
  vms =
      record (vm_row "v1" "h1" leased (some "l2")) { updated_at = 2 }
      ∷ vm_row "v2" "h1" leased (some "l1")
      ∷ vm_row "v3" "h2" available none
      ∷ [];
  leases = lease_row ∷ new_lease_row ∷ [];
}

lease_vm-Leased_example : Leased (vm "v1" "h1" leased (some "l2")) lease after_claim after_lease
unfolding lease_vm update_vm update_vm_row vm_to_row create_lease insert_lease_row lease_to_row
    require_timestamp null_if_empty update any
lease_vm-Leased_example =
    lease_vm-Leased (vm "v1" "h1" leased (some "l2")) lease after_claim after_lease tt refl

delete_lease_if_expired_cases_example :
    ((find (has_lease_id "l1") base.leases ≡ none)
      × (delete_lease_if_expired "l1" 40 base ≡ err not_found))
    ⊎ ((row : LeaseRow) × (find (has_lease_id "l1") base.leases ≡ some row)
        × (((40 < row.expires_at) × (delete_lease_if_expired "l1" 40 base ≡ err lease_not_expired))
            ⊎ ((row.expires_at ≤ 40)
                × ((left : List LeaseRow) × (delete_lease_if_expired "l1" 40 base
                      ≡ ok (row_to_lease row, record base { leases = left }))
                    × Without "l1" base left))))
delete_lease_if_expired_cases_example = delete_lease_if_expired_cases "l1" 40 base base-WellFormed

abbrev renewed : Db
renewed = record base { leases = record lease_row { last_heartbeat_at = 30; expires_at = 60 } ∷ [] }

heartbeat_outlives_expiry_example : delete_lease_if_expired "l1" 40 renewed ≡ err lease_not_expired
unfolding update_lease_heartbeat update any
heartbeat_outlives_expiry_example =
    heartbeat_outlives_expiry "l1" 30 60 40 base renewed tt refl (omega arith) (omega arith)

delete_pool_and_mark_vms_cases_example :
    ((any (is_pool "web" "prod") base.pools ≡ false)
      × (delete_pool_and_mark_vms 9 "web" "prod" true base ≡ err not_found))
    ⊎ ((true ≡ false)
        × ((any (λ v. vm_in_pool "web" "prod" v && is_held v) base.vms ≡ true)
            × (delete_pool_and_mark_vms 9 "web" "prod" true base ≡ err pool_has_leased_vms)))
    ⊎ ((d' : Db) × ((delete_pool_and_mark_vms 9 "web" "prod" true base
            ≡ ok (map row_to_vm (sort_by uid_le (select (vm_in_pool "web" "prod") d'.vms)), d'))
          × (((true || not (any (λ v. vm_in_pool "web" "prod" v && is_held v) base.vms)) ≡ true)
              × PoolDeleted "web" "prod" base d')))
delete_pool_and_mark_vms_cases_example = delete_pool_and_mark_vms_cases 9 "web" "prod" true base
