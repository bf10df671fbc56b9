-- ===== src/Examples/Hosts.antt =====
-- The theorems on the registry of hosts, at the database of Examples/Data.
use battery.Prelude.{
  ◌≡◌, refl, ap, Bool, true, false, none, some, List, [], ◌∷◌, All, ◌==◌, string_eq,
}
use battery.Types.{Host, VmRecord, available, leased, phase_eq}
use battery.Table.{select, find, update, any, sort_by}
use battery.Store.Error.{ok, err, host_cordoned}
use battery.Store.Rows.{row_to_vm, row_to_host, null_if_empty}
use battery.Store.Db.{Db}
use battery.Store.Pools.{mark_deleting}
use battery.Store.Hosts.{
  drain_host, mark_unleased_vms_deleting, get_host, reserve_placement, set_draining, set_cordoned,
}
use battery.Store.Call.{Call, run, delete_host}
use battery.Store.Cordon.{IsCordoned, Leaves, cordon_holds}
use battery.Store.Drain.{Drained, drain_host-Drained, drain_closes}
use battery.Examples.Data.{base, vm_row, host_row}

-- What a drain of `h1` makes of `base`.
abbrev drained_base : Db
drained_base = record base {
  vms =
      mark_deleting 9 (vm_row "v1" "h1" available none)
      ∷ vm_row "v2" "h1" leased (some "l1")
      ∷ vm_row "v3" "h2" available none
      ∷ [];
  hosts = set_draining 9 "disk" (host_row "h1") ∷ host_row "h2" ∷ [];
}

abbrev drained_host : Host
drained_host = row_to_host (set_draining 9 "disk" (host_row "h1"))

abbrev drained_vms : List VmRecord
drained_vms = row_to_vm (mark_deleting 9 (vm_row "v1" "h1" available none)) ∷ []

drain_base : drain_host 9 "h1" "disk" base ≡ ok ((drained_host, drained_vms), drained_base)
unfolding drain_host mark_unleased_vms_deleting get_host select find update any sort_by
    null_if_empty
drain_base = refl

abbrev removes_h1 : Call → Bool
removes_h1 (delete_host name) = name == "h1"
removes_h1 _ = false

kept_h1 : All (Leaves "h1") (Call.release_placement "p" ∷ Call.delete_host "h2" ∷ [])
kept_h1 = (
  record { uncordons = λ t r e. cc e; removes = λ e. cc e },
  (record { uncordons = λ t r e. cc e; removes = λ e. cc (ap removes_h1 e) }, tt),
)

drain_host-Drained_example : Drained "h1" base drained_host drained_vms drained_base
drain_host-Drained_example =
    drain_host-Drained 9 "h1" "disk" base drained_host drained_vms drained_base drain_base

drain_closes_example :
    reserve_placement 10 "p" "h1" "web" "prod"
      (run drained_base (Call.release_placement "p" ∷ Call.delete_host "h2" ∷ []))
    ≡ err host_cordoned
drain_closes_example =
    drain_closes 9 "h1" "disk" base drained_host drained_vms drained_base
      (Call.release_placement "p" ∷ Call.delete_host "h2" ∷ []) 10 "p" "web" "prod" drain_base
      kept_h1

-- `base` with host `h1` cordoned.
abbrev cordoned_base : Db
cordoned_base = record base { hosts = set_cordoned 3 true "" (host_row "h1") ∷ [] }

cordoned_base-IsCordoned : IsCordoned "h1" cordoned_base
unfolding any
cordoned_base-IsCordoned = record { registered = refl; cordoned = ((λ _. refl), tt) }

cordon_holds_example :
    reserve_placement 10 "p" "h1" "web" "prod"
      (run cordoned_base (Call.release_placement "p" ∷ Call.delete_host "h2" ∷ []))
    ≡ err host_cordoned
cordon_holds_example =
    cordon_holds "h1" cordoned_base (Call.release_placement "p" ∷ Call.delete_host "h2" ∷ []) 10 "p"
      "web" "prod" cordoned_base-IsCordoned kept_h1
