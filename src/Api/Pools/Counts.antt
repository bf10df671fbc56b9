-- ===== src/Api/Pools/Counts.antt =====
-- The counts of internal/api/pooladmin.go.
use battery.Prelude.{
  ◌≡◌, ◌↔◌, refl, sym, ap, ◌∙◌, String, Bool, true, false, ◌&&◌, ◌||◌, none, List, [], ◌∷◌, map,
  arith, ◌==◌, string_eq,
}
use battery.Types.{VmRecord, leased, pre_lease_hook_running, phase_eq}
use battery.Table.{select, any, count, sort_by}
use battery.Table.Laws.{any-ext, count-sort_by}
use battery.Store.Rows.{VmRow, row_to_vm}
use battery.Store.Error.{ok, ok-eq-ok}
use battery.Store.Db.{Db}
use battery.Store.Pools.{vm_in_pool, is_held, uid_le}
use battery.Store.Vms.{list_vms_by_pool}
use battery.Api.Pools.{count_leased}

count-map :
    (q : VmRecord → Bool) (rows : List VmRow)
    → count q (map row_to_vm rows) ≡ count (λ r. q (row_to_vm r)) rows
unfolding count
count-map q [] = refl
count-map q (r ∷ rs) = ground (arith, count-map q rs)

count-select-zero :
    (p q : VmRow → Bool) (rows : List VmRow)
    → (count q (select p rows) ≡ 0) ↔ (any (λ r. p r && q r) rows ≡ false)
unfolding count select any
count-select-zero p q [] = (λ _. refl, λ _. refl)
count-select-zero p q (r ∷ rs) = ground (arith, count-select-zero p q rs)

-- DeletePool's early check and the one inside DeletePoolAndMarkVMs agree: countLeased of the VMs that
-- ListVMsByPool returns is 0 exactly when no VM of the pool is LEASED or PRE_LEASE_HOOK_RUNNING.
pub count_leased_agrees :
    (n s : String) (d d' : Db) (vms : List VmRecord)
    → list_vms_by_pool n s none d ≡ ok (vms, d')
    → (count_leased vms ≡ 0) ↔ (any (λ v. vm_in_pool n s v && is_held v) d.vms ≡ false)
unfolding list_vms_by_pool count_leased row_to_vm
count_leased_agrees n s d d' vms e = (
  λ z. any-ext _ _ d.vms widen ∙ (count-select-zero listed is_held d.vms).0 (sym counted ∙ z),
  λ z. counted ∙ (count-select-zero listed is_held d.vms).1 (sym (any-ext _ _ d.vms widen) ∙ z),
)
  where
    listed : VmRow → Bool
    listed v = vm_in_pool n s v && true

    widen : (v : VmRow) → (vm_in_pool n s v && is_held v) ≡ (listed v && is_held v)
    widen v = ground arith

    counted : count_leased vms ≡ count is_held (select listed d.vms)
    counted =
        ap (λ (r : List VmRecord × Db). count_leased r.0) (sym (ok-eq-ok e))
        ∙ count-map (λ v. v.phase == leased || v.phase == pre_lease_hook_running)
            (sort_by uid_le (select listed d.vms))
        ∙ count-sort_by is_held uid_le (select listed d.vms)
