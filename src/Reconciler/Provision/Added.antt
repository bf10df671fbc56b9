-- ===== src/Reconciler/Provision/Added.antt =====
-- What the calls of internal/reconciler/provision.go do to the set of AVAILABLE VMs.
use battery.Prelude.{
  ◌≡◌, refl, sym, ◌∙◌, Bool, true, false, ◌&&◌, ◌||◌, String, List, [], ◌∷◌, Bool-cases, inl, inr,
  ◌==◌, string_eq, arith,
}
use battery.Types.{VmRecord, available, phase_eq}
use battery.Table.{any, update, remove}
use battery.Table.Laws.{any-append, any-remove}
use battery.Store.Error.{ok}
use battery.Store.Rows.{VmRow, vm_to_row, require_timestamp}
use battery.Store.Db.{Db}
use battery.Store.Vms.{create_vm, update_vm, delete_vm_checking_pool, overwrite_vm}
use battery.Store.Events.{append_event}
use battery.Store.Outcomes.{Post-ok}
use battery.Store.Outcomes.Vms.{create_vm-Post, update_vm-Post, delete_vm_checking_pool-Post}
use battery.Store.Outcomes.Leases.{append_event-Post}
use battery.World.Steady.{Keeps}
use battery.Reconciler.Policy.Kept.{VmCalls}

abbrev pub is_available : String → VmRow → Bool
is_available uid v = v.uid == uid && v.phase == available

-- Every VM that is AVAILABLE in `d` is AVAILABLE in `before`.
abbrev pub NoneAdded : List VmRow → Db → Type 0
NoneAdded before d =
    (uid : String) → any (is_available uid) d.vms ≡ true → any (is_available uid) before ≡ true

any-update_back :
    (p q : VmRow → Bool) (f : VmRow → VmRow) (xs : List VmRow)
    → ((x : VmRow) → q (f x) ≡ false)
    → any q (update p f xs) ≡ true
    → any q xs ≡ true
unfolding any update
any-update_back p q f [] k e = e
any-update_back p q f (x ∷ xs) k e = ground (arith, k x, any-update_back p q f xs k)

any-remove_back :
    (p q : VmRow → Bool) (xs : List VmRow) → any q (remove p xs) ≡ true → any q xs ≡ true
any-remove_back p q xs e = elim (Bool-cases (any q xs)) [
  | inl t ↦ t
  | inr t ↦ cc (any-remove p q xs t, e)
]

pub vm_row-fields :
    (v : VmRecord) (row : VmRow)
    → vm_to_row v ≡ ok row
    → (row.uid ≡ v.uid)
      × ((row.phase ≡ v.phase)
          × ((row.pool_name ≡ v.pool_name)
              × ((row.pool_namespace ≡ v.pool_namespace)
                  × (row.flintlock_host ≡ v.flintlock_host))))
unfolding vm_to_row require_timestamp
vm_row-fields v row e = ground arith

not_available :
    (v : VmRecord) (row : VmRow) (uid : String)
    → vm_to_row v ≡ ok row
    → (v.phase == available) ≡ false
    → (row.phase == available) ≡ false
not_available v row uid e f = rw ((vm_row-fields v row e).1.0) f

and_false : (a b : Bool) → b ≡ false → (a && b) ≡ false
and_false true b e = e
and_false false b e = refl

module _ (before : List VmRow) where
  created-NoneAdded :
      (v : VmRecord) → (v.phase == available) ≡ false → Keeps (NoneAdded before) (create_vm v)
  unfolding any
  created-NoneAdded v f d d' u e k =
      Post-ok (create_vm v d) (λ _. NoneAdded before)
        (create_vm-Post d v (λ _. NoneAdded before)
          λ row is_row _ uid there. k uid (
            alone (any (is_available uid) d.vms) (is_available uid row)
              (and_false _ _ (not_available v row uid is_row f))
              (sym (any-append (is_available uid) d.vms (row ∷ [])) ∙ there)))
        e
    where
      alone : (a b : Bool) → b ≡ false → (a || (b || false)) ≡ true → a ≡ true
      alone true b f e = refl
      alone false true f e = cc f
      alone false false f e = e

  updated-NoneAdded :
      (v : VmRecord) → (v.phase == available) ≡ false → Keeps (NoneAdded before) (update_vm v)
  updated-NoneAdded v f d d' u e k =
      Post-ok (update_vm v d) (λ _. NoneAdded before)
        (update_vm-Post d v (λ _. NoneAdded before)
          λ row is_row _ uid there. k uid (
            any-update_back _ (is_available uid) (overwrite_vm row) d.vms
              (λ x. and_false _ _ (not_available v row uid is_row f)) there))
        e

  pub NoneAdded-VmCalls : VmCalls (NoneAdded before)
  NoneAdded-VmCalls = record {
    created = created-NoneAdded;
    updated = updated-NoneAdded;
    removed = λ u d d' b e k.
        Post-ok (delete_vm_checking_pool u d) (λ _. NoneAdded before)
          (delete_vm_checking_pool-Post d u (λ _. NoneAdded before)
            λ row _ uid there. k uid (any-remove_back _ (is_available uid) d.vms there))
          e;
    appended = λ ev d d' i e k.
        Post-ok (append_event ev d) (λ _. NoneAdded before)
          (append_event-Post d ev (λ _. NoneAdded before) λ _ _. k) e;
  }
