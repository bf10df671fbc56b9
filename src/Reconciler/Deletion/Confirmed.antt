-- ===== src/Reconciler/Deletion/Confirmed.antt =====
-- EnsureVMDeleted of internal/reconciler/provision.go: a row goes only after its microVM has gone.
use battery.Prelude.{
  some, suc, ◌≡◌, refl, ap, ◌∙◌, Bool, false, String, ◌∷◌, Bool-cases, inl, inr, ◌⊎◌, ◌==◌,
  if◌then◌else◌,
}
use battery.Types.{VmRecord, deleting, phase_eq}
use battery.Table.{any}
use battery.Table.Laws.{any-remove_self, any-update}
use battery.Store.Error.{ok, err, Error}
use battery.Store.Db.{Db}
use battery.Store.Vms.{may_update, overwrite_vm, has_uid, delete_vm_checking_pool, update_vm}
use battery.Store.Outcomes.{Post-ok}
use battery.Store.Outcomes.Vms.{delete_vm_checking_pool-Post, update_vm-Post}
use battery.World.{World, reached, ◌>>◌, store, connect, delete_micro_vm, destroyed}
use battery.World.Rules.{
  Then, Then-bind, Then-store, Then-connect, Then-delete_micro_vm, Then-cases, Then-mono,
}
use battery.Reconciler.Deletion.{mark_vm_deleting, ensure_vm_deleted_checking_pool}

-- From `w` on, the program has confirmed with flintlock that VM `uid` is gone, and done nothing else
-- outside the store.
abbrev pub Confirmed : World → String → World → Type 0
Confirmed w uid x = x.effects ≡ destroyed uid ∷ w.effects

abbrev pub Silent : World → World → Type 0
Silent w x = x.effects ≡ w.effects

-- The database as the first step, the mark, meets it: no call is made for a VM that is marked.
abbrev pub met : VmRecord → World → Db
met vm w = if vm.phase == deleting then w.db else reached w

-- Nothing has been done outside the store, and the VM has a row exactly if it had one.
abbrev pub Standing : VmRecord → World → World → Type 0
Standing vm w x = Silent w x × (any (has_uid vm.uid) x.db.vms ≡ any (has_uid vm.uid) (met vm w).vms)

update_vm-any :
    (v : VmRecord) (uid : String) (d d' : Db) (u : Unit {0})
    → update_vm v d ≡ ok (u, d')
    → any (has_uid uid) d'.vms ≡ any (has_uid uid) d.vms
update_vm-any v uid d d' u e =
    Post-ok (update_vm v d) (λ _ x. any (has_uid uid) x.vms ≡ any (has_uid uid) d.vms)
      (update_vm-Post d v (λ _ x. any (has_uid uid) x.vms ≡ any (has_uid uid) d.vms)
        λ row h g. any-update (may_update row) (has_uid uid) (overwrite_vm row) d.vms (λ _. refl))
      e

mark_vm_deleting-Standing :
    (vm : VmRecord) (w : World) → Then (mark_vm_deleting vm w) (λ _. Standing vm w) (Standing vm w)
unfolding mark_vm_deleting
mark_vm_deleting-Standing vm w = elim (Bool-cases (vm.phase == deleting)) [
  | inl e ↦ rw e (refl, rw e refl)
  | inr e ↦
      let marked = record vm { phase = deleting; updated_at = some (w.env.clock w.time) } in
      let start : any (has_uid vm.uid) (reached w).vms ≡ any (has_uid vm.uid) (met vm w).vms =
        rw e refl in
      rw e (
        Then-store (update_vm marked) w (λ _. Standing vm w) (Standing vm w)
          (λ u d h. (refl, update_vm-any marked vm.uid (reached w) d u h ∙ start)) (refl, start))
]

delete_vm_checking_pool-gone :
    (uid : String) (d d' : Db) (b : Bool)
    → delete_vm_checking_pool uid d ≡ ok (b, d')
    → any (has_uid uid) d'.vms ≡ false
delete_vm_checking_pool-gone uid d d' b e =
    Post-ok (delete_vm_checking_pool uid d) (λ _ x. any (has_uid uid) x.vms ≡ false)
      (delete_vm_checking_pool-Post d uid (λ _ x. any (has_uid uid) x.vms ≡ false)
        λ row found. any-remove_self (has_uid uid) d.vms)
      e

-- What EnsureVMDeleted has done when it succeeds, and when it fails.
abbrev Removed : World → String → World → Type 0
Removed w uid x = Confirmed w uid x × (any (has_uid uid) x.db.vms ≡ false)

abbrev Pending : VmRecord → World → World → Type 0
Pending vm w x = Standing vm w x ⊎ Confirmed w vm.uid x

module _ (vm : VmRecord) (w : World) where
  -- The steps after the mark, from `x` on.
  delete-Then :
      (x : World)
      → Standing vm w x
      → Then
          ((do connect; delete_micro_vm vm.uid; store (delete_vm_checking_pool vm.uid)) x)
          (λ _. Removed w vm.uid)
          (Pending vm w)
  delete-Then x s =
      Then-bind (connect x) _ (λ _. Removed w vm.uid) (Pending vm w)
        (Then-connect x _ _
          (Then-bind (delete_micro_vm vm.uid x) _ (λ _. Removed w vm.uid) (Pending vm w)
            (Then-delete_micro_vm vm.uid x _ _
              (Then-store (delete_vm_checking_pool vm.uid)
                (record x { time = suc x.time; effects = destroyed vm.uid ∷ x.effects })
                (λ _. Removed w vm.uid) (Pending vm w)
                (λ b d e.
                  (ap (λ l. destroyed vm.uid ∷ l) s.0, delete_vm_checking_pool-gone vm.uid _ d b e))
                (inr (ap (λ l. destroyed vm.uid ∷ l) s.0)))
              (inl s)))
          (inl s))

  ensure_vm_deleted-Then :
      Then (ensure_vm_deleted_checking_pool vm w) (λ _. Removed w vm.uid) (Pending vm w)
  unfolding ensure_vm_deleted_checking_pool
  ensure_vm_deleted-Then =
      Then-bind (mark_vm_deleting vm w) _ (λ _. Removed w vm.uid) (Pending vm w)
        (Then-mono (mark_vm_deleting vm w) (λ _ x s. delete-Then x s) (λ x s. inl s)
          (mark_vm_deleting-Standing vm w))

-- Whatever other goroutines, flintlock and the clock do, EnsureVMDeleted returns. If it succeeds,
-- flintlock has confirmed that the VM is gone and the VM has no row. If it fails, flintlock has
-- confirmed that all the same; or nothing was done outside the store, and the VM has a row if it had
-- one when the first step met the database: without the confirmation no row goes.
pub ensure_vm_deleted_cases :
    (vm : VmRecord) (w : World)
    → ((b : Bool) × (x : World) × (ensure_vm_deleted_checking_pool vm w ≡ (ok b, x))
        × (Confirmed w vm.uid x × (any (has_uid vm.uid) x.db.vms ≡ false)))
      ⊎ ((e : Error) × (x : World) × (ensure_vm_deleted_checking_pool vm w ≡ (err e, x))
          × (Standing vm w x ⊎ Confirmed w vm.uid x))
ensure_vm_deleted_cases vm w =
    Then-cases (ensure_vm_deleted_checking_pool vm w) (λ _. Removed w vm.uid) (Pending vm w)
      (ensure_vm_deleted-Then vm w)
