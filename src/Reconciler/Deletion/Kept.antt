-- ===== src/Reconciler/Deletion/Kept.antt =====
-- EnsureVMDeleted of internal/reconciler/provision.go leaves the leases alone.
use battery.Prelude.{
  ℕ, ◌≡◌, refl, ◌∙◌, Bool, false, String, List, some, Bool-cases, Option-cases, inl, inr, ◌⊎◌, ◌==◌,
  string_eq,
}
use battery.Types.{VmRecord, deleting, phase_eq}
use battery.Table.{any, find}
use battery.Table.Laws.{any-remove_self, any_of_find-none}
use battery.Store.Error.{Error, Result, ok, err, other, is_not_found}
use battery.Store.Rows.{VmRow, LeaseRow, vm_to_row, require_timestamp}
use battery.Store.Db.{Db}
use battery.Store.Vms.{has_uid, update_vm, update_vm_row, delete_vm_checking_pool, may_update}
use battery.Store.Outcomes.{Post-ok}
use battery.Store.Outcomes.Vms.{update_vm-Post, delete_vm_checking_pool-Post}
use battery.World.{World, ◌>>◌, store, connect, delete_micro_vm}
use battery.World.Quiet.{Quiet, Ends, Ends-store, Ends-bind, Ends-connect, Ends-delete_micro_vm}
use battery.Reconciler.Deletion.{mark_vm_deleting, ensure_vm_deleted_checking_pool}

-- The world is quiet, and its leases are `leases`.
abbrev pub Kept : List LeaseRow → World → Type 0
Kept leases x = Quiet x × (x.db.leases ≡ leases)

abbrev pub Gone : String → World → Type 0
Gone uid x = any (has_uid uid) x.db.vms ≡ false

-- ErrNotFound only if the VM has no row.
abbrev pub Missing : String → Error → World → Type 0
Missing uid e x = (is_not_found e ≡ false) ⊎ Gone uid x

abbrev pub Ensured : List LeaseRow → String → Result Bool → World → Type 0
Ensured leases uid (ok b) x = Gone uid x × Kept leases x
Ensured leases uid (err e) x = Missing uid e x × Kept leases x

abbrev Marked : List LeaseRow → String → Result (Unit {0}) → World → Type 0
Marked leases uid (ok u) x = Kept leases x
Marked leases uid (err e) x = Missing uid e x × Kept leases x

other_than_missing :
    {A : Type 0} {x e : Error}
    → ◌≡◌ {A = Result A} (err x) (err e)
    → is_not_found x ≡ false
    → is_not_found e ≡ false
other_than_missing h k = cc

update_vm-not_found :
    (v : VmRecord) (d : Db) (e : Error)
    → update_vm v d ≡ err e
    → (is_not_found e ≡ false) ⊎ (any (has_uid v.uid) d.vms ≡ false)
unfolding update_vm update_vm_row vm_to_row require_timestamp is_not_found
update_vm-not_found v d e h = elim (Bool-cases (any (has_uid v.uid) d.vms)) [
  | inr gone ↦ inr gone
  | inl there ↦ elim (Option-cases v.created_at) [
    | inl c ↦ inl (other_than_missing (rw c at h) refl)
    | inr (created, c) ↦ elim (Option-cases v.updated_at) [
      | inl u ↦ inl (other_than_missing (rw (c, u) at h) refl)
      | inr (updated, u) ↦ elim (Bool-cases (any (may_update (row created updated)) d.vms)) [
        | inl a ↦ cc (rw (c, u, a) at h)
        | inr a ↦ inl (other_than_missing (rw (c, u, a, there) at h) refl)
      ]
    ]
  ]
]
  where
    row : ℕ → ℕ → VmRow
    row created updated = record {
      uid = v.uid;
      pool_name = v.pool_name;
      pool_namespace = v.pool_namespace;
      flintlock_host = v.flintlock_host;
      phase = v.phase;
      lease_id = v.lease_id;
      created_at = created;
      updated_at = updated;
    }

update_vm-leases :
    (v : VmRecord) (d d' : Db) (u : Unit {0}) → update_vm v d ≡ ok (u, d') → d'.leases ≡ d.leases
update_vm-leases v d d' u e =
    Post-ok (update_vm v d) (λ _ x. x.leases ≡ d.leases) (update_vm-Post d v _ λ _ _ _. refl) e

delete_vm_checking_pool-outcome :
    (uid : String) (d d' : Db) (b : Bool)
    → delete_vm_checking_pool uid d ≡ ok (b, d')
    → (any (has_uid uid) d'.vms ≡ false) × (d'.leases ≡ d.leases)
delete_vm_checking_pool-outcome uid d d' b e =
    Post-ok (delete_vm_checking_pool uid d)
      (λ _ x. (any (has_uid uid) x.vms ≡ false) × (x.leases ≡ d.leases))
      (delete_vm_checking_pool-Post d uid _
        λ row found. (any-remove_self (has_uid uid) d.vms, refl))
      e

delete_vm_checking_pool-not_found :
    (uid : String) (d : Db) (e : Error)
    → delete_vm_checking_pool uid d ≡ err e
    → any (has_uid uid) d.vms ≡ false
unfolding delete_vm_checking_pool
delete_vm_checking_pool-not_found uid d e h = elim (Option-cases (find (has_uid uid) d.vms)) [
  | inl g ↦ any_of_find-none (has_uid uid) d.vms g
  | inr (row, g) ↦ cc (rw g at h)
]

pub is_not_found-other : is_not_found other ≡ false
unfolding is_not_found
is_not_found-other = refl

module _ (leases : List LeaseRow) (vm : VmRecord) where
  mark_vm_deleting-Marked :
      (w : World) → Kept leases w → Ends (mark_vm_deleting vm w) (Marked leases vm.uid)
  unfolding mark_vm_deleting
  mark_vm_deleting-Marked w k = elim (Bool-cases (vm.phase == deleting)) [
    | inl e ↦ rw e k
    | inr e ↦ rw e (
        Ends-store
          (update_vm (record vm { phase = deleting; updated_at = some (w.env.clock w.time) })) w
          (Marked leases vm.uid) k.0
          (λ u d f. (
            k.0,
            update_vm-leases
                  (record vm { phase = deleting; updated_at = some (w.env.clock w.time) }) w.db d u
                  f
                ∙ k.1,
          ))
          (λ x f. (
            elim f [
              | inl g ↦
                  update_vm-not_found
                    (record vm { phase = deleting; updated_at = some (w.env.clock w.time) }) w.db x
                    g
              | inr g ↦ inl (rw g is_not_found-other)
            ],
            k,
          )))
  ]

  delete-Ensured :
      (w : World)
      → Kept leases w
      → Ends
          ((do connect; delete_micro_vm vm.uid; store (delete_vm_checking_pool vm.uid)) w)
          (Ensured leases vm.uid)
  delete-Ensured w k =
      Ends-bind (connect w) _ (Marked leases vm.uid) (Ensured leases vm.uid)
        (Ends-connect w (Marked leases vm.uid) k (inl is_not_found-other, k))
        (λ _ x k.
          Ends-bind (delete_micro_vm vm.uid x) _ (Marked leases vm.uid) (Ensured leases vm.uid)
            (Ends-delete_micro_vm vm.uid x (Marked leases vm.uid) k (inl is_not_found-other, k))
            (λ _ y k.
              Ends-store (delete_vm_checking_pool vm.uid) y (Ensured leases vm.uid) k.0
                (λ b d f.
                  let out = delete_vm_checking_pool-outcome vm.uid y.db d b f in
                  (out.0, (k.0, out.1 ∙ k.1)))
                (λ e f. (
                  elim f [
                    | inl g ↦ inr (delete_vm_checking_pool-not_found vm.uid y.db e g)
                    | inr g ↦ inl (rw g is_not_found-other)
                  ],
                  k,
                )))
            (λ e y m. m))
        (λ e x m. m)

  -- Without other calls, EnsureVMDeleted leaves the leases as they were; if it succeeds, the VM has no
  -- row, and if it fails with ErrNotFound, neither.
  pub ensure_vm_deleted-Ensured :
      (w : World)
      → Kept leases w
      → Ends (ensure_vm_deleted_checking_pool vm w) (Ensured leases vm.uid)
  unfolding ensure_vm_deleted_checking_pool
  ensure_vm_deleted-Ensured w k =
      Ends-bind (mark_vm_deleting vm w) _ (Marked leases vm.uid) (Ensured leases vm.uid)
        (mark_vm_deleting-Marked w k) (λ _ x k. delete-Ensured x k) (λ e x m. m)
