-- ===== src/Reconciler/Provision/Making.antt =====
-- The steps of Provision in internal/reconciler/provision.go under the placement reservation.
use battery.Prelude.{
  suc, ◌≡◌, refl, ap, true, false, String, List, Bool-cases, inl, inr, ◌==◌, string_eq,
}
use battery.Types.{VmRecord, PoolSpec, available, phase_eq}
use battery.Store.Error.{Result, ok, err}
use battery.Store.Rows.{VmRow}
use battery.Store.Db.{Db}
use battery.Store.Vms.{create_vm}
use battery.World.{World, store, connect, check_version, pure}
use battery.Store.Error.{ok-eq-ok}
use battery.Store.Hosts.{release_placement}
use mathlib.Core.Path.{subst}
use battery.World.{create_micro_vm}
use battery.World.Quiet.{Ends, Ends-bind}
use battery.World.Steady.{
  Steady, Keeps, Holds-store, Holds-check, Holds-obtain, Holds-connect, Ends-try, Ends-safe,
}
use battery.Reconciler.Policy.{delete_orphan}
use battery.Reconciler.Policy.Kept.{delete_orphan-Safe}
use battery.Reconciler.Provision.{
  Made, made, unmade, after_create, new_vm, record_vm, keep_vm, create_on, fill_place, instantiate,
}
use battery.Reconciler.Provision.Added.{NoneAdded, NoneAdded-VmCalls}
use battery.Reconciler.Provision.Hooks.{IsOf, Outcome, after_create-Outcome}

module _ (before : List VmRow) (p : PoolSpec) where
  abbrev P : Db → Type 0
  P = NoneAdded before

  module _ (host : String) where
    -- What CreateVM has recorded.
    abbrev Making : Result Made → World → Type 0
    Making (ok (made vm)) x = Steady P x × IsOf p host vm
    Making (ok (unmade f)) x = Steady P x
    Making (err e) x = true ≡ false

    record_vm-Making :
        (vm : VmRecord) (w : World)
        → (vm.phase == available) ≡ false
        → Steady P w
        → IsOf p host vm
        → Ends (record_vm vm w) Making
    record_vm-Making vm w f s of =
        Ends-try P (store (create_vm vm)) _ _ Making w
          (Holds-store P (create_vm vm) ((NoneAdded-VmCalls before).created vm f)) s
          (λ e x t.
            Ends-safe P (delete_orphan vm) (λ _. pure (unmade _)) Making x
              (delete_orphan-Safe P (NoneAdded-VmCalls before) vm) t (λ _ y u. u))
          (λ _ x t. (t, of))

    keep_vm-Making : (uid : String) (w : World) → Steady P w → Ends (keep_vm p host uid w) Making
    keep_vm-Making uid w s = elim (Bool-cases (uid == "")) [
      | inl t ↦ rw t s
      | inr t ↦
          rw t (
            record_vm-Making (new_vm uid host p (w.env.clock w.time)) w refl s (refl, (refl, refl)))
    ]

    create_on-Making : (id : String) (w : World) → Steady P w → Ends (create_on p host id w) Making
    unfolding create_on
    create_on-Making id w s =
        Ends-try P connect _ _ Making w (Holds-connect P) s (λ e x t. t)
          (λ _ x t.
            Ends-try P check_version _ _ Making x
              (λ y u. Holds-check P (y.env.supports y.time) _ (record y { time = suc y.time }) u) t
              (λ e y u. u)
              (λ _ y u.
                Ends-try P (create_micro_vm host (instantiate p id)) _ _ Making y
                  (λ z v. Holds-obtain P (z.env.creates z.time) _ v) u (λ e z v. v)
                  (λ uid z v. keep_vm-Making uid z v)))

    release_placement-Keeps : (id : String) → Keeps P (release_placement id)
    unfolding release_placement
    release_placement-Keeps id d d' u e k =
        subst (λ (x : Db). P x) (ap (λ (y : Unit {0} × Db). y.1) (ok-eq-ok e)) k

    after_made-Outcome :
        (o : Made) (w : World) → Making (ok o) w → Ends (after_create p o w) (Outcome before p host)
    after_made-Outcome (made vm) w t = after_create-Outcome before p host vm w t.0 t.1
    after_made-Outcome (unmade f) w t = t.1

    Making-db : (o : Made) (w : World) → Making (ok o) w → Steady P w
    Making-db (made vm) w t = t.0
    Making-db (unmade f) w t = t

    Making-at : (o : Made) (w x : World) → Making (ok o) w → Steady P x → Making (ok o) x
    Making-at (made vm) w x t s = (s, t.1)
    Making-at (unmade f) w x t s = s

    pub fill_place-Outcome :
        (id : String) (w : World)
        → Steady P w
        → Ends (fill_place p host id w) (Outcome before p host)
    fill_place-Outcome id w s =
        Ends-bind (create_on p host id w) _ Making (Outcome before p host) (create_on-Making id w s)
          (λ o x t.
            let y = (store (release_placement id) x).1 in
            after_made-Outcome o y (
              Making-at o x y t (
                Holds-store P (release_placement id) (release_placement-Keeps id) x
                  (Making-db o x t))))
          (λ e x t. t)
