-- ===== src/Reconciler/Loop/Unfailing.antt =====
-- The control loop of internal/reconciler/reconciler.go goes on whatever fails.
use battery.Prelude.{ℕ, zero, suc, ◌≡◌, refl, Bool-cases, inl, inr, List, [], ◌∷◌, none, ltb, ◌&&◌}
use battery.Types.{PoolSpec}
use battery.Store.Error.{Error, Result, ok, err}
use battery.World.{World, Prog, continue, handle, store}
use battery.Store.Vms.{list_vms_by_pool}
use battery.Reconciler.Strategy.{Strategy, Trigger, tick, hook}
use battery.Reconciler.Count.{cap_for_static_network, template_has_static_network}
use battery.Reconciler.Provision.{provision}
use battery.Reconciler.Loop.{
  read_counts, provision_each, provision_n, reconcile, run_woken, run_loop,
}

-- The program returns without an error in every world.
abbrev pub Unfailing : Prog (Unit {0}) → Type 0
Unfailing m = (w : World) → (m w).0 ≡ ok tt

handle-Unfailing :
    {A : Type 0} (r : Result A × World) (g : Error → Prog (Unit {0})) (f : A → Prog (Unit {0}))
    → ((e : Error) → Unfailing (g e))
    → ((a : A) → Unfailing (f a))
    → (handle r g f).0 ≡ ok tt
handle-Unfailing (ok a, x) g f h k = k a x
handle-Unfailing (err e, x) g f h k = h e x

then-Unfailing :
    (r : Result (Unit {0}) × World) (m : Prog (Unit {0}))
    → r.0 ≡ ok tt
    → Unfailing m
    → (continue r (λ _. m)).0 ≡ ok tt
then-Unfailing (ok a, x) m e h = h x
then-Unfailing (err e, x) m h k = cc h

provision_each-Unfailing : (p : PoolSpec) (n : ℕ) → Unfailing (provision_each p n)
provision_each-Unfailing p zero w = refl
provision_each-Unfailing p (suc n) w =
    handle-Unfailing (provision p w) _ _ (λ _. provision_each-Unfailing p n)
      (λ _. provision_each-Unfailing p n)

provision_n-Unfailing : (p : PoolSpec) (n : ℕ) → Unfailing (provision_n p n)
unfolding provision_n
provision_n-Unfailing p n w =
    elim (Bool-cases (ltb 0 n && template_has_static_network p.microvm_template)) [
      | inl e ↦
          let listed = store (list_vms_by_pool p.name p.namespace none) w in
          rw e (provision_each-Unfailing p (cap_for_static_network listed.0) listed.1)
      | inr e ↦ rw e (provision_each-Unfailing p n w)
    ]

reconcile-Unfailing : (why : Trigger) (s : Strategy) (p : PoolSpec) → Unfailing (reconcile why s p)
unfolding reconcile
reconcile-Unfailing why s p w =
    handle-Unfailing (read_counts p.name p.namespace w) _ _ (λ _ _. refl)
      (λ counts. provision_n-Unfailing p (hook why s p counts))

run_woken-Unfailing :
    (whys : List Trigger) (s : Strategy) (p : PoolSpec) → Unfailing (run_woken whys s p)
unfolding run_woken
run_woken-Unfailing [] s p w = refl
run_woken-Unfailing (why ∷ whys) s p w =
    then-Unfailing (reconcile why s p w) _ (reconcile-Unfailing why s p w)
      (run_woken-Unfailing whys s p)

-- Whatever the store and flintlock answer, no error ends the loop before its context is done.
pub run_loop-Unfailing :
    (whys : List Trigger) (s : Strategy) (p : PoolSpec) → Unfailing (run_loop whys s p)
unfolding run_loop
run_loop-Unfailing whys s p w =
    then-Unfailing (reconcile tick s p w) _ (reconcile-Unfailing tick s p w)
      (run_woken-Unfailing whys s p)
