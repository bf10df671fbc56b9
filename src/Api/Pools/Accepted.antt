-- ===== src/Api/Pools/Accepted.antt =====
-- What validatePoolSpec of internal/api/pooladmin.go accepts.
use mathlib.Core.Path.{subst}
use battery.Prelude.{
  ℕ, suc, ◌≡◌, refl, true, false, Option, none, some, List, [], ◌∷◌, arith, ◌==◌, string_eq, inl,
  inr, ◌⊎◌, Bool-cases,
}
use battery.Types.{
  PoolSpec, MicrovmSpec, NetworkInterface, HookFailurePolicy, policy_unspecified,
  delete_and_replace, quarantine,
}
use battery.Table.{any}
use battery.Reconciler.Strategy.{Strategy, Chosen, StrategyError, chosen, refused, new_strategy}
use battery.Reconciler.Count.{template_has_static_network, is_static}
use battery.Api.Pools.{
  is_single, first_static, validate_template_network, validate_pool_spec, valid, SpecError,
  check_network, check_policy, check_template,
}

-- `q` is `p` as it is accepted.
pub record Accepted (p q : PoolSpec) : Type 0 where
  pub named : (p.name == "") ≡ false
  pub in_namespace : (p.namespace == "") ≡ false
  pub strategy : Strategy
  pub starts : new_strategy q.replenishment_strategy ≡ chosen strategy
  pub template : MicrovmSpec
  pub given : p.microvm_template ≡ some template
  pub with_agent :
      q ≡ record p { microvm_template = some (record template { allow_guest_agent = true }) }
  pub network : (template_has_static_network q.microvm_template ≡ false) ⊎ (is_single q ≡ true)

first_static-none :
    (i : ℕ) (fs : List NetworkInterface) → first_static i fs ≡ none → any is_static fs ≡ false
unfolding any
first_static-none i [] e = refl
first_static-none i (f ∷ fs) e = ground (arith, first_static-none (suc i) fs)

validate_template_network-none :
    (p : PoolSpec) (t : MicrovmSpec)
    → p.microvm_template ≡ some t
    → validate_template_network p ≡ none
    → (any is_static t.interfaces ≡ false) ⊎ (is_single p ≡ true)
unfolding validate_template_network
validate_template_network-none p t g e = elim (Bool-cases (is_single p)) [
  | inl s ↦ inr s
  | inr s ↦ inl (first_static-none 0 t.interfaces (rw (s, g) at e))
]

valid-eq-valid : {p q : PoolSpec} → valid p ≡ valid q → p ≡ q
valid-eq-valid e = cc

Chosen-cases :
    (c : Chosen) → ((s : Strategy) × (c ≡ chosen s)) ⊎ ((e : StrategyError) × (c ≡ refused e))
Chosen-cases (chosen s) = inl (s, refl)
Chosen-cases (refused e) = inr (e, refl)

-- Past the check of the policy, the template is checked.
check_policy-valid :
    (p q : PoolSpec) (policy : HookFailurePolicy)
    → check_policy p policy ≡ valid q
    → check_template p p.microvm_template ≡ valid q
check_policy-valid p q policy_unspecified e = cc e
check_policy-valid p q delete_and_replace e = e
check_policy-valid p q quarantine e = e

module _ (p q : PoolSpec) (named : (p.name == "") ≡ false) (spaced : (p.namespace == "") ≡ false)
    (s : Strategy) (starts : new_strategy p.replenishment_strategy ≡ chosen s) where
  check_network-Accepted :
      (t : MicrovmSpec) (o : Option SpecError)
      → p.microvm_template ≡ some t
      → validate_template_network p ≡ o
      → check_network p t o ≡ valid q
      → Accepted p q
  unfolding template_has_static_network
  check_network-Accepted t (some x) g h e = cc e
  check_network-Accepted t none g h e = subst (Accepted p) (valid-eq-valid e) (record {
    named = named;
    in_namespace = spaced;
    strategy = s;
    starts = starts;
    template = t;
    given = g;
    with_agent = refl;
    network = static_or_single;
  })
    where
      static_or_single :
          (template_has_static_network (some (record t { allow_guest_agent = true })) ≡ false)
          ⊎ (is_single p ≡ true)
      static_or_single = validate_template_network-none p t g h

  check_template-Accepted :
      (o : Option MicrovmSpec)
      → p.microvm_template ≡ o
      → check_template p o ≡ valid q
      → Accepted p q
  check_template-Accepted none g e = cc e
  check_template-Accepted (some t) g e =
      check_network-Accepted t (validate_template_network p) g refl e

-- A spec that validatePoolSpec accepts has a name and a namespace and a template, and is changed in the
-- template's allow_guest_agent only, which is set. Its reconciler can start: NewStrategy accepts its
-- replenishment strategy. And if its template has static network config, then its size is at most 1, its
-- strategy is not IMMEDIATE_ON_LEASE and its hook failure policy not QUARANTINE.
pub validate_pool_spec-Accepted : (p q : PoolSpec) → validate_pool_spec p ≡ valid q → Accepted p q
unfolding validate_pool_spec
validate_pool_spec-Accepted p q e = elim (Bool-cases (p.name == "")) [
  | inl a ↦ cc (rw a at e)
  | inr a ↦ elim (Bool-cases (p.namespace == "")) [
    | inl b ↦ cc (rw (a, b) at e)
    | inr b ↦ elim (Chosen-cases (new_strategy p.replenishment_strategy)) [
      | inr (x, c) ↦ cc (rw (a, b, c) at e)
      | inl (s, c) ↦
          check_template-Accepted p q a b s c p.microvm_template refl
            (check_policy-valid p q p.hook_failure_policy (rw (a, b, c) at e))
    ]
  ]
]
