-- ===== src/Api/Pools/Registered.antt =====
-- checkFlintlockHosts of internal/api/pooladmin.go.
use battery.Prelude.{
  ◌≡◌, ◌≢◌, ◌↔◌, refl, String, Bool, true, false, not, List, [], ◌∷◌, ◌++◌, ◌==◌, string_eq,
  Bool-cases, inl, inr,
}
use battery.Types.{PoolSpec, Host}
use battery.Table.{any}
use battery.Store.Error.{ok, ok-eq-ok}
use battery.Api.Pools.{check_flintlock_hosts, unknown_hosts}

append-nonempty : (u : List String) (h : String) → u ++ h ∷ [] ≢ []
append-nonempty [] h e = cc e
append-nonempty (x ∷ xs) h e = cc e

unknown_hosts-nil :
    (known : String → Bool) (hs u : List String)
    → (unknown_hosts known hs u ≡ []) ↔ ((u ≡ []) × (any (λ h. not (known h)) hs ≡ false))
unfolding any
unknown_hosts-nil known [] u = (λ e. (e, refl), λ e. e.0)
unknown_hosts-nil known (h ∷ hs) u = elim (Bool-cases (known h)) [
  | inl k ↦ rw k (unknown_hosts-nil known hs u)
  | inr k ↦ elim (Bool-cases (any (λ x. x == h) u)) [
    | inl m ↦
        rw (k, m)
          (
            λ e. absurd (listed u h m ((unknown_hosts-nil known hs u).0 e).0),
            λ e. absurd (cc (e.1)),
          )
    | inr m ↦
        rw (k, m)
          (
            λ e. absurd (append-nonempty u h ((unknown_hosts-nil known hs (u ++ h ∷ [])).0 e).0),
            λ e. absurd (cc (e.1)),
          )
  ]
]
  where
    listed : (u : List String) (h : String) → any (λ x. x == h) u ≡ true → u ≢ []
    listed [] h m e = cc m
    listed (x ∷ xs) h m e = cc e

-- checkFlintlockHosts, given the registered hosts, reports no name exactly when each of the pool's hosts
-- is the name of a registered one.
pub check_flintlock_hosts-none :
    (p : PoolSpec) (hosts : List Host)
    → (check_flintlock_hosts p (ok hosts) ≡ ok [])
      ↔ (any (λ name. not (any (λ h. h.name == name) hosts)) p.flintlock_hosts ≡ false)
unfolding check_flintlock_hosts
check_flintlock_hosts-none p hosts =
    let known = λ (name : String). any (λ (h : Host). h.name == name) hosts in
    (
      λ e. ((unknown_hosts-nil known p.flintlock_hosts []).0 (ok-eq-ok e)).1,
      λ e. rw ((unknown_hosts-nil known p.flintlock_hosts []).1 (refl, e)) refl,
    )
