-- ===== src/Reconciler/HostPick.antt =====
-- internal/reconciler/hostpick.go: the host for a new VM.
pub mod Least
use battery.Prelude.{
  ℕ, ◌≤◌, ◌<◌, ◌≡◌, refl, Bool, true, false, ◌&&◌, ◌||◌, not, Option, none, some, String, List, [],
  ◌∷◌, ◌++◌, ◌==◌, string_eq, if◌then◌else◌, ltb, arith, All, Bool-cases, inl, inr, beq→eq,
  All-append, All-mono, sym, ap, ◌∙◌,
}
use battery.Store.Error.{Error, Result, ok, err}
use battery.Types.{VmRecord, PoolSpec, Host, deleting, failed, phase_eq}
use battery.Table.{select, any, count}
use battery.Table.Laws.{All-select}

-- VMs that are neither DELETING nor FAILED count towards their host.
abbrev pub burdens : String → VmRecord → Bool
burdens host v = not (v.phase == deleting || v.phase == failed) && v.flintlock_host == host

unfoldable pub load : String → List VmRecord → ℕ
load host vms = count (burdens host) vms

-- The loop over hosts[1:].
unfoldable pub least : (String → ℕ) → String → List String → String
least weight best [] = best
least weight best (h ∷ hs) = least weight (if ltb (weight h) (weight best) then h else best) hs

-- `no_eligible_host` is ErrNoEligibleHost, and `unlisted` an error of ListVMsByPool.
pub data Picked : Type 0 where
  picked : String → Picked
  no_eligible_host : Picked
  unlisted : Error → Picked

abbrev pub pick_from : List String → Result (List VmRecord) → Picked
pick_from [] vms = no_eligible_host
pick_from (h ∷ hs) (ok vms) = picked (least (λ x. load x vms) h hs)
pick_from (h ∷ hs) (err e) = unlisted e

-- `vms` is what ListVMsByPool answers for the pool.
unfoldable pub pick_host : PoolSpec → (String → Bool) → Result (List VmRecord) → Picked
unfolding load least
pick_host p ineligible vms = pick_from (select (λ h. not (ineligible h)) p.flintlock_hosts) vms

-- The map from name to cordoned; of two hosts with one name the later entry stays.
unfoldable pub cordoned_of : String → List Host → Option Bool
cordoned_of name [] = none
cordoned_of name (h ∷ hs) = elim (cordoned_of name hs) [
  | some c ↦ some c
  | none ↦ if h.name == name then some h.cordoned else none
]

-- Cordoned, or not registered.
abbrev is_ineligible : List Host → String → Bool
is_ineligible registered name = elim (cordoned_of name registered) [ none ↦ true | some c ↦ c ]

-- The set of names as its test, from what ListHosts answers.
unfoldable pub ineligible_hosts : PoolSpec → Result (List Host) → Result (String → Bool)
unfolding cordoned_of
ineligible_hosts p (ok registered) =
    ok (λ name. any (λ h. h == name) p.flintlock_hosts && is_ineligible registered name)
ineligible_hosts p (err e) = err e

-- `best` has the least weight in `hosts`, and less than every host before it.
pub record IsFirstLeast (weight : String → ℕ) (hosts : List String) (best : String) : Type 0 where
  pub before : List String
  pub after : List String
  pub splits : hosts ≡ before ++ best ∷ after
  pub lighter : All (λ h. weight best < weight h) before
  pub least_of : All (λ h. weight best ≤ weight h) after
