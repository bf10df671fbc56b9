-- ===== src/Reconciler/HostPick/Least.antt =====
-- PickHost of internal/reconciler/hostpick.go chooses a least loaded eligible host.
use mathlib.Core.List.{append_assoc, append-nil}
use mathlib.Core.Path.{subst}
use battery.Prelude.{
  ℕ, ◌≡◌, refl, Bool, true, false, not, String, List, [], ◌∷◌, ◌++◌, if◌then◌else◌, ltb, arith,
  All-append, All-mono, ap, ◌∙◌, ◌↔◌,
}
use battery.Types.{VmRecord, PoolSpec}
use battery.Store.Error.{Result, ok, err}
use battery.Table.{select, any}
use battery.Reconciler.HostPick.{
  load, least, pick_host, pick_from, picked, no_eligible_host, IsFirstLeast,
}

module _ (weight : String → ℕ) where
  -- One round of the loop, after `seen` and with the best host so far among them.
  step-IsFirstLeast :
      (best h : String) (seen : List String) (b : Bool)
      → ltb (weight h) (weight best) ≡ b
      → IsFirstLeast weight seen best
      → IsFirstLeast weight (seen ++ h ∷ []) (if b then h else best)
  step-IsFirstLeast best h seen true lt i = record {
    before = seen;
    after = [];
    splits = refl;
    lighter = rw i.splits (
        All-append _ i.before (best ∷ i.after)
          (All-mono _ _ i.before (λ x l. ground (arith, lt)) i.lighter)
          (ground (arith, lt), All-mono _ _ i.after (λ x l. ground (arith, lt)) i.least_of));
    least_of = tt;
  }
  step-IsFirstLeast best h seen false ge i = record {
    before = i.before;
    after = i.after ++ h ∷ [];
    splits = ap (λ l. l ++ h ∷ []) i.splits ∙ append_assoc i.before (best ∷ i.after) (h ∷ []);
    lighter = i.lighter;
    least_of = All-append _ i.after (h ∷ []) i.least_of (ground (arith, ge), tt);
  }

  least-IsFirstLeast :
      (best : String) (seen rest : List String)
      → IsFirstLeast weight seen best
      → IsFirstLeast weight (seen ++ rest) (least weight best rest)
  unfolding least
  least-IsFirstLeast best seen [] i = rw append-nil i
  least-IsFirstLeast best seen (h ∷ hs) i = rw (append_assoc seen (h ∷ []) hs) at (
      least-IsFirstLeast (if ltb (weight h) (weight best) then h else best) (seen ++ h ∷ []) hs
        (step-IsFirstLeast best h seen (ltb (weight h) (weight best)) refl i))

  least_of-IsFirstLeast :
      (h : String) (hs : List String) → IsFirstLeast weight (h ∷ hs) (least weight h hs)
  least_of-IsFirstLeast h hs =
      least-IsFirstLeast h (h ∷ []) hs
        (record { before = []; after = []; splits = refl; lighter = tt; least_of = tt })

pick_from-IsFirstLeast :
    (hosts : List String) (vms : List VmRecord) {best : String}
    → pick_from hosts (ok vms) ≡ picked best
    → IsFirstLeast (λ h. load h vms) hosts best
pick_from-IsFirstLeast [] vms e = cc
pick_from-IsFirstLeast (h ∷ hs) vms {best} e =
    let same : least (λ x. load x vms) h hs ≡ best = cc e in
    subst (IsFirstLeast (λ x. load x vms) (h ∷ hs)) same
      (least_of-IsFirstLeast (λ x. load x vms) h hs)

-- The host that PickHost returns, given the pool's VMs, is of the pool's hosts that are not ineligible
-- and in their order the first with the least load: the fewest VMs that are neither DELETING nor FAILED.
pub pick_host-IsFirstLeast :
    (p : PoolSpec) (ineligible : String → Bool) (vms : List VmRecord) (best : String)
    → pick_host p ineligible (ok vms) ≡ picked best
    → IsFirstLeast (λ h. load h vms) (select (λ h. not (ineligible h)) p.flintlock_hosts) best
unfolding pick_host
pick_host-IsFirstLeast p ineligible vms best e =
    pick_from-IsFirstLeast (select (λ h. not (ineligible h)) p.flintlock_hosts) vms e

pick_from-none :
    (hosts : List String) (vms : Result (List VmRecord))
    → (pick_from hosts vms ≡ no_eligible_host) ↔ (hosts ≡ [])
pick_from-none [] vms = (λ _. refl, λ _. refl)
pick_from-none (h ∷ hs) (ok vms) = ground arith
pick_from-none (h ∷ hs) (err e) = ground arith

select-nil : (p : String → Bool) (xs : List String) → (select p xs ≡ []) ↔ (any p xs ≡ false)
unfolding select any
select-nil p [] = (λ _. refl, λ _. refl)
select-nil p (x ∷ xs) = ground (arith, select-nil p xs)

-- PickHost answers ErrNoEligibleHost exactly when every host of the pool is ineligible.
pub pick_host-none :
    (p : PoolSpec) (ineligible : String → Bool) (vms : Result (List VmRecord))
    → (pick_host p ineligible vms ≡ no_eligible_host)
      ↔ (any (λ h. not (ineligible h)) p.flintlock_hosts ≡ false)
unfolding pick_host
pick_host-none p ineligible vms =
    let l = select (λ (h : String). not (ineligible h)) p.flintlock_hosts in
    (
      λ e. (select-nil _ p.flintlock_hosts).0 ((pick_from-none l vms).0 e),
      λ e. (pick_from-none l vms).1 ((select-nil _ p.flintlock_hosts).1 e),
    )
