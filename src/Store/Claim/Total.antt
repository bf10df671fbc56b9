-- ===== src/Store/Claim/Total.antt =====
-- When ClaimAvailableVM succeeds, and that two claims never take one VM.
use mathlib.Core.Path.{subst}
use battery.Prelude.{
  ℕ, ◌≡◌, ◌≢◌, refl, sym, ap, ◌∙◌, Bool, true, false, ◌&&◌, some, String, List, [], ◌∷◌, arith,
  ◌==◌, string_eq, Bool-cases, Option-cases, inl, inr, ◌⊎◌, beq_refl, some-eq-some,
}
use battery.Types.{VmRecord, available, phase_eq}
use battery.Table.{select, find, update, any}
use battery.Store.Error.{ok, err, no_available_vm}
use battery.Store.Rows.{VmRow, row_to_vm}
use battery.Store.Db.{Db, choose, commit}
use battery.Store.Vms.{has_uid, is_claimable, mark_leased, claim_available_vm}
use battery.Store.WellFormed.{WellFormed, step-WellFormed}
use battery.Store.Call.{Call}
use battery.Store.Claim.{
  Claimed, choose-none, chosen-claimable, chosen-found, claim-find, claimable-available,
  claim_available_vm-Claimed,
}

select-some : (p : VmRow → Bool) (xs : List VmRow) → any p xs ≡ true → select p xs ≢ []
unfolding select any
select-some p [] e h = cc
select-some p (x ∷ xs) e h = ground (arith, select-some p xs)

select-none : (p : VmRow → Bool) (xs : List VmRow) → any p xs ≡ false → select p xs ≡ []
unfolding select any
select-none p [] e = refl
select-none p (x ∷ xs) e = ground (arith, select-none p xs)

find-any :
    (uid : String) (p : VmRow → Bool) (xs : List VmRow) (v : VmRow)
    → find (has_uid uid) xs ≡ some v
    → p v ≡ true
    → any (λ x. x.uid == uid && p x) xs ≡ true
unfolding find any
find-any uid p [] v e f = cc
find-any uid p (x ∷ xs) v e f = elim (Bool-cases (x.uid == uid)) [
  | inl t ↦ rw (t, ap p (some-eq-some (rw t at e)), f)
  | inr t ↦ rw t (find-any uid p xs v (rw t at e) f)
]

-- In a well-formed database a claim succeeds if some VM of the pool is AVAILABLE, whichever SQLite
-- chooses, and otherwise fails with ErrNoAvailableVM.
pub claim_available_vm_total :
    (now i : ℕ) (n s : String) (d : Db)
    → WellFormed d
    → ((any (is_claimable n s) d.vms ≡ true)
        × (v : VmRecord) × (d' : Db) × (claim_available_vm now i n s d ≡ ok (v, d')))
      ⊎ ((any (is_claimable n s) d.vms ≡ false)
          × (claim_available_vm now i n s d ≡ err no_available_vm))
unfolding claim_available_vm choose
claim_available_vm_total now i n s d w = elim (Bool-cases (any (is_claimable n s) d.vms)) [
  | inr no_vm ↦ inr (no_vm, rw (select-none (is_claimable n s) d.vms no_vm, choose))
  | inl vm ↦ elim (Option-cases (choose i (select (is_claimable n s) d.vms))) [
    | inl e ↦ absurd (select-some (is_claimable n s) d.vms vm (choose-none i _ e))
    | inr (chosen, e) ↦
        let fits = chosen-claimable now n s d w chosen i e in
        let found = chosen-found now n s d w chosen i e in
        let free = claimable-available n s chosen fits in
        let again = claim-find now n s d w chosen found free chosen.uid in
        inl (
          vm,
          row_to_vm (mark_leased now chosen),
          claimed now chosen,
          rw
              (
                e,
                find-any chosen.uid (λ v. v.phase == available) d.vms chosen found free,
                again,
                beq_refl chosen.uid,
              )
              refl,
        )
  ]
]
  where
    claimed : ℕ → VmRow → Db
    claimed now chosen = record d {
      vms = update (λ v. v.uid == chosen.uid && v.phase == available) (mark_leased now) d.vms;
    }

not-claimable : (n s : String) (t : ℕ) (v : VmRow) → is_claimable n s (mark_leased t v) ≢ true
not-claimable n s t v e = ground arith

-- Two claims, the second right after the first in a well-formed database, of one pool or of two, never take the
-- same VM.
pub claims_distinct :
    (t i u j : ℕ) (n s m r : String) (d d' d'' : Db) (v w : VmRecord)
    → WellFormed d
    → claim_available_vm t i n s d ≡ ok (v, d')
    → claim_available_vm u j m r d' ≡ ok (w, d'')
    → v.uid ≢ w.uid
unfolding row_to_vm
claims_distinct t i u j n s m r d d' d'' v w wd e f same =
    not-claimable m r t first.row
      (subst (λ x. is_claimable m r x ≡ true) second-row second.claimable)
  where
    wd' : WellFormed d'
    wd' =
        subst WellFormed (ap (commit d) e) (step-WellFormed d (Call.claim_available_vm t i n s) wd)

    first : Claimed t n s d v d'
    first = claim_available_vm-Claimed t i n s d v d' wd e

    second : Claimed u m r d' w d''
    second = claim_available_vm-Claimed u j m r d' w d'' wd' f

    uids : first.row.uid ≡ second.row.uid
    uids = cc (ap (λ (x : VmRecord). x.uid) first.given, ap (λ (x : VmRecord). x.uid) second.given)

    second-row : second.row ≡ mark_leased t first.row
    second-row =
        some-eq-some
          (sym second.was ∙ first.vms second.row.uid ∙ rw (uids, beq_refl second.row.uid))
