-- ===== src/Store/Claim.antt =====
-- ClaimAvailableVM of internal/store/sqlite.go.
use mathlib.Core.Path.{subst}
pub mod Total
use mathlib.Core.Option
use battery.Prelude.{
  str_beq_sym, zero, suc, All, ℕ, ◌≡◌, ◌≢◌, refl, sym, ap, ◌∙◌, Bool, true, false, ◌&&◌, not,
  Option, none, some, String, List, [], ◌∷◌, ◌++◌, if◌then◌else◌, arith, ◌==◌, string_eq,
  Bool-cases, Option-cases, inl, inr, ◌↔◌, beq→eq, beq_refl, some-eq-some,
}
use battery.Types.{VmRecord, available, leased, phase_eq}
use battery.Table.{select, find, update, any}
use battery.Table.Laws.{find-matches, find-update, any_of_find, All-select, find-none}
use battery.Table.Keys.{Unique, Unique-find}
use battery.Store.Error.{Result, ok, err, no_available_vm}
use battery.Store.Rows.{VmRow, row_to_vm}
use battery.Store.Db.{Db, choose, commit}
use battery.Store.Vms.{has_uid, same_vm, is_claimable, mark_leased, claim_available_vm}
use battery.Store.Outcomes.{Post, Post-ok}
use battery.Store.Outcomes.Vms.{claim_available_vm-Post}
use battery.Store.WellFormed.{WellFormed}

choose-All :
    (P : VmRow → Type 0) (i : ℕ) (rows : List VmRow) {row : VmRow}
    → All P rows
    → choose i rows ≡ some row
    → P row
unfolding choose
choose-All P i [] h e = cc
choose-All P zero (x ∷ xs) h e = subst P (some-eq-some e) h.0
choose-All P (suc i) (x ∷ []) h e = subst P (some-eq-some e) h.0
choose-All P (suc i) (x ∷ y ∷ xs) h e = choose-All P i (y ∷ xs) h.1 e

pub choose-none : (i : ℕ) (rows : List VmRow) → choose i rows ≡ none → rows ≡ []
unfolding choose
choose-none i [] e = refl
choose-none zero (x ∷ xs) e = cc
choose-none (suc i) (x ∷ []) e = cc
choose-none (suc i) (x ∷ y ∷ xs) e = cc (choose-none i (y ∷ xs) e)

-- What a claim of a VM of pool (n, s) from `d` to `d'` has done: `v` was AVAILABLE in that pool, it is
-- LEASED with its other columns as they were but `updated_at`, and no other VM has changed.
pub record Claimed (now : ℕ) (n s : String) (d : Db) (v : VmRecord) (d' : Db) : Type 0 where
  pub row : VmRow
  pub was : find (has_uid row.uid) d.vms ≡ some row
  pub claimable : is_claimable n s row ≡ true
  pub given : v ≡ row_to_vm (mark_leased now row)
  pub vms :
      (uid : String)
      → find (has_uid uid) d'.vms
        ≡ (if row.uid == uid then some (mark_leased now row) else find (has_uid uid) d.vms)
  pub rest : d' ≡ record d { vms = d'.vms }

select-matches : (p : VmRow → Bool) (xs : List VmRow) → All (λ x. p x ≡ true) (select p xs)
unfolding select
select-matches p [] = tt
select-matches p (x ∷ xs) = elim (Bool-cases (p x)) [
  | inl e ↦ rw e (e, select-matches p xs)
  | inr e ↦ rw e (select-matches p xs)
]

module _ (now : ℕ) (n s : String) (d : Db) (w : WellFormed d) (chosen : VmRow) where
  module _ (i : ℕ) (e : choose i (select (is_claimable n s) d.vms) ≡ some chosen) where
    chosen-claimable : is_claimable n s chosen ≡ true
    chosen-claimable = choose-All _ i _ (select-matches (is_claimable n s) d.vms) e

    chosen-found : find (has_uid chosen.uid) d.vms ≡ some chosen
    chosen-found =
        choose-All _ i _
          (All-select _ (is_claimable n s) d.vms
            (Unique-find same_vm d.vms (λ x. beq_refl x.uid) w.vm_keys))
          e

  -- The UPDATE of a claim changes the row of the VM chosen and no other.
  pub claim-find :
      find (has_uid chosen.uid) d.vms ≡ some chosen
      → (chosen.phase == available) ≡ true
      → (uid : String)
      → find
          (has_uid uid)
          (update (λ v. v.uid == chosen.uid && v.phase == available) (mark_leased now) d.vms)
        ≡ (if chosen.uid == uid then some (mark_leased now chosen) else find (has_uid uid) d.vms)
  claim-find found free uid = elim (Bool-cases (chosen.uid == uid)) [
    | inl same ↦ rw same (
        subst (λ u. find (has_uid u) after ≡ some (mark_leased now chosen))
          (beq→eq chosen.uid uid same) (step chosen.uid ∙ rw (found, beq_refl chosen.uid, free)))
    | inr off ↦ rw off (elim (Option-cases (find (has_uid uid) d.vms)) [
      | inl e ↦ step uid ∙ rw e
      | inr (row, e) ↦ step uid ∙ rw (e, other row off e)
    ])
  ]
    where
      p : VmRow → Bool
      p v = v.uid == chosen.uid && v.phase == available

      after : List VmRow
      after = update p (mark_leased now) d.vms

      step :
          (u : String)
          → find (has_uid u) after
            ≡ Option.map (λ x. if p x then mark_leased now x else x) (find (has_uid u) d.vms)
      step u = find-update p (has_uid u) (mark_leased now) d.vms (λ x. refl)

      other :
          (row : VmRow)
          → (chosen.uid == uid) ≡ false
          → find (has_uid uid) d.vms ≡ some row
          → (row.uid == chosen.uid) ≡ false
      other row off e =
          rw (beq→eq row.uid uid (find-matches (has_uid uid) d.vms e), str_beq_sym uid chosen.uid)
            off

pub claimable-available :
    (n s : String) (v : VmRow) → is_claimable n s v ≡ true → (v.phase == available) ≡ true
claimable-available n s v e = ground arith

-- A claim in a well-formed database that succeeds has taken a VM that was AVAILABLE in the pool: the
-- record returned is its row, marked LEASED, and nothing else in the database has changed.
pub claim_available_vm-Claimed :
    (now i : ℕ) (n s : String) (d : Db) (v : VmRecord) (d' : Db)
    → WellFormed d
    → claim_available_vm now i n s d ≡ ok (v, d')
    → Claimed now n s d v d'
claim_available_vm-Claimed now i n s d v d' w e =
    Post-ok (claim_available_vm now i n s d) (Claimed now n s d)
      (claim_available_vm-Post d now i n s (Claimed now n s d) by_choice) e
  where
    by_choice :
        (chosen : VmRow)
        → choose i (select (is_claimable n s) d.vms) ≡ some chosen
        → (row : VmRow)
        → find
            (has_uid chosen.uid)
            (update (λ v. v.uid == chosen.uid && v.phase == available) (mark_leased now) d.vms)
          ≡ some row
        → any (λ v. v.uid == chosen.uid && v.phase == available) d.vms ≡ true
        → Claimed now n s d (row_to_vm row) (record d {
          vms = update (λ v. v.uid == chosen.uid && v.phase == available) (mark_leased now) d.vms;
        })
    by_choice chosen e row reloaded _ =
        let fits = chosen-claimable now n s d w chosen i e in
        let found = chosen-found now n s d w chosen i e in
        let vms = claim-find now n s d w chosen found (claimable-available n s chosen fits) in
        record {
          row = chosen;
          was = found;
          claimable = fits;
          given =
              ap row_to_vm
                (some-eq-some (sym reloaded ∙ vms chosen.uid ∙ rw (beq_refl chosen.uid)));
          vms = vms;
          rest = refl;
        }
