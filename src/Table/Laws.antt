-- ===== src/Table/Laws.antt =====
-- Laws of the table operations, for invariants stated row by row and for unique keys.
use mathlib.Core.Path.{subst}
use mathlib.Core.Option
use mathlib.Core.Bool.{false≢true, or-true}
use battery.Prelude.{
  sym, ap, ◌∙◌, ◌≡◌, refl, Bool, true, false, ◌||◌, none, some, List, [], ◌∷◌, ◌++◌, arith,
  if◌then◌else◌, All, Bool-cases, inl, inr, some-eq-some, ◌↔◌,
}
use battery.Table.{select, find, update, remove, any, count, insert_by, sort_by}

-- Every row that matches satisfies `P`.
module _ {ℓ κ} {A : Type ℓ} (P : A → Type κ) where
  pub All-update :
      (p : A → Bool) (f : A → A) (xs : List A)
      → ((x : A) → p x ≡ true → P x → P (f x))
      → All P xs
      → All P (update p f xs)
  unfolding update
  All-update p f [] k h = tt
  All-update p f (x ∷ xs) k h = elim (Bool-cases (p x)) [
    | inl e ↦ rw e (k x e h.0, All-update p f xs k h.1)
    | inr e ↦ rw e (h.0, All-update p f xs k h.1)
  ]

  pub All-remove : (p : A → Bool) (xs : List A) → All P xs → All P (remove p xs)
  unfolding remove
  All-remove p [] h = tt
  All-remove p (x ∷ xs) h = elim (Bool-cases (p x)) [
    | inl e ↦ rw e (All-remove p xs h.1)
    | inr e ↦ rw e (h.0, All-remove p xs h.1)
  ]

  pub All-select : (p : A → Bool) (xs : List A) → All P xs → All P (select p xs)
  unfolding select
  All-select p [] h = tt
  All-select p (x ∷ xs) h = elim (Bool-cases (p x)) [
    | inl e ↦ rw e (h.0, All-select p xs h.1)
    | inr e ↦ rw e (All-select p xs h.1)
  ]

  pub All-insert_by :
      (le : A → A → Bool) (a : A) (xs : List A) → P a → All P xs → All P (insert_by le a xs)
  unfolding insert_by
  All-insert_by le a [] h hs = (h, tt)
  All-insert_by le a (x ∷ xs) h hs = elim (Bool-cases (le a x)) [
    | inl e ↦ rw e (h, hs)
    | inr e ↦ rw e (hs.0, All-insert_by le a xs h hs.1)
  ]

  pub All-sort_by : (le : A → A → Bool) (xs : List A) → All P xs → All P (sort_by le xs)
  unfolding sort_by
  All-sort_by le [] h = tt
  All-sort_by le (x ∷ xs) h = All-insert_by le x (sort_by le xs) h.0 (All-sort_by le xs h.1)

  pub All-find : (p : A → Bool) (xs : List A) {a : A} → All P xs → find p xs ≡ some a → P a
  unfolding find
  All-find p [] h e = cc
  All-find p (x ∷ xs) h e = elim (Bool-cases (p x)) [
    | inl t ↦ subst P (some-eq-some (rw t at e)) h.0
    | inr t ↦ All-find p xs h.1 (rw t at e)
  ]

module _ {ℓ} {A : Type ℓ} where
  pub find-matches : (p : A → Bool) (xs : List A) {a : A} → find p xs ≡ some a → p a ≡ true
  unfolding find
  find-matches p [] e = cc
  find-matches p (x ∷ xs) e = elim (Bool-cases (p x)) [
    | inl t ↦ subst (λ y. p y ≡ true) (some-eq-some (rw t at e)) t
    | inr t ↦ find-matches p xs (rw t at e)
  ]

  pub find-none : (p : A → Bool) (xs : List A) → any p xs ≡ false → find p xs ≡ none
  unfolding find any
  find-none p [] e = refl
  find-none p (x ∷ xs) e = ground (arith, find-none p xs)

  pub any_of_find : (p : A → Bool) (xs : List A) {a : A} → find p xs ≡ some a → any p xs ≡ true
  unfolding find any
  any_of_find p [] e = cc
  any_of_find p (x ∷ xs) {a} e = ground (arith, any_of_find p xs {a = a})

  pub any_of_find-none : (p : A → Bool) (xs : List A) → find p xs ≡ none → any p xs ≡ false
  unfolding find any
  any_of_find-none p [] e = refl
  any_of_find-none p (x ∷ xs) e = ground (arith, any_of_find-none p xs)

  -- The row found passes another test.
  pub any-find :
      (p q : A → Bool) (xs : List A) {a : A} → find p xs ≡ some a → q a ≡ true → any q xs ≡ true
  unfolding find any
  any-find p q [] e h = cc
  any-find p q (x ∷ xs) {a} e h = elim (Bool-cases (p x)) [
    | inl t ↦ let same : x ≡ a = some-eq-some (rw t at e) in rw (ap q same, h) refl
    | inr t ↦ rw (any-find p q xs {a = a} (rw t at e) h) (or-true (q x))
  ]

  -- An UPDATE that affects some row leaves a row that has been set.
  pub any-update_hit :
      (p q : A → Bool) (f : A → A) (xs : List A)
      → any p xs ≡ true
      → ((x : A) → p x ≡ true → q (f x) ≡ true)
      → any q (update p f xs) ≡ true
  unfolding update any
  any-update_hit p q f [] e k = e
  any-update_hit p q f (x ∷ xs) e k = elim (Bool-cases (p x)) [
    | inl t ↦ rw (t, k x t) refl
    | inr t ↦ rw (t, any-update_hit p q f xs (rw t at e) k) (or-true (q x))
  ]

  pub any-append : (p : A → Bool) (xs ys : List A) → any p (xs ++ ys) ≡ (any p xs || any p ys)
  unfolding any
  any-append p [] ys = refl
  any-append p (x ∷ xs) ys = ground (arith, any-append p xs ys)

  pub any-remove : (p q : A → Bool) (xs : List A) → any q xs ≡ false → any q (remove p xs) ≡ false
  unfolding remove any
  any-remove p q [] e = refl
  any-remove p q (x ∷ xs) e = ground (arith, any-remove p q xs)

  -- After DELETE WHERE p no row matches `p`.
  pub any-remove_self : (p : A → Bool) (xs : List A) → any p (remove p xs) ≡ false
  unfolding remove any
  any-remove_self p [] = refl
  any-remove_self p (x ∷ xs) = ground (arith, any-remove_self p xs)

  pub remove-none : (p : A → Bool) (xs : List A) → any p xs ≡ false → remove p xs ≡ xs
  unfolding remove any
  remove-none p [] e = refl
  remove-none p (x ∷ xs) e = ground (arith, remove-none p xs)

  pub update-none : (p : A → Bool) (f : A → A) (xs : List A) → any p xs ≡ false → update p f xs ≡ xs
  unfolding update any
  update-none p f [] e = refl
  update-none p f (x ∷ xs) e = ground (arith, update-none p f xs)

  -- An UPDATE leaves a test that it does not affect.
  pub any-update :
      (p q : A → Bool) (f : A → A) (xs : List A)
      → ((x : A) → q (f x) ≡ q x)
      → any q (update p f xs) ≡ any q xs
  unfolding update any
  any-update p q f [] k = refl
  any-update p q f (x ∷ xs) k = ground (arith, k x, any-update p q f xs k)

  pub find-update :
      (p q : A → Bool) (f : A → A) (xs : List A)
      → ((x : A) → q (f x) ≡ q x)
      → find q (update p f xs) ≡ Option.map (λ x. if p x then f x else x) (find q xs)
  unfolding update find
  find-update p q f [] k = refl
  find-update p q f (x ∷ xs) k = ground (arith, k x, find-update p q f xs k)

  -- A DELETE leaves the rows that it does not match.
  pub find-remove :
      (p q : A → Bool) (xs : List A)
      → ((x : A) → q x ≡ true → p x ≡ false)
      → find q (remove p xs) ≡ find q xs
  unfolding remove find
  find-remove p q [] k = refl
  find-remove p q (x ∷ xs) k = ground (arith, k x, find-remove p q xs k)

  pub find-append :
      (p : A → Bool) (xs ys : List A)
      → find p (xs ++ ys) ≡ (if any p xs then find p xs else find p ys)
  unfolding find any
  find-append p [] ys = refl
  find-append p (x ∷ xs) ys = ground (arith, find-append p xs ys)

  pub count-insert_by :
      (q : A → Bool) (le : A → A → Bool) (a : A) (xs : List A)
      → count q (insert_by le a xs) ≡ count q (a ∷ xs)
  unfolding insert_by count
  count-insert_by q le a [] = refl
  count-insert_by q le a (x ∷ xs) = ground (arith, count-insert_by q le a xs)

  -- ORDER BY keeps every row, as often.
  pub count-sort_by :
      (q : A → Bool) (le : A → A → Bool) (xs : List A) → count q (sort_by le xs) ≡ count q xs
  unfolding sort_by count
  count-sort_by q le [] = refl
  count-sort_by q le (x ∷ xs) =
      ground (arith, count-insert_by q le x (sort_by le xs), count-sort_by q le xs)

  pub count-zero_iff : (q : A → Bool) (xs : List A) → (count q xs ≡ 0) ↔ (any q xs ≡ false)
  unfolding count any
  count-zero_iff q [] = (λ _. refl, λ _. refl)
  count-zero_iff q (x ∷ xs) = ground (arith, count-zero_iff q xs)

  pub any-ext : (p q : A → Bool) (xs : List A) → ((x : A) → p x ≡ q x) → any p xs ≡ any q xs
  unfolding any
  any-ext p q [] k = refl
  any-ext p q (x ∷ xs) k = ground (arith, k x, any-ext p q xs k)

  -- A DELETE leaves a test of the rows that it does not match.
  pub any-remove_apart :
      (p q : A → Bool) (xs : List A)
      → ((x : A) → q x ≡ true → p x ≡ false)
      → any q (remove p xs) ≡ any q xs
  unfolding remove any
  any-remove_apart p q [] k = refl
  any-remove_apart p q (x ∷ xs) k = ground (arith, k x, any-remove_apart p q xs k)

  pub All_of_any : (q : A → Bool) (xs : List A) → any q xs ≡ false → All (λ x. q x ≡ false) xs
  unfolding any
  All_of_any q [] e = tt
  All_of_any q (x ∷ xs) e = elim (Bool-cases (q x)) [
    | inl t ↦ absurd (false≢true (sym e ∙ rw t))
    | inr t ↦ (t, All_of_any q xs (rw t at e))
  ]
