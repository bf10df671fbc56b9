-- ===== src/Table/Keys.antt =====
-- Unique keys. `same x y` says that the rows `x` and `y` carry the same key; a nullable column that
-- is NULL in both is never the same.
use battery.Prelude.{
  true, some, All, All-zip, ◌≡◌, refl, Bool, false, List, [], ◌∷◌, ◌++◌, arith, Bool-cases, inl,
  inr,
}
use battery.Table.{find, update, remove, any}
use battery.Table.Laws.{All_of_any, any-remove, any-append, any-update, any-ext}

module _ {ℓ} {A : Type ℓ} where
  -- No two rows carry the same key.
  abbrev pub Unique : (A → A → Bool) → List A → Type 0
  Unique same [] = Unit {0}
  Unique same (x ∷ xs) = (any (same x) xs ≡ false) × Unique same xs

module _ {ℓ} {A : Type ℓ} (same : A → A → Bool) where
  pub Unique-remove : (p : A → Bool) (xs : List A) → Unique same xs → Unique same (remove p xs)
  unfolding remove
  Unique-remove p [] u = tt
  Unique-remove p (x ∷ xs) u = elim (Bool-cases (p x)) [
    | inl e ↦ rw e (Unique-remove p xs u.1)
    | inr e ↦ rw e (any-remove p (same x) xs u.0, Unique-remove p xs u.1)
  ]

  -- An INSERT whose key no row carries.
  pub Unique-append :
      (a : A) (xs : List A)
      → any (λ x. same x a) xs ≡ false
      → Unique same xs
      → Unique same (xs ++ a ∷ [])
  unfolding any
  Unique-append a [] e u = (refl, tt)
  Unique-append a (x ∷ xs) e u =
      (ground (arith, any-append (same x) xs (a ∷ [])), Unique-append a xs (ground arith) u.1)

  -- An UPDATE that leaves the key columns alone.
  pub Unique-update :
      (p : A → Bool) (f : A → A) (xs : List A)
      → ((x y : A) → same (f x) y ≡ same x y)
      → ((x y : A) → same x (f y) ≡ same x y)
      → Unique same xs
      → Unique same (update p f xs)
  unfolding update
  Unique-update p f [] kl kr u = tt
  Unique-update p f (x ∷ xs) kl kr u = elim (Bool-cases (p x)) [
    | inl e ↦ rw e (
      rw (any-update p (same (f x)) f xs (kr (f x)))
          (rw (any-ext (same (f x)) (same x) xs (kl x)) u.0),
      Unique-update p f xs kl kr u.1,
    )
    | inr e ↦ rw e (rw (any-update p (same x) f xs (kr x)) u.0, Unique-update p f xs kl kr u.1)
  ]

  -- The key of a row finds that row.
  pub Unique-find :
      (xs : List A)
      → ((x : A) → same x x ≡ true)
      → Unique same xs
      → All (λ r. find (λ x. same x r) xs ≡ some r) xs
  unfolding find
  Unique-find [] reflexive u = tt
  Unique-find (x ∷ xs) reflexive u = (
    rw (reflexive x),
    All-zip (λ r. same x r ≡ false) (λ r. find (λ y. same y r) xs ≡ some r) _ xs
        (λ r off found. rw (off, found)) (All_of_any (same x) xs u.0)
        (Unique-find xs reflexive u.1),
  )
