-- ===== src/World/Rules.antt =====
-- Case rules for programs: what holds when a program has returned, by its last action.
use mathlib.Core.Path.{subst}
use battery.Prelude.{suc, ◌≡◌, refl, String, ◌∷◌, Bool-cases, inl, inr, ◌⊎◌}
use battery.Store.Error.{Error, Result, ok, err, other, Result-cases}
use battery.Store.Db.{Db, Tx}
use battery.World.{
  World, Prog, Answer, deleted, absent, unreachable, destroyed, continue, store, reached, connect,
  confirm, delete_micro_vm,
}

-- `Q` of the value and the world if the program succeeds, and `E` of the world if it fails.
abbrev pub Then : {A : Type 0} → Result A × World → (A → World → Type 0) → (World → Type 0) → Type 0
Then (ok a, w) Q E = Q a w
Then (err e, w) Q E = E w

pub Then-bind :
    {A B : Type 0} (r : Result A × World) (f : A → Prog B) (Q : B → World → Type 0)
    (E : World → Type 0)
    → Then r (λ a w. Then (f a w) Q E) E
    → Then (continue r f) Q E
Then-bind (ok a, w) f Q E h = h
Then-bind (err e, w) f Q E h = h

pub Then-store :
    {A : Type 0} (op : Tx A) (w : World) (Q : A → World → Type 0) (E : World → Type 0)
    → ((a : A) (d : Db) → op (reached w) ≡ ok (a, d) → Q a (record w { db = d; time = suc w.time }))
    → E (record w { db = reached w; time = suc w.time })
    → Then (store op w) Q E
Then-store op w Q E k h = elim (Bool-cases (w.env.fails w.time)) [
  | inl f ↦ rw f h
  | inr f ↦ rw f (elim (Result-cases (op (reached w))) [
    | inl ((a, d), e) ↦ rw e (k a d e)
    | inr (x, e) ↦ rw e h
  ])
]

pub Then-connect :
    (w : World) (Q : Unit {0} → World → Type 0) (E : World → Type 0)
    → Q tt w
    → E w
    → Then (connect w) Q E
Then-connect w Q E q e = elim (Bool-cases (w.env.connects w.time)) [
  | inl c ↦ rw c q
  | inr c ↦ rw c e
]

confirm-Then :
    (uid : String) (a : Answer) (w : World) (Q : Unit {0} → World → Type 0) (E : World → Type 0)
    → Q tt (record w { time = suc w.time; effects = destroyed uid ∷ w.effects })
    → E (record w { time = suc w.time })
    → Then (confirm uid a w) Q E
confirm-Then uid deleted w Q E q e = q
confirm-Then uid absent w Q E q e = q
confirm-Then uid unreachable w Q E q e = e

pub Then-delete_micro_vm :
    (uid : String) (w : World) (Q : Unit {0} → World → Type 0) (E : World → Type 0)
    → Q tt (record w { time = suc w.time; effects = destroyed uid ∷ w.effects })
    → E (record w { time = suc w.time })
    → Then (delete_micro_vm uid w) Q E
Then-delete_micro_vm uid w Q E q e = confirm-Then uid (w.env.answers w.time) w Q E q e

pub Then-ok :
    {A : Type 0} (r : Result A × World) (Q : A → World → Type 0) (E : World → Type 0) {a : A}
    {w : World}
    → Then r Q E
    → r ≡ (ok a, w)
    → Q a w
Then-ok r Q E h e = subst (λ x. Then x Q E) e h

pub Then-err :
    {A : Type 0} (r : Result A × World) (Q : A → World → Type 0) (E : World → Type 0) {x : Error}
    {w : World}
    → Then r Q E
    → r ≡ (err x, w)
    → E w
Then-err r Q E h e = subst (λ x. Then x Q E) e h

-- The two ways in which a program can return.
pub Then-cases :
    {A : Type 0} (r : Result A × World) (Q : A → World → Type 0) (E : World → Type 0)
    → Then r Q E
    → ((a : A) × (x : World) × (r ≡ (ok a, x)) × Q a x)
      ⊎ ((e : Error) × (x : World) × (r ≡ (err e, x)) × E x)
Then-cases (ok a, x) Q E h = inl (a, x, refl, h)
Then-cases (err e, x) Q E h = inr (e, x, refl, h)

pub Then-mono :
    {A : Type 0} (r : Result A × World) {Q R : A → World → Type 0} {E F : World → Type 0}
    → ((a : A) (x : World) → Q a x → R a x)
    → ((x : World) → E x → F x)
    → Then r Q E
    → Then r R F
Then-mono (ok a, x) f g h = f a x h
Then-mono (err e, x) f g h = g x h

-- A store call whose error is kept as a value.
pub attempt_cases :
    {A : Type 0} (op : Tx A) (w : World) (P : Result A → World → Type 0)
    → ((a : A) (d : Db)
        → op (reached w) ≡ ok (a, d)
        → P (ok a) (record w { db = d; time = suc w.time }))
    → ((e : Error) → P (err e) (record w { db = reached w; time = suc w.time }))
    → P (store op w).0 (store op w).1
attempt_cases op w P k h = elim (Bool-cases (w.env.fails w.time)) [
  | inl f ↦ rw f (h other)
  | inr f ↦ rw f (elim (Result-cases (op (reached w))) [
    | inl ((a, d), e) ↦ rw e (k a d e)
    | inr (x, e) ↦ rw e (h x)
  ])
]
