-- ===== src/World/Quiet.antt =====
-- Programs while no other goroutine calls the store: its calls may still fail, and flintlock may not
-- answer.
use battery.Prelude.{ℕ, suc, ◌≡◌, refl, String, [], ◌∷◌, Bool-cases, inl, inr, ◌⊎◌}
use battery.Store.Error.{Error, Result, ok, err, other, Result-cases}
use battery.Store.Db.{Db, Tx}
use battery.Store.Call.{run}
use battery.World.{
  World, Prog, Answer, deleted, absent, unreachable, destroyed, handle, continue, store, reached,
  connect, confirm, delete_micro_vm,
}

abbrev pub Quiet : World → Type 0
Quiet w = (t : ℕ) → w.env.others t ≡ []

Quiet-reached : (w : World) → Quiet w → reached w ≡ w.db
unfolding run
Quiet-reached w q = rw (q w.time) refl

-- What holds of the result, or error, and the world in which a program ends.
abbrev pub Ends : {A : Type 0} → Result A × World → (Result A → World → Type 0) → Type 0
Ends r P = P r.0 r.1

pub Ends-store :
    {A : Type 0} (op : Tx A) (w : World) (P : Result A → World → Type 0)
    → Quiet w
    → ((a : A) (d : Db) → op w.db ≡ ok (a, d) → P (ok a) (record w { db = d; time = suc w.time }))
    → ((e : Error) → (op w.db ≡ err e) ⊎ (e ≡ other) → P (err e) (record w { time = suc w.time }))
    → Ends (store op w) P
Ends-store op w P q k h = elim (Bool-cases (w.env.fails w.time)) [
  | inl f ↦ rw (f, Quiet-reached w q) (h other (inr refl))
  | inr f ↦ elim (Result-cases (op w.db)) [
    | inl ((a, d), e) ↦ rw (f, Quiet-reached w q, e) (k a d e)
    | inr (x, e) ↦ rw (f, Quiet-reached w q, e) (h x (inl e))
  ]
]

pub Ends-bind :
    {A B : Type 0} (r : Result A × World) (f : A → Prog B) (R : Result A → World → Type 0)
    (P : Result B → World → Type 0)
    → Ends r R
    → ((a : A) (x : World) → R (ok a) x → Ends (f a x) P)
    → ((e : Error) (x : World) → R (err e) x → P (err e) x)
    → Ends (continue r f) P
Ends-bind (ok a, x) f R P h k g = k a x h
Ends-bind (err e, x) f R P h k g = g e x h

pub Ends-handle :
    {A B : Type 0} (r : Result A × World) (g : Error → Prog B) (f : A → Prog B)
    (R : Result A → World → Type 0) (P : Result B → World → Type 0)
    → Ends r R
    → ((a : A) (x : World) → R (ok a) x → Ends (f a x) P)
    → ((e : Error) (x : World) → R (err e) x → Ends (g e x) P)
    → Ends (handle r g f) P
Ends-handle (ok a, x) g f R P h k j = k a x h
Ends-handle (err e, x) g f R P h k j = j e x h

-- Flintlock's part of a deletion leaves the database and the environment alone.
pub Ends-connect :
    (w : World) (P : Result (Unit {0}) → World → Type 0)
    → P (ok tt) w
    → P (err other) w
    → Ends (connect w) P
Ends-connect w P q e = elim (Bool-cases (w.env.connects w.time)) [ inl c ↦ rw c q | inr c ↦ rw c e ]

Ends-confirm :
    (uid : String) (a : Answer) (w : World) (P : Result (Unit {0}) → World → Type 0)
    → P (ok tt) (record w { time = suc w.time; effects = destroyed uid ∷ w.effects })
    → P (err other) (record w { time = suc w.time })
    → Ends (confirm uid a w) P
Ends-confirm uid deleted w P q e = q
Ends-confirm uid absent w P q e = q
Ends-confirm uid unreachable w P q e = e

pub Ends-delete_micro_vm :
    (uid : String) (w : World) (P : Result (Unit {0}) → World → Type 0)
    → P (ok tt) (record w { time = suc w.time; effects = destroyed uid ∷ w.effects })
    → P (err other) (record w { time = suc w.time })
    → Ends (delete_micro_vm uid w) P
Ends-delete_micro_vm uid w P q e = Ends-confirm uid (w.env.answers w.time) w P q e
