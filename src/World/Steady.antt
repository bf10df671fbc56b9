-- ===== src/World/Steady.antt =====
-- Programs that keep a property of the database, while no other goroutine calls the store: the store
-- calls may fail, and nothing need answer. `Holds P m` says that `m` keeps `P`, and `Safe P m` that it
-- also ends without an error.
use battery.Prelude.{
  ◌≡◌, String, Bool, List, [], ◌∷◌, true, false, if◌then◌else◌, Option, none, some,
}
use battery.Store.Error.{Error, Result, ok, err, other}
use battery.Store.Db.{Db, Tx}
use battery.World.{
  World, Prog, ◌>>=◌, continue, handle, try, check, store, connect, delete_micro_vm, execute,
  execute_all, is_success, Answer, deleted, absent, unreachable, confirm, obtain,
}
use battery.World.Quiet.{Quiet, Ends, Ends-store}

abbrev pub Steady : (Db → Type 0) → World → Type 0
Steady P x = Quiet x × P x.db

abbrev pub Calm : {A : Type 0} → (Db → Type 0) → Result A → World → Type 0
Calm P (ok a) x = Steady P x
Calm P (err e) x = true ≡ false

abbrev pub Holds : {A : Type 0} → (Db → Type 0) → Prog A → Type 0
Holds P m = (w : World) → Steady P w → Steady P (m w).1

abbrev pub Safe : {A : Type 0} → (Db → Type 0) → Prog A → Type 0
Safe P m = (w : World) → Steady P w → Ends (m w) (Calm P)

-- A store call keeps `P` if it does where it succeeds.
abbrev pub Keeps : {A : Type 0} → (Db → Type 0) → Tx A → Type 0
Keeps {A} P op = (d d' : Db) (a : A) → op d ≡ ok (a, d') → P d → P d'

module _ (P : Db → Type 0) where
  pub Calm-Steady : {A : Type 0} (r : Result A) (x : World) → Calm P r x → Steady P x
  Calm-Steady (ok a) x h = h
  Calm-Steady (err e) x h = cc h

  pub Holds-store : {A : Type 0} (op : Tx A) → Keeps P op → Holds P (store op)
  Holds-store op keeps w h =
      Ends-store op w (λ _. Steady P) h.0 (λ a d e. (h.0, keeps w.db d a e h.1)) (λ e _. h)

  continue-Holds :
      {A B : Type 0} (r : Result A × World) (f : A → Prog B)
      → Steady P r.1
      → ((a : A) → Holds P (f a))
      → Steady P (continue r f).1
  continue-Holds (ok a, x) f h k = k a x h
  continue-Holds (err e, x) f h k = h

  pub Holds-bind :
      {A B : Type 0} (m : Prog A) (f : A → Prog B)
      → Holds P m
      → ((a : A) → Holds P (f a))
      → Holds P (m >>= f)
  Holds-bind m f h k w s = continue-Holds (m w) f (h w s) k

  continue-Safe :
      {A B : Type 0} (r : Result A × World) (f : A → Prog B)
      → Calm P r.0 r.1
      → ((a : A) → Safe P (f a))
      → Ends (continue r f) (Calm P)
  continue-Safe (ok a, x) f h k = k a x h
  continue-Safe (err e, x) f h k = cc h

  pub Safe-bind :
      {A B : Type 0} (m : Prog A) (f : A → Prog B)
      → Safe P m
      → ((a : A) → Safe P (f a))
      → Safe P (m >>= f)
  Safe-bind m f h k w s = continue-Safe (m w) f (h w s) k

  handle-Ends :
      {A B : Type 0} (r : Result A × World) (g : Error → Prog B) (f : A → Prog B)
      (Q : Result B → World → Type 0)
      → Steady P r.1
      → ((e : Error) (x : World) → Steady P x → Ends (g e x) Q)
      → ((a : A) (x : World) → Steady P x → Ends (f a x) Q)
      → Ends (handle r g f) Q
  handle-Ends (ok a, x) g f Q h j k = k a x h
  handle-Ends (err e, x) g f Q h j k = j e x h

  -- Whichever way `m` ends.
  pub Ends-try :
      {A B : Type 0} (m : Prog A) (g : Error → Prog B) (f : A → Prog B)
      (Q : Result B → World → Type 0) (w : World)
      → Holds P m
      → Steady P w
      → ((e : Error) (x : World) → Steady P x → Ends (g e x) Q)
      → ((a : A) (x : World) → Steady P x → Ends (f a x) Q)
      → Ends (try m g f w) Q
  Ends-try m g f Q w h s j k = handle-Ends (m w) g f Q (h w s) j k

  continue-Ends :
      {A B : Type 0} (r : Result A × World) (f : A → Prog B) (Q : Result B → World → Type 0)
      → Calm P r.0 r.1
      → ((a : A) (x : World) → Steady P x → Ends (f a x) Q)
      → Ends (continue r f) Q
  continue-Ends (ok a, x) f Q h k = k a x h
  continue-Ends (err e, x) f Q h k = cc h

  pub Ends-safe :
      {A B : Type 0} (m : Prog A) (f : A → Prog B) (Q : Result B → World → Type 0) (w : World)
      → Safe P m
      → Steady P w
      → ((a : A) (x : World) → Steady P x → Ends (f a x) Q)
      → Ends ((m >>= f) w) Q
  Ends-safe m f Q w h s k = continue-Ends (m w) f Q (h w s) k

  pub Safe-try :
      {A B : Type 0} (m : Prog A) (g : Error → Prog B) (f : A → Prog B)
      → Holds P m
      → ((e : Error) → Safe P (g e))
      → ((a : A) → Safe P (f a))
      → Safe P (try m g f)
  Safe-try m g f h j k w s = Ends-try m g f (Calm P) w h s j k

  pub Safe-Holds : {A : Type 0} (m : Prog A) → Safe P m → Holds P m
  Safe-Holds m h w s = Calm-Steady (m w).0 (m w).1 (h w s)

  pub Safe-if :
      {A : Type 0} (b : Bool) (m k : Prog A) → Safe P m → Safe P k → Safe P (if b then m else k)
  Safe-if true m k h j = h
  Safe-if false m k h j = j

  pub Holds-check : (b : Bool) (e : Error) → Holds P (check b e)
  Holds-check true e w s = s
  Holds-check false e w s = s

  Holds-confirm : (uid : String) (a : Answer) → Holds P (confirm uid a)
  Holds-confirm uid deleted w s = s
  Holds-confirm uid absent w s = s
  Holds-confirm uid unreachable w s = s

  pub Holds-delete_micro_vm : (uid : String) → Holds P (delete_micro_vm uid)
  Holds-delete_micro_vm uid w s = Holds-confirm uid (w.env.answers w.time) w s

  pub Holds-connect : Holds P connect
  Holds-connect w s = Holds-check (w.env.connects w.time) other w s

  pub Holds-obtain : {A : Type 0} (o : Option A) → Holds P (obtain o)
  Holds-obtain none w s = s
  Holds-obtain (some a) w s = s

  pub Holds-execute_all :
      (uid : String) (commands : List String) → Holds P (execute_all uid commands)
  Holds-execute_all uid [] w s = s
  Holds-execute_all uid (c ∷ cs) w s =
      Holds-bind (execute uid c) (λ _. execute_all uid cs)
        (λ w s. Holds-check (is_success (w.env.executes w.time)) other _ s)
        (λ _. Holds-execute_all uid cs) w s
