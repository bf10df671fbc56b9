-- ===== src/World.antt =====
-- Programs that call the store, flintlock and the clock, one action after the other, while other
-- goroutines call the store: the handlers of internal/api and internal/reconciler are such programs.
pub mod Rules
pub mod Quiet
pub mod Steady
use battery.Prelude.{
  ℕ, zero, suc, ℤ, pos, String, Bool, true, false, Option, none, some, List, [], ◌∷◌, if◌then◌else◌,
}
use battery.Types.{VmPhase}
use battery.Types.{MicrovmSpec}
use battery.Store.Error.{Error, Result, ok, err, other}
use battery.Store.Db.{Db, Tx}
use battery.Store.Call.{Call, run}

-- What flintlock answers to DeleteMicroVM: done, codes.NotFound, or any other error.
pub data Answer : Type 0 where
  deleted absent unreachable : Answer

-- What GetMicroVM answers while a microVM is being created: its state, a call that ran into the
-- deadline (codes.DeadlineExceeded), or any other error.
pub data Poll : Type 0 where
  in_state_created in_state_failed in_other_state past_deadline unanswered : Poll

-- A command that has run in the guest, by its exit code, or a call that failed.
pub data Execution : Type 0 where
  exited : ℤ → Execution
  broken : Execution

-- What flintlockclient.Dial makes of a host: a connection, ErrInvalidHost, or any other error.
pub data Dialled : Type 0 where
  dialled malformed undialled : Dialled

-- What the client pool answers to Update: the connection is in, ErrUnknownHost, or the connection is in
-- but the old one did not close.
pub data Swap : Type 0 where
  swapped unknown_host unclosed : Swap

-- What is outside the program, by the number of the action. `others` are the calls that the store
-- serves for other goroutines before the action; `fails` says that the action is a store call that
-- fails, with its transaction rolled back; `connects` that the client of the host is found.
pub record Environment : Type 0 where
  pub others : ℕ → List Call
  pub fails : ℕ → Bool
  pub clock : ℕ → ℕ
  pub connects : ℕ → Bool
  pub answers : ℕ → Answer
  -- SQLite's choice of a row.
  pub rows : ℕ → ℕ
  -- A new UUID.
  pub ids : ℕ → String
  -- The address of a host, and what CheckVersion says of its flintlock.
  pub addresses : ℕ → String
  pub supports : ℕ → Bool
  -- The uid of the microVM that CreateMicroVM has created, or none if it fails.
  pub creates : ℕ → Option String
  pub polls : ℕ → Poll
  -- How many times a poll's ticker fires before its deadline.
  pub ticks : ℕ → ℕ
  -- WaitReady returns before its deadline.
  pub ready : ℕ → Bool
  pub executes : ℕ → Execution
  -- The names of a running microVM's network interfaces, or none if GetMicroVM fails.
  pub interfaces : ℕ → Option (List String)
  pub dials : ℕ → Dialled
  pub swaps : ℕ → Swap
  -- Add to the client pool succeeds.
  pub adds : ℕ → Bool
  -- The version that the flintlock of a host has last reported.
  pub versions : ℕ → String
  -- StartReconciler succeeds, and StopReconcilerAndWait does.
  pub starts : ℕ → Bool
  pub stops : ℕ → Bool
  -- The caller's context is done.
  pub leaves : ℕ → Bool

-- What the program has done outside the store: flintlock has confirmed that it has no microVM with
-- this uid, the pool's reconciler has been told of a deletion or of a claim, flintlock has been asked
-- to create a microVM on a host, a command has been sent to a microVM, a connection to a host has
-- been put in the client pool, closed, or removed from the pool, or the reconciler of a pool has been
-- started or stopped.
pub data Effect : Type 0 where
  destroyed : String → Effect
  notified claimed : String → String → Effect
  requested : String → MicrovmSpec → Effect
  commanded : String → String → Effect
  installed hung_up dropped : String → Effect
  started halted : String → String → Effect

pub record World : Type 0 where
  pub db : Db
  pub env : Environment
  pub time : ℕ
  -- The last one first.
  pub effects : List Effect

abbrev pub Prog : Type 0 → Type 0
Prog A = World → Result A × World

abbrev pub continue : {A B : Type 0} → Result A × World → (A → Prog B) → Result B × World
continue (ok a, w) f = f a w
continue (err e, w) f = (err e, w)

-- An error ends the program, as `if err != nil { return err }` does.
infixl 5 ◌>>=◌ ◌>>◌
abbrev pub ◌>>=◌ : {A B : Type 0} → Prog A → (A → Prog B) → Prog B
◌>>=◌ m f w = continue (m w) f

abbrev pub ◌>>◌ : {A B : Type 0} → Prog A → Prog B → Prog B
m >> k = m >>= λ _. k

abbrev pub pure : {A : Type 0} → A → Prog A
pure a w = (ok a, w)

abbrev pub fail : {A : Type 0} → Error → Prog A
fail e w = (err e, w)

-- The error as a value.
abbrev pub attempt : {A : Type 0} → Prog A → Prog (Result A)
attempt m w = (ok (m w).0, (m w).1)

abbrev pub handle :
    {A B : Type 0} → Result A × World → (Error → Prog B) → (A → Prog B) → Result B × World
handle (ok a, w) g f = f a w
handle (err e, w) g f = g e w

-- `if err := m(); err != nil { return g(err) }`, and then the rest.
abbrev pub try : {A B : Type 0} → Prog A → (Error → Prog B) → (A → Prog B) → Prog B
try m g f w = handle (m w) g f

-- `_ = f()`
abbrev pub ignore : {A : Type 0} → Prog A → Prog (Unit {0})
ignore m w = (ok tt, (m w).1)

abbrev pub check : Bool → Error → Prog (Unit {0})
check b e = if b then pure tt else fail e

abbrev pub answer : {A : Type 0} → World → Db → Result (A × Db) → Result A × World
answer w d (ok (a, d')) = (ok a, record w { db = d'; time = suc w.time })
answer w d (err e) = (err e, record w { db = d; time = suc w.time })

-- The database when the program's next action reaches it.
abbrev pub reached : World → Db
reached w = run w.db (w.env.others w.time)

abbrev pub store : {A : Type 0} → Tx A → Prog A
store op w = answer w (reached w) (if w.env.fails w.time then err other else op (reached w))

abbrev pub now : Prog ℕ
now w = (ok (w.env.clock w.time), w)

-- flint.Client(host)
abbrev pub connect : Prog (Unit {0})
connect w = check (w.env.connects w.time) other w

abbrev pub confirm : String → Answer → Prog (Unit {0})
confirm uid unreachable w = (err other, record w { time = suc w.time })
confirm uid _ w = (ok tt, record w { time = suc w.time; effects = destroyed uid ∷ w.effects })

-- DeleteMicroVM, where codes.NotFound is as good as success.
abbrev pub delete_micro_vm : String → Prog (Unit {0})
delete_micro_vm uid w = confirm uid (w.env.answers w.time) w

abbrev pub notify : String → String → Prog (Unit {0})
notify name namespace w = (ok tt, record w { effects = notified name namespace ∷ w.effects })

-- NotifyVMClaimed
abbrev pub notify_claimed : String → String → Prog (Unit {0})
notify_claimed name namespace w = (ok tt, record w { effects = claimed name namespace ∷ w.effects })

abbrev pub pick_row : Prog ℕ
pick_row w = (ok (w.env.rows w.time), w)

abbrev pub new_id : Prog String
new_id w = (ok (w.env.ids w.time), record w { time = suc w.time })

abbrev pub address_of : Prog String
address_of w = (ok (w.env.addresses w.time), w)

-- CheckVersion
abbrev pub check_version : Prog (Unit {0})
check_version w = check (w.env.supports w.time) other (record w { time = suc w.time })

abbrev pub lifted : {A : Type 0} → Result A → Prog A
lifted r w = (r, w)

abbrev pub obtain : {A : Type 0} → Option A → Prog A
obtain none = fail other
obtain (some a) = pure a

-- CreateMicroVM
abbrev pub create_micro_vm : String → MicrovmSpec → Prog String
create_micro_vm host spec w =
    obtain (w.env.creates w.time)
      (record w { time = suc w.time; effects = requested host spec ∷ w.effects })

-- GetMicroVM, for the state and for the network interfaces.
abbrev pub poll_micro_vm : Prog Poll
poll_micro_vm w = (ok (w.env.polls w.time), record w { time = suc w.time })

abbrev pub get_interfaces : Prog (List String)
get_interfaces w = obtain (w.env.interfaces w.time) (record w { time = suc w.time })

abbrev pub wait_ready : Prog (Unit {0})
wait_ready w = check (w.env.ready w.time) other (record w { time = suc w.time })

-- An exit code other than 0 is a failure.
abbrev pub is_success : Execution → Bool
is_success (exited (pos zero)) = true
is_success _ = false

-- Exec of one command, and of a list of them, up to the first failure.
abbrev pub execute : String → String → Prog (Unit {0})
execute uid command w =
    check (is_success (w.env.executes w.time)) other
      (record w { time = suc w.time; effects = commanded uid command ∷ w.effects })

abbrev pub execute_all : String → List String → Prog (Unit {0})
execute_all uid [] = pure tt
execute_all uid (c ∷ cs) = do execute uid c; execute_all uid cs

-- flintlockclient.Dial
abbrev pub dial : Prog Dialled
dial w = (ok (w.env.dials w.time), record w { time = suc w.time })

abbrev pub hang_up : String → Prog (Unit {0})
hang_up name w = (ok tt, record w { effects = hung_up name ∷ w.effects })

abbrev pub drop_client : String → Prog (Unit {0})
drop_client name w = (ok tt, record w { effects = dropped name ∷ w.effects })

abbrev pub install_new : String → Prog (Unit {0})
install_new name w =
    if w.env.adds w.time
    then (ok tt, record w { time = suc w.time; effects = installed name ∷ w.effects })
    else (err other, record w { time = suc w.time })

abbrev pub swap_client : String → Swap → Prog (Unit {0})
swap_client name unknown_host w = install_new name (record w { time = suc w.time })
swap_client name _ w = (ok tt, record w { time = suc w.time; effects = installed name ∷ w.effects })

-- Update of the client pool, and Add if it does not know the host.
abbrev pub install : String → Prog (Unit {0})
install name w = swap_client name (w.env.swaps w.time) w

abbrev pub flintlock_version : Prog String
flintlock_version w = (ok (w.env.versions w.time), w)

abbrev pub has_left : Prog Bool
has_left w = (ok (w.env.leaves w.time), w)

-- StartReconciler, StopReconciler and StopReconcilerAndWait.
abbrev pub start_reconciler : String → String → Prog (Unit {0})
start_reconciler name namespace w =
    if w.env.starts w.time
    then (ok tt, record w { time = suc w.time; effects = started name namespace ∷ w.effects })
    else (err other, record w { time = suc w.time })

abbrev pub stop_reconciler : String → String → Prog (Unit {0})
stop_reconciler name namespace w = (ok tt, record w { effects = halted name namespace ∷ w.effects })

abbrev pub stop_reconciler_and_wait : String → String → Prog (Unit {0})
stop_reconciler_and_wait name namespace w =
    check (w.env.stops w.time) other
      (record w { time = suc w.time; effects = halted name namespace ∷ w.effects })
