-- ===== src/Manager.antt =====
-- internal/poolmanager/manager.go: which reconcilers run, and which have been stopped and still exit. Each
-- critical section of the manager's mutex, and each close of a `done` channel, is one event; a
-- history is the list of the events of all goroutines.
pub mod Keys
pub mod Sound
pub mod Waited
use battery.Prelude.{
  ℕ, suc, String, Bool, true, false, ◌&&◌, ◌||◌, not, Option, none, some, List, [], ◌∷◌, ◌++◌, ◌==◌,
  string_eq, nat_eq, if◌then◌else◌,
}
use battery.Table.{any, find, remove, select}

-- A reconcilerHandle with its poolKey. The number stands for the pointer.
pub record Handle : Type 0 where
  pub name : String
  pub namespace : String
  pub number : ℕ

abbrev pub is_same : Handle → Handle → Bool
is_same h k = h.number == k.number && (h.name == k.name && h.namespace == k.namespace)

abbrev pub has_key : String → String → Handle → Bool
has_key name namespace h = h.name == name && h.namespace == namespace

-- `running` has the handles whose goroutine has not closed `done`. `next` is the number of the next
-- handle.
pub record Manager : Type 0 where
  pub handles : List Handle
  pub exiting : List Handle
  pub running : List Handle
  pub next : ℕ
  pub stopped : Bool

abbrev pub no_reconcilers : Manager
no_reconcilers = record { handles = []; exiting = []; running = []; next = 0; stopped = false }

abbrev pub is_running : Manager → Handle → Bool
is_running m h = any (is_same h) m.running

abbrev new_handle : String → String → Manager → Handle
new_handle name namespace m = record { name = name; namespace = namespace; number = m.next }

abbrev pub add_handle : Handle → Manager → Manager
add_handle h m = record m {
  handles = m.handles ++ h ∷ [];
  running = m.running ++ h ∷ [];
  next = suc m.next;
}

-- StartReconciler; `built` says that newReconciler succeeds. An error leaves the manager as it was.
unfoldable pub start_reconciler : String → String → Bool → Manager → Manager
start_reconciler name namespace built m =
    if any (has_key name namespace) m.handles || (m.stopped || not built)
    then m
    else add_handle (new_handle name namespace m) m

abbrev pub forget_handle : String → String → Option Handle → Manager → Manager
forget_handle name namespace none m = m
forget_handle name namespace (some h) m = record m {
  handles = remove (has_key name namespace) m.handles;
  exiting = if is_running m h then m.exiting ++ h ∷ [] else m.exiting;
}

-- The critical section of cancelAndForget.
unfoldable pub cancel_and_forget : String → String → Manager → Manager
cancel_and_forget name namespace m =
    forget_handle name namespace (find (has_key name namespace) m.handles) m

-- The two steps of exited: close(h.done), and then the critical section.
unfoldable pub close_done : Handle → Manager → Manager
close_done h m = record m { running = remove (is_same h) m.running }

unfoldable pub drop_exiting : Handle → Manager → Manager
drop_exiting h m = if is_running m h then m else record m { exiting = remove (is_same h) m.exiting }

-- The critical section of Run, when its context is done.
unfoldable pub shut_down : Manager → Manager
shut_down m = record m { handles = []; stopped = true }

pub data Occurrence : Type 0 where
  start : String → String → Bool → Occurrence
  stop : String → String → Occurrence
  close drop : Handle → Occurrence
  shutdown : Occurrence

abbrev pub advance : Manager → Occurrence → Manager
advance m (start name namespace built) = start_reconciler name namespace built m
advance m (stop name namespace) = cancel_and_forget name namespace m
advance m (close h) = close_done h m
advance m (drop h) = drop_exiting h m
advance m shutdown = shut_down m

unfoldable pub advance_all : Manager → List Occurrence → Manager
advance_all m [] = m
advance_all m (e ∷ es) = advance_all (advance m e) es

-- The handles that StopReconcilerAndWait waits for, once it holds the mutex again.
abbrev pub exiting_of : String → String → Manager → List Handle
exiting_of name namespace m = select (has_key name namespace) m.exiting

-- StopReconcilerAndWait, with the events between its two critical sections and those while it waits. `none`
-- if it still waits then, or its context was done first; else it returns nil, in this state.
unfoldable pub stop_and_wait :
    String → String → List Occurrence → List Occurrence → Manager → Option Manager
unfolding advance_all cancel_and_forget
stop_and_wait name namespace between waiting m =
    let found = advance_all (cancel_and_forget name namespace m) between in
    let ended = advance_all found waiting in
    if any (λ h. is_running ended h) (exiting_of name namespace found) then none else some ended
