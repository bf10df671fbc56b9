-- ===== src/Api/HostAdmin.antt =====
-- internal/api/hostadmin.go: the registry of hosts. The locks by host name are left out: calls of other
-- goroutines may come between any two actions.
use battery.Prelude.{
  ℕ, String, Bool, true, false, Option, none, some, List, [], ◌∷◌, ◌==◌, string_eq, if◌then◌else◌,
}
use battery.Types.{Host, HostTls}
use battery.Store.Error.{Error, not_found, host_exists, host_in_use, is_not_found}
use battery.Store.Hosts.{
  create_host, get_host, list_hosts, update_host, count_vms_by_host, delete_host, set_host_cordoned,
  drain_host,
}
use battery.World.{
  Prog, Dialled, dialled, malformed, undialled, ◌>>=◌, ◌>>◌, pure, try, store, now, check_version,
  dial, hang_up, drop_client, install, flintlock_version, has_left,
}
use battery.Reconciler.Sweeper.{delete_drained_vms}
use battery.Api.Status.{
  Code, Reply, reply, code_of, refuse, no_such, internal, invalid_argument, already_exists,
  failed_precondition, cancelled,
}

abbrev unregistered : Error → Code
unregistered not_found = failed_precondition
unregistered _ = internal

-- CordonHost and UncordonHost
abbrev set_cordon : String → Bool → String → Prog (Reply Host)
set_cordon name cordoned reason = if name == "" then refuse invalid_argument else do
  at ← now
  try (store (set_host_cordoned at name cordoned reason)) (λ e. refuse (unregistered e))
      (λ host. pure (reply host))

unfoldable pub cordon_host : String → String → Prog (Reply Host)
cordon_host name reason = set_cordon name true reason

unfoldable pub uncordon_host : String → Prog (Reply Host)
uncordon_host name = set_cordon name false ""

-- An error of DrainHost's store call. `left` says that the caller's context is done.
abbrev undrained : Error → Bool → Code
undrained not_found left = no_such
undrained _ true = cancelled
undrained _ false = internal

unfoldable pub drain : String → String → Prog (Reply Host)
unfolding delete_drained_vms
drain name reason = if name == "" then refuse invalid_argument else do
  at ← now
  try (store (drain_host at name reason)) (λ e. do left ← has_left; refuse (undrained e left))
      (λ drained. do delete_drained_vms drained.1; pure (reply drained.0))

pub record HostStatus : Type 0 where
  pub host : Host
  pub vm_count : ℕ
  pub flintlock_version : String

unfoldable pub host_status : Host → Prog (Reply HostStatus)
host_status host =
    try (store (count_vms_by_host host.name)) (λ _. refuse internal)
      (λ n. do
        version ← flintlock_version
        pure (reply (record { host = host; vm_count = n; flintlock_version = version })))

-- The first status that fails ends the list.
abbrev also_host : HostStatus → Reply (List HostStatus) → Reply (List HostStatus)
also_host s (Reply.reply rest) = reply (s ∷ rest)
also_host s (Reply.status c) = Reply.status c

abbrev first_of : Reply HostStatus → Prog (Reply (List HostStatus)) → Prog (Reply (List HostStatus))
first_of (Reply.reply s) rest = do others ← rest; pure (also_host s others)
first_of (Reply.status c) rest = refuse c

unfoldable pub host_statuses : List Host → Prog (Reply (List HostStatus))
unfolding host_status
host_statuses [] = pure (reply [])
host_statuses (h ∷ hs) = do s ← host_status h; first_of s (host_statuses hs)

unfoldable pub list_registered : Prog (Reply (List HostStatus))
unfolding host_statuses
list_registered = try (store list_hosts) (λ _. refuse internal) host_statuses

unfoldable pub get_registered : String → Prog (Reply HostStatus)
unfolding host_status
get_registered name =
    if name == ""
    then refuse invalid_argument
    else try (store (get_host name)) (λ e. refuse (code_of e)) host_status

-- dialHost: `none` is a connection, and else the code of the error.
abbrev checked : String → Bool → Prog (Option Code)
checked name skip =
    if skip
    then pure none
    else try check_version (λ _. do hang_up name; pure (some failed_precondition)) (λ _. pure none)

abbrev judge : String → Bool → Dialled → Prog (Option Code)
judge name skip malformed = pure (some invalid_argument)
judge name skip undialled = pure (some failed_precondition)
judge name skip dialled = checked name skip

unfoldable pub dial_host : String → Bool → Prog (Option Code)
dial_host name skip = do outcome ← dial; judge name skip outcome

-- The steps of AddHost and UpdateHost after the store write.
abbrev take_in : Host → Prog (Reply Host)
take_in host =
    try (install host.name) (λ _. do hang_up host.name; refuse internal) (λ _. pure (reply host))

abbrev taken : Error → Code
taken host_exists = already_exists
taken _ = internal

abbrev add_dialled : Host → Option Code → Prog (Reply Host)
add_dialled host (some c) = refuse c
add_dialled host none =
    try (store (create_host host)) (λ e. do hang_up host.name; refuse (taken e)) (λ _. take_in host)

abbrev requested_host : String → String → Option HostTls → ℕ → Host
requested_host name address tls at = record {
  name = name;
  address = address;
  cordoned = false;
  cordoned_reason = "";
  cordoned_at = none;
  updated_at = some at;
  tls = tls;
  draining = false;
  draining_at = none;
}

-- The name is free only if GetHost fails with ErrNotFound.
abbrev add_free : Host → Bool → Error → Prog (Reply Host)
add_free host skip e =
    if is_not_found e
    then (do outcome ← dial_host host.name skip; add_dialled host outcome)
    else refuse internal

unfoldable pub add_host : String → String → Option HostTls → Bool → Prog (Reply Host)
unfolding dial_host is_not_found
add_host name address tls skip = do
  at ← now
  if name == ""
      then refuse invalid_argument
      else try (store (get_host name)) (add_free (requested_host name address tls at) skip)
          (λ _. refuse already_exists)

abbrev update_dialled : Host → Option Code → Prog (Reply Host)
update_dialled host (some c) = refuse c
update_dialled host none = do
  at ← now
  try (store (update_host at host)) (λ e. do hang_up host.name; refuse (code_of e)) take_in

unfoldable pub update_registered : String → String → Option HostTls → Bool → Prog (Reply Host)
unfolding dial_host
update_registered name address tls skip =
    if name == ""
    then refuse invalid_argument
    else try (store (get_host name)) (λ e. refuse (code_of e))
        (λ _. do
          outcome ← dial_host name skip
          update_dialled (record (requested_host name address tls 0) { updated_at = none }) outcome)

abbrev unremoved : Error → Code
unremoved not_found = no_such
unremoved (host_in_use pools n) = failed_precondition
unremoved _ = internal

-- Whatever removing the connection gives, the host is gone from the pool.
unfoldable pub remove_host : String → Prog (Reply (Unit {0}))
remove_host name =
    if name == ""
    then refuse invalid_argument
    else try (store (delete_host name)) (λ e. refuse (unremoved e))
        (λ _. do drop_client name; pure (reply tt))
