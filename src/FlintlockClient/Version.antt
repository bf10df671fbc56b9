-- ===== src/FlintlockClient/Version.antt =====
-- internal/flintlockclient/version.go: the check of a host's flintlock version. golang.org/x/mod/semver is a
-- parameter.
pub mod Remembered
pub mod Described
use Prim.Native.Char.{Char, code}
use Prim.Native.String.{◌∷◌, []}
use battery.Prelude.{
  List, String, Bool, true, false, ◌||◌, not, Option, none, some, if◌then◌else◌, ◌==◌, string_eq,
  nat_eq,
}
use battery.Table.{find, update}
use battery.FlintlockClient.{Conn, Clients, is_named}

-- semver.IsValid, and semver.Compare(a, b) >= 0.
pub record Semver : Type 0 where
  pub is_valid : String → Bool
  pub at_least : String → String → Bool

-- The answer to ServerInfo: codes.Unimplemented, another error, or a version.
pub data ServerInfo : Type 0 where
  unimplemented unanswered : ServerInfo
  reports : String → ServerInfo

pub data VersionError : Type 0 where
  unknown_host before_server_info no_server_info incomparable too_old : VersionError

abbrev pub min_flintlock_version : String
min_flintlock_version = "v0.15.2"

abbrev pub has_v : String → Bool
has_v [] = false
has_v (c ∷ s) = code c == 118

-- With a leading 'v'.
abbrev pub with_v : String → String
with_v s = if has_v s then s else "v" ∷ s

-- '-' or '+'
abbrev pub is_mark : Char → Bool
is_mark c = code c == 45 || code c == 43

-- v[:strings.IndexAny(v, "-+")]
unfoldable pub before_mark : String → String
before_mark [] = []
before_mark (c ∷ s) = let rest = before_mark s in if is_mark c then [] else c ∷ rest

unfoldable pub version_core : Semver → String → Option String
unfolding before_mark
version_core sv version =
    let v = before_mark (with_v version) in if sv.is_valid v then some v else none

abbrev pub compared : Semver → String → Conn → Option String → Option VersionError × Conn
compared sv version c none = (some incomparable, record c { version = version; supported = false })
compared sv version c (some core) =
    if sv.at_least core min_flintlock_version
    then (none, record c { version = version; supported = true })
    else (some too_old, record c { version = version; supported = false })

abbrev pub asked : Semver → ServerInfo → Conn → Option VersionError × Conn
asked sv unimplemented c = (some before_server_info, c)
asked sv unanswered c = (some no_server_info, c)
asked sv (reports version) c = compared sv version c (version_core sv version)

-- The second critical sections of other calls of CheckVersion, by their answers.
unfoldable pub record_all : Semver → List ServerInfo → Conn → Conn
unfolding version_core
record_all sv List.[] c = c
record_all sv (List.◌∷◌ reply replies) c = record_all sv replies (asked sv reply c).1

-- CheckVersion of a Conn, with the connection it leaves. `between` are the answers that other calls
-- record after its first critical section and before its second.
unfoldable pub check_conn :
    Semver → ServerInfo → List ServerInfo → Conn → Option VersionError × Conn
unfolding version_core record_all
check_conn sv reply between c =
    if c.supported then (none, c) else asked sv reply (record_all sv between c)

-- `left` is the pool at the second critical section, which writes to the connection that was looked up,
-- in the pool or not.
abbrev pub check_found : Semver → ServerInfo → Clients → Option Conn → Option VersionError × Clients
check_found sv reply left none = (some unknown_host, left)
check_found sv reply left (some c) = if c.supported then (none, left) else (
  (asked sv reply c).0,
  record left { hosts = update (λ k. k.number == c.number) (λ k. (asked sv reply k).1) left.hosts },
)

-- CheckVersion of the pool, which looks the host up in `met`.
unfoldable pub check_host :
    Semver → ServerInfo → String → Clients → Clients → Option VersionError × Clients
unfolding version_core
check_host sv reply name met left = check_found sv reply left (find (is_named name) met.hosts)

abbrev pub reported : Conn → String × Bool
reported c = (c.version, not (c.version == ""))

abbrev pub version_found : Option Conn → String × Bool
version_found none = ("", false)
version_found (some c) = reported c

-- FlintlockVersion of the pool.
unfoldable pub host_version : String → Clients → String × Bool
host_version name s = version_found (find (is_named name) s.hosts)
