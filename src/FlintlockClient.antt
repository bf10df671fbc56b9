-- ===== src/FlintlockClient.antt =====
-- internal/flintlockclient/pool.go: the client pool, with one connection to each flintlock host. The
-- methods hold the pool's mutex, so each is one step. A Go map has no order: an entry is set
-- at the end.
pub mod Version
pub mod Owned
pub mod Changes
pub mod Started
use battery.Prelude.{
  ℕ, suc, String, Bool, true, false, ◌&&◌, ◌||◌, not, Option, none, some, List, [], ◌∷◌, ◌++◌, map,
  ◌⊎◌, inl, inr, ◌==◌, string_eq, nat_eq, if◌then◌else◌,
}
use battery.Types.{Host, HostTls}
use battery.Table.{any, find, remove}

pub data Invalid : Type 0 where
  no_host no_name no_address insecure_with_files no_ca_file lone_cert_file : Invalid

pub data ClientError : Type 0 where
  invalid_host : Invalid → ClientError
  ca_file_unread no_certificates bad_key_pair undialled host_exists unknown_host unclosed :
      ClientError

-- os.ReadFile, x509's AppendCertsFromPEM, tls.LoadX509KeyPair and grpc.NewClient, as far as the code sees them:
-- `closes n` says that the first Close of the connection `n` returns nil.
pub record Network : Type 0 where
  pub read_file : String → Option String
  pub has_certificates : String → Bool
  pub loads_key_pair : String → String → Bool
  pub has_client : String → Bool
  pub closes : ℕ → Bool

-- `number` stands for the pointer, and for the one grpc.ClientConn that the three clients share.
-- `version` and `supported` are what CheckVersion has seen.
pub record Conn : Type 0 where
  pub name : String
  pub address : String
  pub number : ℕ
  pub version : String
  pub supported : Bool

-- `opened` has the numbers of the connections, in the pool or not, that are not closed; `next` is the
-- number of the next connection.
pub record Clients : Type 0 where
  pub hosts : List Conn
  pub opened : List ℕ
  pub next : ℕ

abbrev pub no_clients : Clients
no_clients = record { hosts = []; opened = []; next = 0 }

abbrev pub is_named : String → Conn → Bool
is_named name c = c.name == name

-- A getter of a nil *HostTLS returns the zero value.
abbrev pub tls_of : Option HostTls → HostTls
tls_of none = record { insecure = false; ca_file = ""; cert_file = ""; key_file = "" }
tls_of (some t) = t

abbrev pub validate_tls : HostTls → Option Invalid
validate_tls t =
    if t.insecure
    then if t.cert_file == "" && (t.key_file == "" && t.ca_file == "")
      then none
      else some insecure_with_files
    else if t.ca_file == ""
    then some no_ca_file
    else if t.cert_file == "" && not (t.key_file == "")
        || (not (t.cert_file == "") && t.key_file == "")
    then some lone_cert_file
    else none

unfoldable pub validate_host : Option Host → Option Invalid
validate_host none = some no_host
validate_host (some h) =
    if h.name == ""
    then some no_name
    else if h.address == ""
    then some no_address
    else validate_tls (tls_of h.tls)

abbrev pub key_pair_error : Network → HostTls → Option ClientError
key_pair_error net t =
    if t.cert_file == "" || net.loads_key_pair t.cert_file t.key_file
    then none
    else some bad_key_pair

abbrev pub ca_error : Network → HostTls → Option String → Option ClientError
ca_error net t none = some ca_file_unread
ca_error net t (some pem) =
    if net.has_certificates pem then key_pair_error net t else some no_certificates

unfoldable pub dial_credentials : Network → HostTls → Option ClientError
dial_credentials net t = if t.insecure then none else ca_error net t (net.read_file t.ca_file)

abbrev pub client_error : Network → Host → Option ClientError → Option ClientError
client_error net h (some e) = some e
client_error net h none = if net.has_client h.address then none else some undialled

abbrev pub valid_error : Network → Host → Option Invalid → Option ClientError
valid_error net h (some v) = some (invalid_host v)
valid_error net h none = client_error net h (dial_credentials net (tls_of h.tls))

-- What keeps Dial from connecting to the host.
unfoldable pub dial_error : Network → Host → Option ClientError
unfolding validate_host dial_credentials
dial_error net h = valid_error net h (validate_host (some h))

abbrev pub new_conn : Host → Clients → Conn
new_conn h s = record {
  name = h.name;
  address = h.address;
  number = s.next;
  version = "";
  supported = false;
}

abbrev pub connected : Host → Clients → Option ClientError → (ClientError ⊎ Conn) × Clients
connected h s (some e) = (inl e, s)
connected h s none =
    (inr (new_conn h s), record s { opened = s.next ∷ s.opened; next = suc s.next })

unfoldable pub dial_conn : Network → Option Host → Clients → (ClientError ⊎ Conn) × Clients
unfolding dial_error
dial_conn net none s = (inl (invalid_host no_host), s)
dial_conn net (some h) s = connected h s (dial_error net h)

abbrev pub is_open : ℕ → Clients → Bool
is_open n s = any (λ k. k == n) s.opened

-- A second Close returns an error.
unfoldable pub close : Network → Conn → Clients → Option ClientError × Clients
close net c s = (
  if is_open c.number s && net.closes c.number then none else some unclosed,
  record s { opened = remove (λ k. k == c.number) s.opened },
)

unfoldable pub add : Conn → Clients → Option ClientError × Clients
add c s =
    if any (is_named c.name) s.hosts
    then (some host_exists, s)
    else (none, record s { hosts = s.hosts ++ c ∷ [] })

abbrev pub without_host : String → Clients → Clients
without_host name s = record s { hosts = remove (is_named name) s.hosts }

abbrev pub replace : Network → Conn → Clients → Option Conn → Option ClientError × Clients
replace net c s none = (some unknown_host, s)
replace net c s (some old) =
    close net old (record s { hosts = remove (is_named c.name) s.hosts ++ c ∷ [] })

unfoldable pub update_conn : Network → Conn → Clients → Option ClientError × Clients
unfolding close
update_conn net c s = replace net c s (find (is_named c.name) s.hosts)

abbrev pub removed_conn : Network → String → Clients → Option Conn → Option ClientError × Clients
removed_conn net name s none = (some unknown_host, s)
removed_conn net name s (some old) = close net old (without_host name s)

unfoldable pub remove_conn : Network → String → Clients → Option ClientError × Clients
unfolding close
remove_conn net name s = removed_conn net name s (find (is_named name) s.hosts)

abbrev pub found_conn : Option Conn → ClientError ⊎ Conn
found_conn none = inl unknown_host
found_conn (some c) = inr c

unfoldable pub conn : String → Clients → ClientError ⊎ Conn
conn name s = found_conn (find (is_named name) s.hosts)

-- Client, ExecClient and SSHProxyClient: a client by the number of its connection.
abbrev pub client_of : ClientError ⊎ Conn → ClientError ⊎ ℕ
client_of (inl e) = inl e
client_of (inr c) = inr c.number

unfoldable pub client : String → Clients → ClientError ⊎ ℕ
unfolding conn
client name s = client_of (conn name s)

abbrev pub conn_address : ClientError ⊎ Conn → ClientError ⊎ String
conn_address (inl e) = inl e
conn_address (inr c) = inr c.address

unfoldable pub address : String → Clients → ClientError ⊎ String
unfolding conn
address name s = conn_address (conn name s)

unfoldable pub host_names : Clients → List String
host_names s = map (λ c. c.name) s.hosts

-- Close, with the errors that it joins.
abbrev pub joined : Option ClientError → List ClientError → List ClientError
joined none es = es
joined (some e) es = e ∷ es

abbrev pub close_each : Network → List Conn → Clients → List ClientError × Clients
close_each net [] s = ([], s)
close_each net (c ∷ cs) s =
    let closed = close net c s in
    let rest = close_each net cs closed.1 in (joined closed.0 rest.0, rest.1)

unfoldable pub close_all : Network → Clients → List ClientError × Clients
unfolding close
close_all net s = close_each net s.hosts s

-- Of a caller that closes the connection when Add or Update has refused it, as New and
-- internal/api/hostadmin.go do.
abbrev pub added : Network → Conn → Option ClientError × Clients → Option ClientError × Clients
added net c (none, s) = (none, s)
added net c (some e, s) = (some e, (close net c s).1)

abbrev pub added_dialled : Network → (ClientError ⊎ Conn) × Clients → Option ClientError × Clients
added_dialled net (inl e, s) = (some e, s)
added_dialled net (inr c, s) = added net c (add c s)

unfoldable pub dial_and_add : Network → Host → Clients → Option ClientError × Clients
unfolding dial_conn add close
dial_and_add net h s = added_dialled net (dial_conn net (some h) s)

-- install of internal/api/hostadmin.go; that only the old connection did not close is logged.
abbrev pub install_refused : Conn → Option ClientError × Clients → Option ClientError × Clients
install_refused c (some unknown_host, s) = add c s
install_refused c (_, s) = (none, s)

unfoldable pub install_conn : Network → Conn → Clients → Option ClientError × Clients
unfolding update_conn add
install_conn net c s = install_refused c (update_conn net c s)

abbrev pub install_dialled : Network → (ClientError ⊎ Conn) × Clients → Option ClientError × Clients
install_dialled net (inl e, s) = (some e, s)
install_dialled net (inr c, s) = added net c (install_conn net c s)

unfoldable pub dial_and_install : Network → Host → Clients → Option ClientError × Clients
unfolding dial_conn install_conn close
dial_and_install net h s = install_dialled net (dial_conn net (some h) s)

-- New, from its loop on.
abbrev pub go_on :
    Network
    → (Clients → Option ClientError × Clients)
    → Option ClientError × Clients
    → Option ClientError × Clients
go_on net rest (some e, s) = (some e, (close_all net s).1)
go_on net rest (none, s) = rest s

unfoldable pub add_hosts : Network → List Host → Clients → Option ClientError × Clients
unfolding dial_and_add close_all
add_hosts net [] s = (none, s)
add_hosts net (h ∷ hs) s = go_on net (add_hosts net hs) (dial_and_add net h s)

unfoldable pub new_clients : Network → List Host → Option ClientError × Clients
unfolding add_hosts
new_clients net hosts = add_hosts net hosts no_clients
