-- ===== src/Examples/Clients.antt =====
-- The theorems on the client pool and the version check at concrete inputs.
use battery.Prelude.{
  ◌≡◌, refl, ◌↔◌, ◌⊎◌, ◌==◌, ◌||◌, string_eq, true, false, String, List, [], ◌∷◌, none, some,
}
use battery.Types.{Host}
use battery.Table.{any, remove}
use battery.FlintlockClient.{
  Network, Conn, Clients, no_clients, dial_and_add, new_clients, dial_conn, dial_error, add,
  validate_host, dial_credentials, add_hosts, close, close_all, host_exists,
}
use battery.FlintlockClient.Owned.{Owned, no_clients-Owned}
use battery.FlintlockClient.Changes.{connect, exchange, change, change-Owned}
use battery.FlintlockClient.Started.{Usable, Undone, Filled, new_clients-Outcome}
use battery.FlintlockClient.Version.{
  Semver, reports, unanswered, record_all, check_conn, before_mark,
}
use battery.FlintlockClient.Version.Remembered.{accepts, last_accepted, check_conn-remembers}
use battery.FlintlockClient.Version.Described.{described, check_conn-described}

-- Every call succeeds.
abbrev network : Network
network = record {
  read_file = λ f. some f;
  has_certificates = λ pem. true;
  loads_key_pair = λ c k. true;
  has_client = λ a. true;
  closes = λ n. true;
}

abbrev host_at : String → String → Host
host_at name at = record {
  name = name;
  address = at;
  cordoned = false;
  cordoned_reason = "";
  cordoned_at = none;
  updated_at = none;
  tls = some (record { insecure = true; ca_file = ""; cert_file = ""; key_file = "" });
  draining = false;
  draining_at = none;
}

abbrev one_host : Clients
unfolding dial_and_add dial_conn add
one_host = (dial_and_add network (host_at "h1" "h1:9090") no_clients).1

one_host-Owned : Owned one_host
unfolding one_host dial_and_add
one_host-Owned = change-Owned network (connect (host_at "h1" "h1:9090")) no_clients no_clients-Owned

change-Owned_example : Owned (change network (exchange (host_at "h1" "h1:9091")) one_host).1
change-Owned_example =
    change-Owned network (exchange (host_at "h1" "h1:9091")) one_host one_host-Owned

-- Two hosts with one name.
abbrev twins : List Host
twins = host_at "h1" "h1:9090" ∷ host_at "h1" "h1:9091" ∷ []

new_clients-Outcome_example :
    (Usable network [] twins × Filled ("h1" ∷ "h1" ∷ []) (new_clients network twins))
    ⊎ (¬ Usable network [] twins × Undone (new_clients network twins))
new_clients-Outcome_example = new_clients-Outcome network twins

twins_refused : (new_clients network twins).0 ≡ some host_exists
unfolding new_clients add_hosts dial_and_add dial_conn dial_error validate_host dial_credentials add
    any
twins_refused = refl

twins_closed : (new_clients network twins).1.opened ≡ []
unfolding new_clients add_hosts dial_and_add dial_conn dial_error validate_host dial_credentials add
    any close close_all remove
twins_closed = refl

-- A semver that knows two versions.
abbrev semver : Semver
semver = record {
  is_valid = λ v. v == "v0.15.1" || v == "v0.15.2";
  at_least = λ v w. v == "v0.15.2";
}

abbrev unchecked : Conn
unchecked = record { name = "h1"; address = "h1:9090"; number = 0; version = ""; supported = false }

-- An old flintlock before the host is upgraded; another check of the old one ends late.
check_conn-remembers_example :
    ((check_conn semver
        (reports "v0.15.2")
        (reports "v0.15.1" ∷ [])
        (record_all semver (reports "v0.15.1" ∷ unanswered ∷ []) unchecked)).0
      ≡ none)
    ↔ ((last_accepted semver false (reports "v0.15.1" ∷ unanswered ∷ [])
          || accepts semver (reports "v0.15.2"))
        ≡ true)
check_conn-remembers_example =
    check_conn-remembers semver (reports "v0.15.1" ∷ unanswered ∷ []) (reports "v0.15.1" ∷ [])
      (reports "v0.15.2") unchecked

-- A check that was answered before the upgrade and records after it makes the host be asked again.
forgotten :
    (record_all semver (reports "v0.15.2" ∷ reports "v0.15.1" ∷ []) unchecked).supported ≡ false
unfolding record_all before_mark
forgotten = refl

check_conn-described_example :
    (check_conn semver (reports (described "0.15.2" "-" "3-gabc1234")) [] unchecked).0
    ≡ (check_conn semver (reports "0.15.2") [] unchecked).0
check_conn-described_example =
    check_conn-described semver "0.15.2" "3-gabc1234" "-" [] unchecked refl

described_passes :
    (check_conn semver (reports (described "0.15.2" "-" "3-gabc1234")) [] unchecked).0 ≡ none
unfolding check_conn
described_passes = refl
