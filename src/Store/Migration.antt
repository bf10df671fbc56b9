-- ===== src/Store/Migration.antt =====
-- Open of internal/store/sqlite.go with its migrations, and internal/store/schema.sql, as far as tables have
-- columns. SQLite is a parameter only in what fails; that ALTER TABLE refuses a column that is there, that
-- IF NOT EXISTS does nothing then, and that a transaction is rolled back whole is its documented
-- behaviour.
pub mod Complete
use battery.Prelude.{
  ℕ, zero, suc, String, Bool, true, false, ◌&&◌, ◌||◌, not, Option, none, some, List, [], ◌∷◌, ◌++◌,
  ◌==◌, string_eq, if◌then◌else◌, ltb, length,
}
use battery.Table.{any, update}

pub record Columns : Type 0 where
  pub table : String
  pub columns : List String

-- `version` is PRAGMA user_version.
pub record Schema : Type 0 where
  pub tables : List Columns
  pub indexes : List String
  pub version : ℕ

pub data Statement : Type 0 where
  create_table : String → List String → Statement
  add_column : String → String → Statement
  create_index : String → Statement

-- What fails: the opening or a PRAGMA before schema.sql, a statement of schema.sql by its number,
-- PRAGMA user_version, and the transaction that migrates to a version.
pub record Trouble : Type 0 where
  pub opening : Bool
  pub statement : ℕ → Bool
  pub reading : Bool
  pub migrating : ℕ → Bool

abbrev pub is_table : String → Columns → Bool
is_table name t = t.table == name

abbrev pub lacks_column : String → String → Columns → Bool
lacks_column name column t = is_table name t && not (any (λ c. c == column) t.columns)

abbrev pub with_column : String → Columns → Columns
with_column column t = record t { columns = t.columns ++ column ∷ [] }

unfoldable pub exec : Statement → Schema → Option Schema
exec (create_table name columns) s =
    if any (is_table name) s.tables
    then some s
    else some (record s { tables = s.tables ++ record { table = name; columns = columns } ∷ [] })
exec (add_column name column) s =
    if any (lacks_column name column) s.tables
    then some (record s { tables = update (is_table name) (with_column column) s.tables })
    else none
exec (create_index name) s =
    if any (λ i. i == name) s.indexes
    then some s
    else some (record s { indexes = s.indexes ++ name ∷ [] })

-- schema.sql
abbrev pub baseline : List Statement
baseline =
    create_table "pools" (
      "name" ∷ "namespace" ∷ "size" ∷ "flintlock_hosts" ∷ "microvm_template"
      ∷ "replenishment_strategy" ∷ "create_commands" ∷ "pre_lease_commands" ∷ "hook_failure_policy"
      ∷ "heartbeat_interval_ns" ∷ "heartbeat_expiry_threshold_ns" ∷ [])
    ∷ create_table "vms" (
        "uid" ∷ "pool_name" ∷ "pool_namespace" ∷ "flintlock_host" ∷ "phase" ∷ "lease_id"
        ∷ "created_at" ∷ "updated_at" ∷ [])
    ∷ create_index "idx_vms_pool_phase"
    ∷ create_table "leases" (
        "lease_id" ∷ "vm_uid" ∷ "pool_name" ∷ "pool_namespace" ∷ "claimed_at" ∷ "last_heartbeat_at"
        ∷ "expires_at" ∷ [])
    ∷ create_index "idx_leases_expires_at"
    ∷ create_index "idx_leases_pool"
    ∷ create_table "events" (
        "id" ∷ "pool_name" ∷ "pool_namespace" ∷ "vm_uid" ∷ "type" ∷ "created_at" ∷ "payload_json"
        ∷ [])
    ∷ create_index "idx_events_pool_id"
    ∷ create_table "hosts"
        ("name" ∷ "address" ∷ "cordoned" ∷ "cordoned_reason" ∷ "cordoned_at" ∷ "updated_at" ∷ [])
    ∷ create_table "placements" ("id" ∷ "host" ∷ "pool_name" ∷ "pool_namespace" ∷ "created_at" ∷ [])
    ∷ create_index "idx_placements_host"
    ∷ []

abbrev pub migrations : List (List Statement)
migrations =
    (add_column "leases" "request_id" ∷ create_index "idx_leases_request_id" ∷ [])
    ∷ (add_column "hosts" "tls_insecure"
        ∷ add_column "hosts" "ca_file"
        ∷ add_column "hosts" "cert_file"
        ∷ add_column "hosts" "key_file"
        ∷ [])
    ∷ (add_column "hosts" "draining" ∷ add_column "hosts" "draining_at" ∷ [])
    ∷ []

-- A script outside a transaction: what ran before the failure stays.
abbrev pub after_statement : Schema → (Schema → Bool × Schema) → Option Schema → Bool × Schema
after_statement s rest none = (false, s)
after_statement s rest (some t) = rest t

unfoldable pub exec_script : Trouble → ℕ → List Statement → Schema → Bool × Schema
unfolding exec
exec_script t i [] s = (true, s)
exec_script t i (x ∷ xs) s =
    after_statement s (exec_script t (suc i) xs) (if t.statement i then none else exec x s)

abbrev pub after_exec : Option Schema → (Schema → Option Schema) → Option Schema
after_exec none rest = none
after_exec (some s) rest = rest s

unfoldable pub exec_all : List Statement → Schema → Option Schema
unfolding exec
exec_all [] s = some s
exec_all (x ∷ xs) s = after_exec (exec x s) (exec_all xs)

abbrev pub committed : ℕ → Schema → Option Schema → Bool × Schema
committed version s none = (false, s)
committed version s (some migrated) = (true, record migrated { version = version })

unfoldable pub apply_migration : Trouble → ℕ → List Statement → Schema → Bool × Schema
unfolding exec_all
apply_migration t version statements s =
    committed version s (if t.migrating version then none else exec_all statements s)

abbrev pub continued : Bool × Schema → (Schema → Bool × Schema) → Bool × Schema
continued (true, s) rest = rest s
continued (false, s) rest = (false, s)

unfoldable pub migrate_from : Trouble → ℕ → List (List Statement) → Schema → Bool × Schema
unfolding apply_migration
migrate_from t v [] s = (true, s)
migrate_from t v (m ∷ ms) s = continued (apply_migration t (suc v) m s) (migrate_from t (suc v) ms)

-- migrations[version:]
abbrev pub migrations_after : ℕ → List (List Statement) → List (List Statement)
migrations_after zero ms = ms
migrations_after (suc n) [] = []
migrations_after (suc n) (m ∷ ms) = migrations_after n ms

unfoldable pub migrate : Trouble → Schema → Bool × Schema
unfolding migrate_from
migrate t s =
    if t.reading || ltb (length migrations) s.version
    then (false, s)
    else migrate_from t s.version (migrations_after s.version migrations) s

-- Open: whether it succeeds, and the schema that it leaves.
unfoldable pub open_store : Trouble → Schema → Bool × Schema
unfolding exec_script migrate
open_store t s =
    if t.opening then (false, s) else continued (exec_script t 0 baseline s) (migrate t)
