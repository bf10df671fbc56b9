-- ===== src/Store/Db.antt =====
-- The database of internal/store and its transactions. The store has one connection, so calls are
-- serialised and each is one transaction: it commits the database it ends with, and an error rolls
-- everything back.
use Prim.Native.String.{compare}
use text.Mathlib.Text.{is_le}
use battery.Prelude.{
  ℕ, zero, suc, String, Bool, Option, none, some, List, [], ◌∷◌, string_eq, if◌then◌else◌,
}
use battery.Types.{Event}
use battery.Store.Error.{Error, Result, ok, err}
use battery.Store.Rows.{PoolRow, VmRow, LeaseRow, HostRow}

pub record Placement : Type 0 where
  pub id : String
  pub host : String
  pub pool_name : String
  pub pool_namespace : String
  pub created_at : ℕ

-- The tables of schema.sql with its migrations applied. `last_event_id` is the AUTOINCREMENT
-- counter of `events`.
pub record Db : Type 0 where
  pub pools : List PoolRow
  pub vms : List VmRow
  pub leases : List LeaseRow
  pub events : List Event
  pub last_event_id : ℕ
  pub hosts : List HostRow
  pub placements : List Placement

abbrev pub empty : Db
empty = record {
  pools = [];
  vms = [];
  leases = [];
  events = [];
  last_event_id = 0;
  hosts = [];
  placements = [];
}

abbrev pub Tx : Type 0 → Type 0
Tx A = Db → Result (A × Db)

abbrev pub continue : {A B : Type 0} → Result (A × Db) → (A → Tx B) → Result (B × Db)
continue (ok (a, d)) f = f a d
continue (err e) f = err e

infixl 5 ◌>>=◌ ◌>>◌
abbrev pub ◌>>=◌ : {A B : Type 0} → Tx A → (A → Tx B) → Tx B
◌>>=◌ m f d = continue (m d) f

abbrev pub ◌>>◌ : {B : Type 0} → Tx (Unit {0}) → Tx B → Tx B
m >> k = m >>= λ _. k

abbrev pub pure : {A : Type 0} → A → Tx A
pure a d = ok (a, d)

abbrev pub lift : {A : Type 0} → Result A → Tx A
lift (ok a) d = ok (a, d)
lift (err e) d = err e

-- A SELECT
abbrev pub query : {A : Type 0} → (Db → A) → Tx A
query f d = ok (f d, d)

-- An UPDATE or DELETE
abbrev pub modify : (Db → Db) → Tx (Unit {0})
modify f d = ok (tt, f d)

-- Return with an error, unless the test passes.
abbrev pub require : (Db → Bool) → Error → Tx (Unit {0})
require p e d = if p d then ok (tt, d) else err e

-- The one row of a query, or an error for sql.ErrNoRows.
abbrev pub or_fail : {A : Type 0} → Option A → Error → Tx A
or_fail none e d = err e
or_fail (some a) e d = ok (a, d)

-- The database after a call: the committed one, or the old one after a rollback.
abbrev pub commit : {A : Type 0} → Db → Result (A × Db) → Db
commit d (ok (a, d')) = d'
commit d (err e) = d

-- The binary collation of SQLite's TEXT and strings.Compare: byte by byte.
abbrev pub str_le : String → String → Bool
str_le s t = is_le (compare s t)

-- A query with LIMIT 1 and no ORDER BY gives some row that matches. `i` is SQLite's choice: the row
-- at that position, or the last one.
unfoldable pub choose {ℓ} : {A : Type ℓ} → ℕ → List A → Option A
choose i [] = none
choose zero (x ∷ xs) = some x
choose (suc i) (x ∷ []) = some x
choose (suc i) (x ∷ y ∷ xs) = choose i (y ∷ xs)
