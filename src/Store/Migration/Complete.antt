-- ===== src/Store/Migration/Complete.antt =====
-- What Open of internal/store/sqlite.go makes of a database of each version.
use mathlib.Core.Path.{subst}
use battery.Prelude.{
  ℕ, zero, suc, ◌≤◌, ◌≡◌, refl, sym, String, Bool, true, false, some, List, [], ◌∷◌, string_eq,
  if◌then◌else◌, ltb, arith, All, ◌⊎◌, Bool-cases, inl, inr,
}
use battery.Table.{any, update}
use battery.Store.Migration.{
  Schema, Statement, Trouble, exec, exec_script, exec_all, baseline, migrations, migrate,
  migrate_from, migrations_after, apply_migration, open_store,
}

abbrev since : ℕ → ℕ → List String → List String
since v n columns = if ltb v n then [] else columns

-- The database that the store's methods expect of a binary with the first `v` migrations.
abbrev pub schema_at : ℕ → Schema
schema_at v = record {
  tables =
      record {
        table = "pools";
        columns =
            "name" ∷ "namespace" ∷ "size" ∷ "flintlock_hosts" ∷ "microvm_template"
            ∷ "replenishment_strategy" ∷ "create_commands" ∷ "pre_lease_commands"
            ∷ "hook_failure_policy" ∷ "heartbeat_interval_ns" ∷ "heartbeat_expiry_threshold_ns"
            ∷ [];
      }
      ∷ record {
        table = "vms";
        columns =
            "uid" ∷ "pool_name" ∷ "pool_namespace" ∷ "flintlock_host" ∷ "phase" ∷ "lease_id"
            ∷ "created_at" ∷ "updated_at" ∷ [];
      }
      ∷ record {
        table = "leases";
        columns =
            "lease_id"
            ∷ "vm_uid"
            ∷ "pool_name"
            ∷ "pool_namespace"
            ∷ "claimed_at"
            ∷ "last_heartbeat_at"
            ∷ "expires_at"
            ∷ since v 1 ("request_id" ∷ []);
      }
      ∷ record {
        table = "events";
        columns =
            "id" ∷ "pool_name" ∷ "pool_namespace" ∷ "vm_uid" ∷ "type" ∷ "created_at"
            ∷ "payload_json" ∷ [];
      }
      ∷ record {
        table = "hosts";
        columns =
            "name"
            ∷ "address"
            ∷ "cordoned"
            ∷ "cordoned_reason"
            ∷ "cordoned_at"
            ∷ "updated_at"
            ∷ since v 2 (
                "tls_insecure"
                ∷ "ca_file"
                ∷ "cert_file"
                ∷ "key_file"
                ∷ since v 3 ("draining" ∷ "draining_at" ∷ []));
      }
      ∷ record {
        table = "placements";
        columns = "id" ∷ "host" ∷ "pool_name" ∷ "pool_namespace" ∷ "created_at" ∷ [];
      }
      ∷ [];
  indexes =
      "idx_vms_pool_phase"
      ∷ "idx_leases_expires_at"
      ∷ "idx_leases_pool"
      ∷ "idx_events_pool_id"
      ∷ "idx_placements_host"
      ∷ since v 1 ("idx_leases_request_id" ∷ []);
  version = v;
}

-- Something has failed.
abbrev pub Troubled : Trouble → Type 0
Troubled t =
    (t.opening ≡ true)
    ⊎ (((i : ℕ) × (t.statement i ≡ true))
        ⊎ ((t.reading ≡ true) ⊎ ((n : ℕ) × (t.migrating n ≡ true))))

-- Open has come to the newest version; or it has failed, at a version that is not older than `v`.
abbrev pub Opened : Trouble → ℕ → Bool × Schema → Type 0
Opened t v r =
    (r ≡ (true, schema_at 3))
    ⊎ ((w : ℕ) × (v ≤ w) × (w ≤ 3) × (r ≡ (false, schema_at w)) × Troubled t)

-- A script whose statements have nothing to do leaves the schema, however far it comes.
idle_script :
    (t : Trouble) (i : ℕ) (xs : List Statement) (s : Schema)
    → All (λ x. exec x s ≡ some s) xs
    → (exec_script t i xs s ≡ (true, s))
      ⊎ ((exec_script t i xs s ≡ (false, s)) × ((k : ℕ) × (t.statement k ≡ true)))
unfolding exec_script
idle_script t i [] s h = inl refl
idle_script t i (x ∷ xs) s h = elim (Bool-cases (t.statement i)) [
  | inl e ↦ inr (rw e refl, (i, e))
  | inr e ↦ rw (e, h.0) (idle_script t (suc i) xs s h.1)
]

baseline_idle : (v : ℕ) → All (λ x. exec x (schema_at v) ≡ some (schema_at v)) baseline
unfolding exec any
baseline_idle v =
    (refl, (refl, (refl, (refl, (refl, (refl, (refl, (refl, (refl, (refl, (refl, tt)))))))))))

stopped : (t : Trouble) (v w : ℕ) → v ≤ w → w ≤ 3 → Troubled t → Opened t v (false, schema_at w)
stopped t v w l m e = inr (w, l, m, refl, e)

migrating_failed : (t : Trouble) (n : ℕ) → t.migrating n ≡ true → Troubled t
migrating_failed t n e = inr (inr (inr (n, e)))

older : (t : Trouble) (v w : ℕ) (r : Bool × Schema) → v ≤ w → Opened t w r → Opened t v r
older t v w r l (inl e) = inl e
older t v w r l (inr (x, a, b, e, why)) = inr (x, omega (arith, l, a), b, e, why)

-- From each version.
abbrev migrated : Trouble → ℕ → Bool × Schema
unfolding migrate_from
migrated t v = migrate_from t v (migrations_after v migrations) (schema_at v)

from_3 : (t : Trouble) → Opened t 3 (migrated t 3)
unfolding migrated migrate_from
from_3 t = inl refl

from_2 : (t : Trouble) → Opened t 2 (migrated t 2)
unfolding migrated migrate_from apply_migration exec_all exec any update
from_2 t = elim (Bool-cases (t.migrating 3)) [
  | inl e ↦ rw e (stopped t 2 2 (omega arith) (omega arith) (migrating_failed t 3 e))
  | inr e ↦ rw e (older t 2 3 _ (omega arith) (from_3 t))
]

from_1 : (t : Trouble) → Opened t 1 (migrated t 1)
unfolding migrated migrate_from apply_migration exec_all exec any update
from_1 t = elim (Bool-cases (t.migrating 2)) [
  | inl e ↦ rw e (stopped t 1 1 (omega arith) (omega arith) (migrating_failed t 2 e))
  | inr e ↦ rw e (older t 1 2 _ (omega arith) (from_2 t))
]

from_0 : (t : Trouble) → Opened t 0 (migrated t 0)
unfolding migrated migrate_from apply_migration exec_all exec any update
from_0 t = elim (Bool-cases (t.migrating 1)) [
  | inl e ↦ rw e (stopped t 0 0 (omega arith) (omega arith) (migrating_failed t 1 e))
  | inr e ↦ rw e (older t 0 1 _ (omega arith) (from_1 t))
]

migrated-Opened : (t : Trouble) (v : ℕ) → v ≤ 3 → Opened t v (migrated t v)
migrated-Opened t zero h = from_0 t
migrated-Opened t (suc zero) h = from_1 t
migrated-Opened t (suc (suc zero)) h = from_2 t
migrated-Opened t (suc (suc (suc zero))) h = from_3 t
migrated-Opened t (suc (suc (suc (suc v)))) h = absurd (omega (arith, h))

-- Open, on a database of any version up to the newest, comes to the newest schema; or something has
-- failed, and it leaves the schema of a version that is not older.
pub open_store-Opened : (t : Trouble) (v : ℕ) → v ≤ 3 → Opened t v (open_store t (schema_at v))
unfolding open_store migrate migrated
open_store-Opened t v h = elim (Bool-cases t.opening) [
  | inl e ↦ stays (rw e refl) (inl e)
  | inr e ↦ elim (idle_script t 0 baseline (schema_at v) (baseline_idle v)) [
    | inr f ↦ stays (rw (e, f.0) refl) (inr (inl f.1))
    | inl f ↦ elim (Bool-cases t.reading) [
      | inl g ↦ stays (rw (e, f, g) refl) (inr (inr (inl g)))
      | inr g ↦ subst (Opened t v) (sym (rw (e, f, g, supported v h) refl)) (migrated-Opened t v h)
    ]
  ]
]
  where
    supported : (v : ℕ) → v ≤ 3 → ltb 3 v ≡ false
    supported v h = ground arith

    stays :
        open_store t (schema_at v) ≡ (false, schema_at v)
        → Troubled t
        → Opened t v (open_store t (schema_at v))
    stays e why = inr (v, omega arith, h, e, why)
