-- ===== src/Examples/Migrations.antt =====
-- Opening databases of internal/store/sqlite.go.
use battery.Prelude.{◌≡◌, refl, true, false, [], nat_eq, ◌==◌, string_eq, arith}
use battery.Table.{any, update}
use battery.Store.Migration.{
  Trouble, open_store, exec_script, exec, migrate, migrate_from, apply_migration, exec_all,
}
use battery.Store.Migration.Complete.{Opened, schema_at, open_store-Opened}

abbrev no_trouble : Trouble
no_trouble = record {
  opening = false;
  statement = λ i. false;
  reading = false;
  migrating = λ n. false;
}

-- The disk is full at the second migration.
abbrev full_disk : Trouble
full_disk = record no_trouble { migrating = λ n. n == 2 }

open_store-Opened_example : Opened full_disk 0 (open_store full_disk (schema_at 0))
open_store-Opened_example = open_store-Opened full_disk 0 (omega arith)

stays_at_1 : open_store full_disk (schema_at 0) ≡ (false, schema_at 1)
unfolding open_store exec_script exec migrate migrate_from apply_migration exec_all any update
stays_at_1 = refl

-- A new file.
opens_empty :
    open_store no_trouble (record { tables = []; indexes = []; version = 0 }) ≡ (true, schema_at 3)
unfolding open_store exec_script exec migrate migrate_from apply_migration exec_all any update
opens_empty = refl
