-- ===== src/Reconciler/Sweeper/Warned.antt =====
-- The map `warned` of internal/reconciler/sweeper.go: an expiry is warned of once.
use battery.Prelude.{
  unix_nano, unix_epoch, ℕ, ◌≡◌, Bool, true, not, List, [], ◌∷◌, ◌==◌, string_eq, nat_eq,
  if◌then◌else◌,
}
use battery.Types.{LeaseRecord, vm_expiring_soon}
use battery.Table.{select}
use battery.Store.Rows.{or_else}
use battery.Store.Pools.{get_pool}
use battery.World.{World, Prog, ◌>>◌, store, pure, try}
use battery.Reconciler.Deletion.{emit_event}
use battery.Reconciler.Sweeper.{Warned, remember, has_warned}

abbrev pub expiry : LeaseRecord → ℕ
expiry l = or_else l.expires_at unix_epoch

-- The expiry, as the map has it.
abbrev pub nano : LeaseRecord → ℕ
nano l = unix_nano (expiry l)

abbrev pub same_id : LeaseRecord → LeaseRecord → Bool
same_id l m = l.lease_id == m.lease_id

-- A warning: the event VM_EXPIRING_SOON for the lease's VM, if the store finds the pool.
abbrev pub warning : LeaseRecord → Prog (Unit {0})
warning l =
    try (store (get_pool l.pool_name l.pool_namespace)) (λ _. pure tt)
      (λ p. emit_event p.name p.namespace l.vm_uid vm_expiring_soon)

abbrev pub warnings : List LeaseRecord → Prog (Unit {0})
warnings [] = pure tt
warnings (l ∷ ls) = do warning l; warnings ls

-- The leases of whose expiry the map does not tell.
abbrev pub unwarned : Warned → List LeaseRecord → List LeaseRecord
unwarned warned ls = select (λ l. not (has_warned l.lease_id (nano l) warned)) ls

-- What the loop makes of the map.
abbrev noted : LeaseRecord → Warned → Warned
noted l warned =
    if has_warned l.lease_id (nano l) warned then warned else remember l.lease_id (nano l) warned

abbrev note_all : List LeaseRecord → Warned → Warned
note_all [] warned = warned
note_all (l ∷ ls) warned = note_all ls (noted l warned)

Told : Warned → LeaseRecord → Type 0
Told warned l = has_warned l.lease_id (nano l) warned ≡ true
