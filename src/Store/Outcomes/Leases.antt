-- ===== src/Store/Outcomes/Leases.antt =====
-- The calls on leases and events.
use battery.Prelude.{
  unix_nano, ℕ, suc, String, true, false, some, [], ◌∷◌, ◌++◌, string_eq, ◌≡◌, inl, inr, Bool-cases,
  Option-cases, ltb,
}
use battery.Types.{VmRecord, LeaseRecord, Event, phase_eq}
use battery.Table.{find, update, remove, any}
use battery.Store.Error.{ok, Result-cases}
use battery.Store.Rows.{VmRow, LeaseRow, vm_to_row, lease_to_row, row_to_lease, require_timestamp}
use battery.Store.Db.{Db}
use battery.Store.Vms.{may_update, overwrite_vm, update_vm}
use battery.Store.Leases.{
  has_lease_id, same_lease, same_request, is_expired, create_lease, insert_lease_row, lease_vm,
  renew_row, update_lease_heartbeat, delete_lease, delete_lease_if_expired,
}
use battery.Store.Events.{append_event}
use battery.Store.Outcomes.{Post, Post-bind}
use battery.Store.Outcomes.Vms.{with_vm, update_vm-Post}

module _ (d : Db) where
  insert_lease_row-Post :
      (row : LeaseRow) (Q : Unit {0} → Db → Type 0)
      → (any (λ l. same_lease l row) d.leases ≡ false
          → any (λ l. same_request l row) d.leases ≡ false
          → Q tt (record d { leases = d.leases ++ row ∷ [] }))
      → Post (insert_lease_row row d) Q
  unfolding insert_lease_row
  insert_lease_row-Post row Q k = elim (Bool-cases (any (λ l. same_lease l row) d.leases)) [
    | inl g ↦ rw g tt
    | inr g ↦ rw g (elim (Bool-cases (any (λ l. same_request l row) d.leases)) [
      | inl u ↦ rw u tt
      | inr u ↦ rw u (k g u)
    ])
  ]

  pub create_lease-Post :
      (l : LeaseRecord) (Q : Unit {0} → Db → Type 0)
      → ((row : LeaseRow)
          → lease_to_row l ≡ ok row
          → any (λ m. same_lease m row) d.leases ≡ false
          → any (λ m. same_request m row) d.leases ≡ false
          → Q tt (record d { leases = d.leases ++ row ∷ [] }))
      → Post (create_lease l d) Q
  unfolding create_lease
  create_lease-Post l Q k = elim (Result-cases (lease_to_row l)) [
    | inr (e, h) ↦ rw h tt
    | inl (row, h) ↦ rw h (unfold insert_lease_row in insert_lease_row-Post row Q (k row h))
  ]

module _ (d : Db) where
  pub lease_vm-Post :
      (v : VmRecord) (l : LeaseRecord) (Q : Unit {0} → Db → Type 0)
      → ((vm : VmRow) (lease : LeaseRow)
          → vm_to_row v ≡ ok vm
          → any (may_update vm) d.vms ≡ true
          → lease_to_row l ≡ ok lease
          → any (λ m. same_lease m lease) d.leases ≡ false
          → any (λ m. same_request m lease) d.leases ≡ false
          → Q tt (record d {
            vms = update (may_update vm) (overwrite_vm vm) d.vms;
            leases = d.leases ++ lease ∷ [];
          }))
      → Post (lease_vm v l d) Q
  unfolding lease_vm
  lease_vm-Post v l Q k =
      Post-bind (update_vm v d) (λ _. create_lease l) Q
        (update_vm-Post d v (λ _ d'. Post (create_lease l d') Q)
          λ vm h g. create_lease-Post (with_vm d vm) l Q λ lease. k vm lease h g)

  pub update_lease_heartbeat-Post :
      (id : String) (at expires : ℕ) (Q : Unit {0} → Db → Type 0)
      → (any (has_lease_id id) d.leases ≡ true
          → Q tt (record d {
            leases =
                update (has_lease_id id) (renew_row (unix_nano at) (unix_nano expires)) d.leases;
          }))
      → Post (update_lease_heartbeat id at expires d) Q
  unfolding update_lease_heartbeat
  update_lease_heartbeat-Post id at expires Q k =
      elim (Bool-cases (any (has_lease_id id) d.leases)) [ inr g ↦ rw g tt | inl g ↦ rw g (k g) ]

  pub delete_lease-Post :
      (id : String) (Q : Unit {0} → Db → Type 0)
      → (any (has_lease_id id) d.leases ≡ true
          → Q tt (record d { leases = remove (has_lease_id id) d.leases }))
      → Post (delete_lease id d) Q
  unfolding delete_lease
  delete_lease-Post id Q k = elim (Bool-cases (any (has_lease_id id) d.leases)) [
    | inr g ↦ rw g tt
    | inl g ↦ rw g (k g)
  ]

  pub delete_lease_if_expired-Post :
      (id : String) (now : ℕ) (Q : LeaseRecord → Db → Type 0)
      → ((row : LeaseRow)
          → find (has_lease_id id) d.leases ≡ some row
          → ltb (unix_nano now) row.expires_at ≡ false
          → Q
              (row_to_lease row)
              (record d { leases = remove (is_expired id (unix_nano now)) d.leases }))
      → Post (delete_lease_if_expired id now d) Q
  unfolding delete_lease_if_expired
  delete_lease_if_expired-Post id now Q k = elim (Option-cases (find (has_lease_id id) d.leases)) [
    | inl g ↦ rw g tt
    | inr (row, g) ↦ rw g (elim (Bool-cases (ltb (unix_nano now) row.expires_at)) [
      | inl u ↦ rw u tt
      | inr u ↦ rw u (elim (Bool-cases (any (is_expired id (unix_nano now)) d.leases)) [
        | inr x ↦ rw x tt
        | inl x ↦ rw x (k row g u)
      ])
    ])
  ]

  pub append_event-Post :
      (e : Event) (Q : ℕ → Db → Type 0)
      → ((created : ℕ)
          → require_timestamp e.created_at ≡ ok created
          → Q (suc d.last_event_id) (record d {
            events =
                d.events
                ++ record e { id = suc d.last_event_id; created_at = some (unix_nano created) }
                  ∷ [];
            last_event_id = suc d.last_event_id;
          }))
      → Post (append_event e d) Q
  unfolding append_event
  append_event-Post e Q k = elim (Result-cases (require_timestamp e.created_at)) [
    | inr (x, h) ↦ rw h tt
    | inl (created, h) ↦ rw h (k created h)
  ]
