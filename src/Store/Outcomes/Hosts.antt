-- ===== src/Store/Outcomes/Hosts.antt =====
-- The calls on hosts and placements.
use battery.Prelude.{
  unix_nano, ℕ, String, Bool, true, false, ◌&&◌, some, List, [], ◌∷◌, ◌++◌, map, ◌==◌, string_eq,
  ◌≡◌, inl, inr, Bool-cases, Option-cases,
}
use battery.Types.{VmRecord, Host, phase_eq}
use battery.Table.{select, find, update, remove, any, sort_by}
use battery.Store.Error.{ok, Result-cases}
use battery.Store.Rows.{VmRow, HostRow, host_to_row, row_to_vm, row_to_host}
use battery.Store.Db.{Db, pure}
use battery.Store.Pools.{mark_deleting, uid_le}
use battery.Store.Outcomes.{Post, Post-bind}
use battery.Store.Hosts.{
  is_host, same_host, set_address, on_host, is_empty, is_zero, set_cordoned, set_draining,
  is_unleased, create_host, get_host, update_host, vms_and_placements, pools_naming, delete_host,
  set_host_cordoned, drain_host, reserve_placement,
}

module _ (d : Db) where
  pub create_host-Post :
      (h : Host) (Q : Unit {0} → Db → Type 0)
      → ((row : HostRow)
          → host_to_row h ≡ ok row
          → any (λ k. same_host k row) d.hosts ≡ false
          → Q tt (record d { hosts = d.hosts ++ row ∷ [] }))
      → Post (create_host h d) Q
  unfolding create_host
  create_host-Post h Q k = elim (Result-cases (host_to_row h)) [
    | inr (e, g) ↦ rw g tt
    | inl (row, g) ↦ rw g (elim (Bool-cases (any (λ k. same_host k row) d.hosts)) [
      | inl u ↦ rw u tt
      | inr u ↦ rw u (k row g u)
    ])
  ]

-- A query leaves the database alone.
get_host-Post :
    (d : Db) (name : String) (Q : Host → Db → Type 0)
    → ((row : HostRow) → find (is_host name) d.hosts ≡ some row → Q (row_to_host row) d)
    → Post (get_host name d) Q
unfolding get_host
get_host-Post d name Q k = elim (Option-cases (find (is_host name) d.hosts)) [
  | inl g ↦ rw g tt
  | inr (row, g) ↦ rw g (k row g)
]

module _ (d : Db) where
  pub update_host-Post :
      (now : ℕ) (h : Host) (Q : Host → Db → Type 0)
      → (any (is_host h.name) d.hosts ≡ true
          → (row : HostRow)
          → find (is_host h.name) (update (is_host h.name) (set_address now h) d.hosts) ≡ some row
          → Q
              (row_to_host row)
              (record d { hosts = update (is_host h.name) (set_address now h) d.hosts }))
      → Post (update_host now h d) Q
  unfolding update_host
  update_host-Post now h Q k = elim (Bool-cases (any (is_host h.name) d.hosts)) [
    | inr g ↦ rw g tt
    | inl g ↦ rw g (unfold get_host in get_host-Post _ h.name Q (k g))
  ]

  pub delete_host-Post :
      (name : String) (Q : Unit {0} → Db → Type 0)
      → (any (is_host name) d.hosts ≡ true
          → (is_empty (pools_naming name d) && is_zero (vms_and_placements name d)) ≡ true
          → Q tt (record d { hosts = remove (is_host name) d.hosts }))
      → Post (delete_host name d) Q
  unfolding delete_host
  delete_host-Post name Q k = elim (Bool-cases (any (is_host name) d.hosts)) [
    | inr g ↦ rw g tt
    | inl g ↦
        rw g
          (elim (Bool-cases
            (is_empty (pools_naming name d) && is_zero (vms_and_placements name d))) [
              | inr u ↦ rw u tt
              | inl u ↦ rw u (k g u)
            ])
  ]

  pub set_host_cordoned-Post :
      (now : ℕ) (name : String) (c : Bool) (reason : String) (Q : Host → Db → Type 0)
      → (any (is_host name) d.hosts ≡ true
          → (row : HostRow)
          → find (is_host name) (update (is_host name) (set_cordoned now c reason) d.hosts)
            ≡ some row
          → Q
              (row_to_host row)
              (record d { hosts = update (is_host name) (set_cordoned now c reason) d.hosts }))
      → Post (set_host_cordoned now name c reason d) Q
  unfolding set_host_cordoned
  set_host_cordoned-Post now name c reason Q k = elim (Bool-cases (any (is_host name) d.hosts)) [
    | inr g ↦ rw g tt
    | inl g ↦ rw g (unfold get_host in get_host-Post _ name Q (k g))
  ]

  -- The VMs that a drain marks, as they are afterwards.
  abbrev pub marked_vms : ℕ → (VmRow → Bool) → List VmRecord
  marked_vms now p =
      map row_to_vm
        (sort_by uid_le (map (mark_deleting now) (select (λ v. p v && is_unleased v) d.vms)))

  -- The database that a drain of `name` commits.
  abbrev pub drained : ℕ → String → String → Db
  drained now name reason = record d {
    hosts = update (is_host name) (set_draining now reason) d.hosts;
    vms = update (λ v. on_host name v && is_unleased v) (mark_deleting now) d.vms;
  }

  pub drain_host-Post :
      (now : ℕ) (name reason : String) (Q : Host × List VmRecord → Db → Type 0)
      → (any (is_host name) d.hosts ≡ true
          → (row : HostRow)
          → find (is_host name) (update (is_host name) (set_draining now reason) d.hosts) ≡ some row
          → Q (row_to_host row, marked_vms now (on_host name)) (drained now name reason))
      → Post (drain_host now name reason d) Q
  unfolding drain_host
  drain_host-Post now name reason Q k = elim (Bool-cases (any (is_host name) d.hosts)) [
    | inr g ↦ rw g tt
    | inl g ↦ rw g (
        unfold get_host in
        Post-bind (get_host name (drained now name reason))
          (λ host. pure (host, marked_vms now (on_host name))) Q
          (get_host-Post (drained now name reason) name _ (k g)))
  ]

  pub reserve_placement-Post :
      (now : ℕ) (id host n s : String) (Q : Unit {0} → Db → Type 0)
      → ((row : HostRow)
          → find (is_host host) d.hosts ≡ some row
          → row.cordoned ≡ false
          → any (λ p. p.id == id) d.placements ≡ false
          → Q tt (record d {
            placements =
                d.placements
                ++ record {
                  id = id;
                  host = host;
                  pool_name = n;
                  pool_namespace = s;
                  created_at = unix_nano now;
                }
                  ∷ [];
          }))
      → Post (reserve_placement now id host n s d) Q
  unfolding reserve_placement
  reserve_placement-Post now id host n s Q k = elim (Option-cases (find (is_host host) d.hosts)) [
    | inl g ↦ rw g tt
    | inr (row, g) ↦ rw g (elim (Bool-cases row.cordoned) [
      | inl u ↦ rw u tt
      | inr u ↦ rw u (elim (Bool-cases (any (λ p. p.id == id) d.placements)) [
        | inl x ↦ rw x tt
        | inr x ↦ rw x (k row g u x)
      ])
    ])
  ]
