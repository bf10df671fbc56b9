-- ===== src/Store/Leasing.antt =====
-- LeaseVM of internal/store/sqlite.go, and the rows of leases in internal/store/convert.go.
use mathlib.Core.Path.{subst}
use battery.Prelude.{
  ℕ, ◌<◌, ◌^◌, ap, Option, unix_nano-small, eq_iff, ◌≡◌, refl, sym, ◌∙◌, Bool, true, false, none,
  some, String, List, [], ◌∷◌, ◌++◌, arith, ◌==◌, string_eq, Bool-cases, inl, inr, ◌⊎◌, beq→eq,
  beq_refl,
}
use battery.Types.{VmRecord, LeaseRecord}
use battery.Table.{find, any}
use battery.Table.Laws.{find-append, find-none}
use battery.Store.Error.{ok}
use battery.Store.Rows.{
  VmRow, LeaseRow, vm_to_row, lease_to_row, row_to_lease, null_if_empty, optional_nano,
}
use battery.Store.Db.{Db}
use battery.Store.Vms.{may_update}
use battery.Store.Leases.{has_lease_id, has_request_id, same_lease, same_request, lease_vm}
use battery.Store.Outcomes.{Post-ok}
use battery.Store.Outcomes.Vms.{with_vm}
use battery.Store.Outcomes.Leases.{lease_vm-Post}

-- The timestamp lies before the year 2262, as every int64 of nanoseconds does.
abbrev pub InRange : Option ℕ → Type 0
InRange none = Unit {0}
InRange (some t) = t < 2 ^ 64

InRange-nano : (o : Option ℕ) → InRange o → optional_nano o ≡ o
InRange-nano none h = refl
InRange-nano (some t) h = ap some (unix_nano-small t h)

-- What comes back from the row, with every timestamp as an int64.
read_back :
    (l : LeaseRecord) (row : LeaseRow)
    → lease_to_row l ≡ ok row
    → row_to_lease row ≡ record l {
      claimed_at = optional_nano l.claimed_at;
      last_heartbeat_at = optional_nano l.last_heartbeat_at;
      expires_at = optional_nano l.expires_at;
    }
unfolding lease_to_row row_to_lease
read_back l row e = ground (arith, eq_iff l.request_id "")

-- A lease message that leaseToRow accepts, with timestamps that an int64 of nanoseconds can hold,
-- comes back from its row as it was.
pub lease_to_row-row_to_lease :
    (l : LeaseRecord) (row : LeaseRow)
    → InRange l.claimed_at
    → InRange l.last_heartbeat_at
    → InRange l.expires_at
    → lease_to_row l ≡ ok row
    → row_to_lease row ≡ l
lease_to_row-row_to_lease l row a b c e =
    read_back l row e
    ∙ rw
        (
          InRange-nano l.claimed_at a,
          InRange-nano l.last_heartbeat_at b,
          InRange-nano l.expires_at c,
        )
        refl

-- What LeaseVM of `v` and `l` has done, from `d` to `d'`.
pub record Leased (v : VmRecord) (l : LeaseRecord) (d d' : Db) : Type 0 where
  pub vm : VmRow
  pub is_vm : vm_to_row v ≡ ok vm
  pub writable : any (may_update vm) d.vms ≡ true
  pub lease : LeaseRow
  pub is_lease : lease_to_row l ≡ ok lease
  pub by_id : find (has_lease_id l.lease_id) d'.leases ≡ some lease
  pub by_request : (l.request_id ≡ "") ⊎ (find (has_request_id l.request_id) d'.leases ≡ some lease)
  pub others :
      (id : String)
      → (l.lease_id == id) ≡ false
      → find (has_lease_id id) d'.leases ≡ find (has_lease_id id) d.leases
  pub rest : d' ≡ record (with_vm d vm) { leases = d'.leases }

lease_to_row-keys :
    (l : LeaseRecord) (row : LeaseRow)
    → lease_to_row l ≡ ok row
    → (row.lease_id ≡ l.lease_id) × (row.request_id ≡ null_if_empty l.request_id)
unfolding lease_to_row
lease_to_row-keys l row e = ground arith

-- A lookup that no row matches finds the row that is appended, if it matches.
find-append_new :
    (p : LeaseRow → Bool) (ls : List LeaseRow) (row : LeaseRow)
    → any p ls ≡ false
    → p row ≡ true
    → find p (ls ++ row ∷ []) ≡ some row
unfolding find
find-append_new p ls row e f = find-append p ls (row ∷ []) ∙ rw (e, f)

find-append_old :
    (p : LeaseRow → Bool) (ls : List LeaseRow) (row : LeaseRow)
    → p row ≡ false
    → find p (ls ++ row ∷ []) ≡ find p ls
unfolding find
find-append_old p ls row e = elim (Bool-cases (any p ls)) [
  | inl t ↦ find-append p ls (row ∷ []) ∙ rw t
  | inr t ↦ find-append p ls (row ∷ []) ∙ rw (t, e) (sym (find-none p ls t))
]

module _ (l : LeaseRecord) (row : LeaseRow) (ls : List LeaseRow) (e : lease_to_row l ≡ ok row) where
  appended-by_id :
      any (λ m. same_lease m row) ls ≡ false
      → find (has_lease_id l.lease_id) (ls ++ row ∷ []) ≡ some row
  appended-by_id free =
      subst (λ id. find (has_lease_id id) (ls ++ row ∷ []) ≡ some row) (lease_to_row-keys l row e).0
        (find-append_new (has_lease_id row.lease_id) ls row free (beq_refl row.lease_id))

  appended-by_request :
      any (λ m. same_request m row) ls ≡ false
      → (l.request_id ≡ "") ⊎ (find (has_request_id l.request_id) (ls ++ row ∷ []) ≡ some row)
  unfolding null_if_empty
  appended-by_request unused = elim (Bool-cases (l.request_id == "")) [
    | inl t ↦ inl (beq→eq l.request_id "" t)
    | inr t ↦
        let request : row.request_id ≡ some l.request_id = (lease_to_row-keys l row e).1 ∙ rw t in
        inr (
          find-append_new (has_request_id l.request_id) ls row
            (subst
              (λ r. any (λ m. elim r [ none ↦ false | some s ↦ has_request_id s m ]) ls ≡ false)
              request unused)
            (rw (request, has_request_id) (beq_refl l.request_id)))
  ]

  appended-others :
      (id : String)
      → (l.lease_id == id) ≡ false
      → find (has_lease_id id) (ls ++ row ∷ []) ≡ find (has_lease_id id) ls
  appended-others id off =
      find-append_old (has_lease_id id) ls row (rw ((lease_to_row-keys l row e).0) off)

-- LeaseVM that succeeds has written the VM and the lease together: the VM's row was there and
-- writable and is overwritten, the lease is found by its id and, if it has a request ID, by that; every
-- other lease is found as before, and no other table has changed.
pub lease_vm-Leased :
    (v : VmRecord) (l : LeaseRecord) (d d' : Db) (u : Unit {0})
    → lease_vm v l d ≡ ok (u, d')
    → Leased v l d d'
lease_vm-Leased v l d d' u e =
    Post-ok (lease_vm v l d) (λ _. Leased v l d)
      (lease_vm-Post d v l (λ _. Leased v l d)
        λ vm lease is_vm writable is_lease free unused. record {
          vm = vm;
          is_vm = is_vm;
          writable = writable;
          lease = lease;
          is_lease = is_lease;
          by_id = appended-by_id l lease d.leases is_lease free;
          by_request = appended-by_request l lease d.leases is_lease unused;
          others = appended-others l lease d.leases is_lease;
          rest = refl;
        })
      e
