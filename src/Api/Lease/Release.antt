-- ===== src/Api/Lease/Release.antt =====
-- ReleaseVM of internal/api/lease.go.
use mathlib.Core.Path.{subst}
use battery.Prelude.{
  ℕ, suc, ◌≡◌, refl, sym, ap, ◌∙◌, Bool, true, false, String, List, some, Bool-cases, Option-cases,
  inl, inr, ◌⊎◌, beq→eq, string_eq,
}
use battery.Types.{Event, PoolSpec, VmRecord, LeaseRecord, vm_deleted_on_release}
use battery.Table.{any, find}
use battery.Table.Laws.{any_of_find-none, find-matches}
use battery.Store.Error.{Error, Result, ok, err, other, is_not_found, ok-eq-ok}
use battery.Store.Rows.{LeaseRow, row_to_lease, row_to_vm}
use battery.Store.Db.{Db, Tx}
use battery.Store.Pools.{get_pool, is_pool}
use battery.Store.Vms.{has_uid, get_vm}
use battery.Store.Leases.{has_lease_id, get_lease, delete_lease}
use battery.Store.Events.{append_event}
use battery.Store.Outcomes.{Post-ok}
use battery.Store.Outcomes.Leases.{delete_lease-Post, append_event-Post}
use battery.World.{World, store, attempt, pure, ◌>>=◌, ◌>>◌}
use battery.World.Quiet.{Quiet, Ends, Ends-store}
use battery.Reconciler.Deletion.{finish_vm_release, emit_event, ensure_vm_deleted_checking_pool}
use battery.Reconciler.Deletion.Kept.{
  is_not_found-other, Kept, Gone, Ensured, ensure_vm_deleted-Ensured,
}
use battery.Api.Status.{Reply, reply, status, Code, when_ok}
use battery.Api.Lease.{dropped, drop_lease, after_pool, after_delete, release_with, release_vm}

-- A release that succeeds has left no row of the VM; one that fails has left the leases as they were.
abbrev pub Released : List LeaseRow → String → Result (Reply (Unit {0})) → World → Type 0
Released leases uid (ok (reply _)) x = Gone uid x
Released leases uid (ok (status c)) x = x.db.leases ≡ leases
Released leases uid (err e) x = false ≡ true

delete_lease-vms :
    (id : String) (d d' : Db) (u : Unit {0}) → delete_lease id d ≡ ok (u, d') → d'.vms ≡ d.vms
delete_lease-vms id d d' u e =
    Post-ok (delete_lease id d) (λ _ x. x.vms ≡ d.vms) (delete_lease-Post d id _ λ _. refl) e

append_event-vms : (e : Event) (d d' : Db) (i : ℕ) → append_event e d ≡ ok (i, d') → d'.vms ≡ d.vms
append_event-vms e d d' i f =
    Post-ok (append_event e d) (λ _ x. x.vms ≡ d.vms) (append_event-Post d e _ λ _ _. refl) f

get_pool-same : (n s : String) (d d' : Db) (p : PoolSpec) → get_pool n s d ≡ ok (p, d') → d' ≡ d
unfolding get_pool
get_pool-same n s d d' p e = elim (Option-cases (find (is_pool n s) d.pools)) [
  | inl g ↦ cc (rw g at e)
  | inr (row, g) ↦ ap (λ (y : PoolSpec × Db). y.1) (sym (ok-eq-ok (rw g at e)))
]

get_vm-same :
    (uid : String) (d d' : Db) (v : VmRecord) → get_vm uid d ≡ ok (v, d') → (d' ≡ d) × (v.uid ≡ uid)
unfolding get_vm row_to_vm
get_vm-same uid d d' v e = elim (Option-cases (find (has_uid uid) d.vms)) [
  | inl g ↦ cc (rw g at e)
  | inr (row, g) ↦
      let same = ok-eq-ok (rw g at e) in
      (
        ap (λ (y : VmRecord × Db). y.1) (sym same),
        ap (λ (y : VmRecord × Db). y.0.uid) (sym same)
            ∙ beq→eq row.uid uid (find-matches (has_uid uid) d.vms g),
      )
]

get_vm-not_found :
    (uid : String) (d : Db) (e : Error) → get_vm uid d ≡ err e → any (has_uid uid) d.vms ≡ false
unfolding get_vm
get_vm-not_found uid d e h = elim (Option-cases (find (has_uid uid) d.vms)) [
  | inl g ↦ any_of_find-none (has_uid uid) d.vms g
  | inr (row, g) ↦ cc (rw g at h)
]

module _ (leases : List LeaseRow) (id uid : String) (lease : LeaseRecord) where
  drop_lease-Released :
      (w : World) → Gone uid w → Kept leases w → Ends (drop_lease id lease w) (Released leases uid)
  unfolding is_not_found
  drop_lease-Released w gone k =
      Ends-store (delete_lease id) w (λ o x. Ends (dropped lease o x) (Released leases uid)) k.0
        (λ u d e. rw (delete_lease-vms id w.db d u e) gone)
        (λ e _. elim (Bool-cases (is_not_found e)) [ inl n ↦ rw n gone | inr n ↦ rw n k.1 ])

  after_pool-Released :
      {A : Type 0} (o : Result A) (w : World)
      → Gone uid w
      → Kept leases w
      → Ends (after_pool id lease o w) (Released leases uid)
  after_pool-Released (ok a) w gone k = gone
  after_pool-Released (err e) w gone k = elim (Bool-cases (is_not_found e)) [
    | inl n ↦ rw n (drop_lease-Released w gone k)
    | inr n ↦ rw n k.1
  ]

  -- A store call that leaves the VMs alone.
  Gone-store :
      {A : Type 0} (op : Tx A) (w : World)
      → ((a : A) (d : Db) → op w.db ≡ ok (a, d) → d.vms ≡ w.db.vms)
      → Quiet w
      → Gone uid w
      → Quiet (store op w).1 × Gone uid (store op w).1
  Gone-store op w same q gone =
      Ends-store op w (λ _ x. Quiet x × Gone uid x) q (λ a d e. (q, rw (same a d e) gone))
        (λ e _. (q, gone))

  finish_vm_release-Gone :
      (vm : VmRecord) (w : World)
      → Gone uid w
      → Quiet w
      → Ends
          ((finish_vm_release lease.pool_name lease.pool_namespace vm lease >> pure (reply tt)) w)
          (Released leases uid)
  unfolding finish_vm_release emit_event
  finish_vm_release-Gone vm w gone q =
      let ended =
        Gone-store (delete_lease lease.lease_id) w
          (λ u d e. delete_lease-vms lease.lease_id w.db d u e) q gone in
      let x = (store (delete_lease lease.lease_id) w).1 in
      (Gone-store (append_event (event vm x)) x (λ i d e. append_event-vms (event vm x) x.db d i e)
        ended.0 ended.1).1
    where
      event : VmRecord → World → Event
      event vm x = record {
        id = 0;
        pool_name = lease.pool_name;
        pool_namespace = lease.pool_namespace;
        vm_uid = vm.uid;
        type = vm_deleted_on_release;
        created_at = some (x.env.clock x.time);
        payload_json = "";
      }

  after_delete-Released :
      (vm : VmRecord) (o : Result Bool) (w : World)
      → Ensured leases uid o w
      → Ends (after_delete id lease vm o w) (Released leases uid)
  after_delete-Released vm (ok true) w (gone, k) = finish_vm_release-Gone vm w gone k.0
  after_delete-Released vm (ok false) w (gone, k) = drop_lease-Released w gone k
  after_delete-Released vm (err e) w (missing, k) = elim (Bool-cases (is_not_found e)) [
    | inr n ↦ rw n k.1
    | inl n ↦ rw n (
        let gone : Gone uid w = elim missing [ inl m ↦ cc (n, m) | inr g ↦ g ] in
        Ends-store (get_pool lease.pool_name lease.pool_namespace) w
          (λ o x. Ends (after_pool id lease o x) (Released leases uid)) k.0
          (λ p d f.
            after_pool-Released (ok p) (record w { db = d; time = suc w.time })
              (rw (get_pool-same lease.pool_name lease.pool_namespace w.db d p f) gone)
              (k.0, rw (get_pool-same lease.pool_name lease.pool_namespace w.db d p f) k.1))
          (λ x f.
            after_pool-Released {A = PoolSpec} (err x) (record w { time = suc w.time }) gone k))
  ]

  no_row :
      (w : World)
      → lease.vm_uid ≡ uid
      → (e : Error) → is_not_found e ≡ true
      → (get_vm lease.vm_uid w.db ≡ err e) ⊎ (e ≡ other)
      → Gone uid w
  no_row w same e n (inl h) =
      subst (λ u. any (has_uid u) w.db.vms ≡ false) same (get_vm-not_found lease.vm_uid w.db e h)
  no_row w same e n (inr h) = cc (ap is_not_found h, is_not_found-other, n)

  release_with-Released :
      (w : World)
      → lease.vm_uid ≡ uid
      → Kept leases w
      → Ends
          ((do vm ← attempt (store (get_vm lease.vm_uid)); release_with id lease vm) w)
          (Released leases uid)
  release_with-Released w same k =
      Ends-store (get_vm lease.vm_uid) w
        (λ o x. Ends (release_with id lease o x) (Released leases uid)) k.0
        (λ vm d e.
          let read = get_vm-same lease.vm_uid w.db d vm e in
          let x = record w { db = d; time = suc w.time } in
          let o = ensure_vm_deleted_checking_pool vm x in
          after_delete-Released vm o.0 o.1 (
            subst (λ u. Ensured leases u o.0 o.1) (read.1 ∙ same)
              (ensure_vm_deleted-Ensured leases vm x (k.0, rw read.0 k.1))))
        (λ e f. elim (Bool-cases (is_not_found e)) [
          | inr n ↦ rw n k.1
          | inl n ↦
              rw n (drop_lease-Released (record w { time = suc w.time }) (no_row w same e n f) k)
        ])

get_lease-found :
    (id : String) (d : Db) (row : LeaseRow)
    → find (has_lease_id id) d.leases ≡ some row
    → get_lease id d ≡ ok (row_to_lease row, d)
unfolding get_lease
get_lease-found id d row e = rw e refl

release_vm-Released :
    (id : String) (w : World) (row : LeaseRow)
    → Quiet w
    → find (has_lease_id id) w.db.leases ≡ some row
    → Ends (release_vm id w) (Released w.db.leases row.vm_uid)
unfolding release_vm row_to_lease
release_vm-Released id w row q found =
    Ends-store (get_lease id) w
      (λ o x.
        Ends
          (when_ok o
            (λ lease. do vm ← attempt (store (get_vm lease.vm_uid)); release_with id lease vm) x)
          (Released w.db.leases row.vm_uid))
      q
      (λ lease d e.
        let read = ok-eq-ok (sym (get_lease-found id w.db row found) ∙ e) in
        subst
          (λ (y : LeaseRecord × Db).
            Ends
              ((do vm ← attempt (store (get_vm y.0.vm_uid)); release_with id y.0 vm)
                (record w { db = y.1; time = suc w.time }))
              (Released w.db.leases row.vm_uid))
          read
          (release_with-Released w.db.leases id row.vm_uid (row_to_lease row)
            (record w { time = suc w.time }) refl (q, refl)))
      (λ e _. refl)

-- ReleaseVM of a lease that has a row, while no other goroutine calls the store but store calls may fail
-- and flintlock may not answer: either it succeeds and the VM has no row any more, or it answers with an
-- error and no lease has been removed or changed, so that the release can be repeated.
pub release_vm_outcomes :
    (id : String) (w : World) (row : LeaseRow)
    → Quiet w
    → find (has_lease_id id) w.db.leases ≡ some row
    → ((x : World) × (release_vm id w ≡ (ok (reply tt), x))
        × (any (has_uid row.vm_uid) x.db.vms ≡ false))
      ⊎ ((c : Code) × (x : World) × (release_vm id w ≡ (ok (status c), x))
          × (x.db.leases ≡ w.db.leases))
release_vm_outcomes id w row q found =
    outcomes (release_vm id w) (release_vm-Released id w row q found)
  where
    outcomes :
        (r : Result (Reply (Unit {0})) × World)
        → Ends r (Released w.db.leases row.vm_uid)
        → ((x : World) × (r ≡ (ok (reply tt), x)) × (any (has_uid row.vm_uid) x.db.vms ≡ false))
          ⊎ ((c : Code) × (x : World) × (r ≡ (ok (status c), x)) × (x.db.leases ≡ w.db.leases))
    outcomes (ok (reply u), x) h = inl (x, refl, h)
    outcomes (ok (status c), x) h = inr (c, x, refl, h)
    outcomes (err e, x) h = cc h
