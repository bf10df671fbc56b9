-- ===== src/Reconciler/Provision/Hooks.antt =====
-- The steps of Provision in internal/reconciler/provision.go after the row of the VM is there.
use battery.Prelude.{
  ℕ, zero, suc, ◌≡◌, refl, Bool, true, false, ◌&&◌, String, List, Option, none, some, beq→eq,
  beq_refl, ◌==◌, string_eq, and_left,
}
use battery.Types.{
  VmRecord, VmPhase, PoolSpec, available, create_hook_running, phase_eq, deleting, vm_provisioned,
  vm_available,
}
use battery.Table.{any}
use battery.Table.Laws.{any-update_hit}
use battery.Store.Error.{Error, Result, ok, err, is_not_found}
use battery.Store.Rows.{VmRow}
use battery.Store.Db.{Db}
use battery.Store.Vms.{update_vm, overwrite_vm, may_update, get_vm}
use battery.Store.Events.{append_event}
use battery.Store.Reads.{get_vm-row}
use battery.Store.Outcomes.{Post-ok}
use battery.Store.Outcomes.Vms.{update_vm-Post}
use battery.Store.Outcomes.Leases.{append_event-Post}
use battery.World.{
  ◌>>◌, World, Prog, Poll, in_state_created, in_state_failed, in_other_state, past_deadline,
  unanswered, store, connect, fail, wait_ready, execute_all, handle, pure,
}
use battery.World.Quiet.{Quiet, Ends, Ends-store, Ends-handle}
use battery.World.Steady.{
  Steady, Calm, Safe, Safe-if, Holds-store, Holds-check, Holds-connect, Holds-execute_all, Ends-try,
  Ends-safe,
}
use battery.Reconciler.Deletion.{emit_event}
use battery.Reconciler.Policy.{apply_hook_failure_policy}
use battery.Reconciler.Policy.Kept.{emit_event-Safe, apply_hook_failure_policy-Safe}
use battery.Reconciler.Provision.{
  Provisioned, provisioned, stopped, Failure, made, apply_unless_deleting, apply_create_policy,
  update_phase, answered, poll_created, wait_created, spoil, make_available, run_create_hooks,
  booted, after_create,
}
use battery.Reconciler.Provision.Added.{NoneAdded, NoneAdded-VmCalls, vm_row-fields}

-- An AVAILABLE VM of the pool on the host.
abbrev pub serves : PoolSpec → String → String → VmRow → Bool
serves p host uid v =
    v.uid == uid
    && (v.phase == available
        && (v.flintlock_host == host && (v.pool_name == p.name && v.pool_namespace == p.namespace)))

-- The VM is the pool's, on the host.
abbrev pub IsOf : PoolSpec → String → VmRecord → Type 0
IsOf p host v =
    (v.flintlock_host ≡ host) × ((v.pool_name ≡ p.name) × (v.pool_namespace ≡ p.namespace))

module _ (before : List VmRow) (p : PoolSpec) where
  abbrev pub P : Db → Type 0
  P = NoneAdded before

  apply_create_policy-Safe : (vm : VmRecord) → Safe P (apply_create_policy p vm)
  unfolding apply_create_policy is_not_found
  apply_create_policy-Safe vm w s =
      Ends-store (get_vm vm.uid) w (λ o x. Ends (apply_unless_deleting p vm o x) (Calm P)) s.0
        (λ cur d e.
          let x = record w { db = d; time = suc w.time } in
          Safe-if P (cur.phase == deleting) (pure tt) (apply_hook_failure_policy p vm) (λ y t. t)
            apply x (s.0, rw ((get_vm-row vm.uid w.db d cur e).0) (s.1)))
        (λ e _.
          Safe-if P (is_not_found e) (pure tt) (apply_hook_failure_policy p vm) (λ y t. t) apply
            (record w { time = suc w.time }) s)
    where
      apply : Safe P (apply_hook_failure_policy p vm)
      apply = apply_hook_failure_policy-Safe P (NoneAdded-VmCalls before) p vm

  module _ (host : String) where
    -- A phase that is written, or that is not.
    abbrev Moved : VmRecord → Result VmRecord → World → Type 0
    Moved vm (ok v) x = Steady P x × IsOf p host v
    Moved vm (err e) x = Steady P x

    abbrev pub Outcome : Result Provisioned → World → Type 0
    Outcome (ok (provisioned uid)) x = any (serves p host uid) x.db.vms ≡ true
    Outcome (ok (stopped f)) x = P x.db
    Outcome (err e) x = true ≡ false

    spoil-Outcome :
        (vm : VmRecord) (f : Failure) (w : World) → Steady P w → Ends (spoil p vm f w) Outcome
    spoil-Outcome vm f w s =
        Ends-safe P (apply_create_policy p vm) (λ _. pure (stopped f)) Outcome w
          (apply_create_policy-Safe vm) s (λ _ x t. t.1)

    -- The policy, and then the error.
    fail-Moved :
        (vm v : VmRecord) (e : Error) (w : World)
        → Steady P w
        → Ends ((do apply_create_policy p v; fail e) w) (Moved vm)
    fail-Moved vm v e w s =
        Ends-safe P (apply_create_policy p v) (λ _. fail e) (Moved vm) w
          (apply_create_policy-Safe v) s (λ _ x t. t)

    update_phase-Moved :
        (vm : VmRecord) (phase : VmPhase) (w : World)
        → (phase == available) ≡ false
        → Steady P w
        → IsOf p host vm
        → Ends (update_phase p vm phase w) (Moved vm)
    unfolding update_phase
    update_phase-Moved vm phase w f s of =
        let v = record vm { phase = phase; updated_at = some (w.env.clock w.time) } in
        Ends-try P (store (update_vm v)) _ _ (Moved vm) w
          (Holds-store P (update_vm v) ((NoneAdded-VmCalls before).updated v f)) s
          (λ e x t. fail-Moved vm v e x t) (λ _ x t. (t, of))

    -- The VM is AVAILABLE once UpdateVM has written it.
    update_vm-serves :
        (v : VmRecord) (d d' : Db) (u : Unit {0})
        → v.phase ≡ available
        → IsOf p host v
        → update_vm v d ≡ ok (u, d')
        → any (serves p host v.uid) d'.vms ≡ true
    update_vm-serves v d d' u phased of e =
        Post-ok (update_vm v d) (λ _ x. any (serves p host v.uid) x.vms ≡ true)
          (update_vm-Post d v (λ _ x. any (serves p host v.uid) x.vms ≡ true)
            λ row is_row writable.
              any-update_hit (may_update row) (serves p host v.uid) (overwrite_vm row) d.vms
                writable (λ x m. written row x (vm_row-fields v row is_row) m))
          e
      where
        written :
            (row x : VmRow)
            → (row.uid ≡ v.uid)
              × ((row.phase ≡ v.phase)
                  × ((row.pool_name ≡ v.pool_name)
                      × ((row.pool_namespace ≡ v.pool_namespace)
                          × (row.flintlock_host ≡ v.flintlock_host))))
            → may_update row x ≡ true
            → serves p host v.uid (overwrite_vm row x) ≡ true
        written row x (named, (phase, (pool, (namespace, place)))) m =
            rw
              (
                beq→eq x.uid row.uid (and_left _ _ m),
                named,
                phase,
                phased,
                pool,
                namespace,
                place,
                of.0,
                of.1.0,
                of.1.1,
                beq_refl v.uid,
                beq_refl host,
                beq_refl p.name,
                beq_refl p.namespace,
              )
              refl

    make_available-Outcome :
        (vm : VmRecord) (w : World)
        → Steady P w
        → IsOf p host vm
        → Ends (make_available p vm w) Outcome
    unfolding update_phase
    make_available-Outcome vm w s of =
        let v = record vm { phase = available; updated_at = some (w.env.clock w.time) } in
        Ends-handle (update_phase p vm available w) _ _ Wrote Outcome
          (Ends-store (update_vm v) w
            (λ o x.
              Ends (handle (o, x) (λ e. do apply_create_policy p v; fail e) (λ _. pure v)) Wrote)
            s.0 (λ u d e. (s.0, update_vm-serves v w.db d u refl of e))
            (λ e _.
              Ends-safe P (apply_create_policy p v) (λ _. fail e) Wrote
                (record w { time = suc w.time }) (apply_create_policy-Safe v) s (λ _ x t. t.1)))
          (λ v x t.
            Ends-safe (λ d. any (serves p host v.uid) d.vms ≡ true)
              (emit_event p.name p.namespace v.uid vm_available) (λ _. pure (provisioned v.uid))
              Outcome x
              (emit_event-Safe (λ d. any (serves p host v.uid) d.vms ≡ true)
                (λ ev d d' i f k.
                  Post-ok (append_event ev d) (λ _ y. any (serves p host v.uid) y.vms ≡ true)
                    (append_event-Post d ev _ λ _ _. k) f)
                p.name p.namespace v.uid vm_available)
              t (λ _ y u. u.1))
          (λ e x t. t)
      where
        Wrote : Result VmRecord → World → Type 0
        Wrote (ok v) x = Quiet x × (any (serves p host v.uid) x.db.vms ≡ true)
        Wrote (err e) x = P x.db

    run_create_hooks-Outcome :
        (vm : VmRecord) (w : World)
        → Steady P w
        → IsOf p host vm
        → Ends (run_create_hooks p vm w) Outcome
    run_create_hooks-Outcome vm w s of =
        Ends-try P connect _ _ Outcome w (Holds-connect P) s (λ e x t. spoil-Outcome vm _ x t)
          (λ _ x t.
            Ends-try P wait_ready _ _ Outcome x
              (λ y u. Holds-check P (y.env.ready y.time) _ (record y { time = suc y.time }) u) t
              (λ e y u. spoil-Outcome vm _ y u)
              (λ _ y u.
                Ends-try P (execute_all vm.uid p.create_commands) _ _ Outcome y
                  (Holds-execute_all P vm.uid p.create_commands) u (λ e z v. spoil-Outcome vm _ z v)
                  (λ _ z v. make_available-Outcome vm z v of)))

    booted-Outcome :
        (vm : VmRecord) (o : Option Failure) (w : World)
        → Steady P w
        → IsOf p host vm
        → Ends (booted p vm o w) Outcome
    booted-Outcome vm (some f) w s of = spoil-Outcome vm f w s
    booted-Outcome vm none w s of =
        Ends-handle (update_phase p vm create_hook_running w) _ _ (Moved vm) Outcome
          (update_phase-Moved vm create_hook_running w refl s of)
          (λ v x t. run_create_hooks-Outcome v x t.0 t.1) (λ e x t. t.1)

    answered-Safe :
        (rest : Prog (Option Failure)) (state : Poll) → Safe P rest → Safe P (answered rest state)
    answered-Safe rest in_state_created h w s = s
    answered-Safe rest in_state_failed h w s = s
    answered-Safe rest in_other_state h w s = h w s
    answered-Safe rest past_deadline h w s = s
    answered-Safe rest unanswered h w s = s

    poll_created-Safe : (n : ℕ) → Safe P (poll_created n)
    unfolding poll_created
    poll_created-Safe zero w s = answered-Safe _ (w.env.polls w.time) (λ x t. t) _ s
    poll_created-Safe (suc n) w s =
        answered-Safe _ (w.env.polls w.time) (λ x t. poll_created-Safe n x t) _ s

    wait_created-Safe : Safe P wait_created
    unfolding wait_created
    wait_created-Safe w s = poll_created-Safe (w.env.ticks w.time) w s

    pub after_create-Outcome :
        (vm : VmRecord) (w : World)
        → Steady P w
        → IsOf p host vm
        → Ends (after_create p (made vm) w) Outcome
    after_create-Outcome vm w s of =
        Ends-safe P (emit_event p.name p.namespace vm.uid vm_provisioned) _ Outcome w
          (emit_event-Safe P (NoneAdded-VmCalls before).appended p.name p.namespace vm.uid
            vm_provisioned)
          s
          (λ _ x t.
            Ends-safe P wait_created (booted p vm) Outcome x wait_created-Safe t
              (λ o y u. booted-Outcome vm o y u of))
