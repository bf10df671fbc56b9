-- ===== src/Manager/Waited.antt =====
-- StopReconcilerAndWait of internal/poolmanager/manager.go.
use mathlib.Core.Path.{subst}
use battery.Prelude.{
  ◌<◌, ◌≤◌, ◌≡◌, refl, sym, ap, ◌∙◌, Bool, true, false, ◌||◌, not, String, List, [], ◌∷◌, some,
  Bool-cases, Option-cases, inl, inr, ◌⊎◌, string_eq, nat_eq, some-eq-some, arith,
}
use battery.Table.{any, find, select}
use battery.Table.Laws.{any-remove_apart}
use battery.Manager.{
  Handle, Manager, is_same, has_key, is_running, no_reconcilers, Occurrence, start, stop, close,
  drop, shutdown, advance, advance_all, start_reconciler, cancel_and_forget, close_done,
  drop_exiting, shut_down, exiting_of, stop_and_wait,
}
use battery.Manager.Keys.{is_same→eq, any_mono, member_append, append_member, removed_member}
use battery.Manager.Sound.{
  not_running-apart, Sound, forget_handle-Known, no_reconcilers-Sound, advance_all-Sound,
}
use battery.Table.Laws.{any-remove_self, any_of_find-none}
use battery.Prelude.{ltb}

-- What a later event of the history says of an earlier state. `e` is a handle with a number that had been
-- given.
advance-next : (m : Manager) (ev : Occurrence) → m.next ≤ (advance m ev).next
unfolding start_reconciler cancel_and_forget close_done drop_exiting shut_down
advance-next m (start n s built) =
    elim (Bool-cases (any (has_key n s) m.handles || (m.stopped || not built))) [
      | inl t ↦ rw t (omega arith)
      | inr t ↦ rw t (omega arith)
    ]
advance-next m (stop n s) = elim (Option-cases (find (has_key n s) m.handles)) [
  | inl f ↦ rw f (omega arith)
  | inr (x, f) ↦ rw f (omega arith)
]
advance-next m (close h) = omega arith
advance-next m (drop h) = elim (Bool-cases (is_running m h)) [
  | inl t ↦ rw t (omega arith)
  | inr t ↦ rw t (omega arith)
]
advance-next m shutdown = omega arith

advance-running :
    (m : Manager) (ev : Occurrence) (e : Handle)
    → e.number < m.next
    → is_running (advance m ev) e ≡ true
    → is_running m e ≡ true
unfolding start_reconciler cancel_and_forget close_done drop_exiting shut_down
advance-running m (start n s built) e h r =
    elim (Bool-cases (any (has_key n s) m.handles || (m.stopped || not built))) [
      | inl t ↦ rw t at r
      | inr t ↦ elim (member_append (is_same e) m.running _ (rw t at r)) [
        | inl k ↦ k
        | inr k ↦ absurd (omega (arith, h, ap (λ (x : Handle). x.number) (is_same→eq e _ k)))
      ]
    ]
advance-running m (stop n s) e h r = elim (Option-cases (find (has_key n s) m.handles)) [
  | inl f ↦ rw f at r
  | inr (x, f) ↦ rw f at r
]
advance-running m (close x) e h r = removed_member (is_same x) (is_same e) m.running r
advance-running m (drop x) e h r = elim (Bool-cases (is_running m x)) [
  | inl t ↦ rw t at r
  | inr t ↦ rw t at r
]
advance-running m shutdown e h r = r

advance-stopped :
    (m : Manager) (ev : Occurrence) → (advance m ev).stopped ≡ false → m.stopped ≡ false
unfolding start_reconciler cancel_and_forget close_done drop_exiting shut_down
advance-stopped m (start n s built) h =
    elim (Bool-cases (any (has_key n s) m.handles || (m.stopped || not built))) [
      | inl t ↦ rw t at h
      | inr t ↦ rw t at h
    ]
advance-stopped m (stop n s) h = elim (Option-cases (find (has_key n s) m.handles)) [
  | inl f ↦ rw f at h
  | inr (x, f) ↦ rw f at h
]
advance-stopped m (close x) h = h
advance-stopped m (drop x) h = elim (Bool-cases (is_running m x)) [
  | inl t ↦ rw t at h
  | inr t ↦ rw t at h
]
advance-stopped m shutdown h = cc h

-- A handle that exits is not dropped before its goroutine has closed `done`.
advance-exiting :
    (m : Manager) (ev : Occurrence) (e : Handle)
    → is_running m e ≡ true
    → any (is_same e) m.exiting ≡ true
    → any (is_same e) (advance m ev).exiting ≡ true
unfolding start_reconciler cancel_and_forget close_done drop_exiting shut_down
advance-exiting m (start n s built) e r k =
    elim (Bool-cases (any (has_key n s) m.handles || (m.stopped || not built))) [
      | inl t ↦ rw t k
      | inr t ↦ rw t k
    ]
advance-exiting m (stop n s) e r k = elim (Option-cases (find (has_key n s) m.handles)) [
  | inl f ↦ rw f k
  | inr (x, f) ↦ elim (Bool-cases (is_running m x)) [
    | inl t ↦ rw (f, t) (append_member (is_same e) m.exiting x (inl k))
    | inr t ↦ rw (f, t) k
  ]
]
advance-exiting m (close x) e r k = k
advance-exiting m (drop x) e r k = elim (Bool-cases (is_running m x)) [
  | inl t ↦ rw t k
  | inr t ↦ rw t (
      any-remove_apart (is_same x) (is_same e) m.exiting (λ y v. not_running-apart m x e t r y v)
      ∙ k)
]
advance-exiting m shutdown e r k = k

advance_all-next : (m : Manager) (es : List Occurrence) → m.next ≤ (advance_all m es).next
unfolding advance_all
advance_all-next m [] = omega arith
advance_all-next m (ev ∷ es) = omega (arith, advance-next m ev, advance_all-next (advance m ev) es)

advance_all-running :
    (m : Manager) (es : List Occurrence) (e : Handle)
    → e.number < m.next
    → is_running (advance_all m es) e ≡ true
    → is_running m e ≡ true
unfolding advance_all
advance_all-running m [] e h r = r
advance_all-running m (ev ∷ es) e h r =
    advance-running m ev e h
      (advance_all-running (advance m ev) es e (omega (arith, h, advance-next m ev)) r)

advance_all-stopped :
    (m : Manager) (es : List Occurrence) → (advance_all m es).stopped ≡ false → m.stopped ≡ false
unfolding advance_all
advance_all-stopped m [] h = h
advance_all-stopped m (ev ∷ es) h = advance-stopped m ev (advance_all-stopped (advance m ev) es h)

advance_all-exiting :
    (m : Manager) (es : List Occurrence) (e : Handle)
    → e.number < m.next
    → is_running (advance_all m es) e ≡ true
    → any (is_same e) m.exiting ≡ true
    → any (is_same e) (advance_all m es).exiting ≡ true
unfolding advance_all
advance_all-exiting m [] e h r k = k
advance_all-exiting m (ev ∷ es) e h r k =
    advance_all-exiting (advance m ev) es e (omega (arith, h, advance-next m ev)) r
      (advance-exiting m ev e (advance_all-running m (ev ∷ es) e h r) k)

any-select :
    (p q : Handle → Bool) (e : Handle) (xs : List Handle)
    → p e ≡ true
    → q e ≡ true
    → any (is_same e) xs ≡ true
    → any q (select p xs) ≡ true
unfolding any select
any-select p q e [] h j k = k
any-select p q e (x ∷ xs) h j k = elim (Bool-cases (is_same e x)) [
  | inl t ↦
      let one = is_same→eq e x t in
      rw (subst (λ y. p y ≡ true) one h, subst (λ y. q y ≡ true) one j) refl
  | inr t ↦
      let rest = any-select p q e xs h j (rw t at k) in
      elim (Bool-cases (p x)) [
        | inr f ↦ rw f rest
        | inl f ↦ elim (Bool-cases (q x)) [ inl g ↦ rw (f, g) refl | inr g ↦ rw (f, g) rest ]
      ]
]

-- The goroutines of the pool are known to exit once its reconciler is cancelled and forgotten.
forgotten-exiting :
    (n s : String) (m : Manager) (e : Handle)
    → Sound m
    → m.stopped ≡ false
    → has_key n s e ≡ true
    → is_running m e ≡ true
    → any (is_same e) (cancel_and_forget n s m).exiting ≡ true
unfolding cancel_and_forget
forgotten-exiting n s m e h on key r = elim (Option-cases (find (has_key n s) m.handles)) [
  | inl f ↦
      rw f (left_over _ m.handles (any_of_find-none (has_key n s) m.handles f) (h.tracked on e r))
  | inr (x, f) ↦ rw f (
      left_over _ _ (any-remove_self (has_key n s) m.handles)
        (forget_handle-Known n s m x e h.keys f r (h.tracked on e r)))
]
  where
    left_over :
        (exiting handles : List Handle)
        → any (has_key n s) handles ≡ false
        → (any (is_same e) handles ≡ true) ⊎ (any (is_same e) exiting ≡ true)
        → any (is_same e) exiting ≡ true
    left_over exiting handles none_left (inr k) = k
    left_over exiting handles none_left (inl k) = cc (
      none_left,
      any_mono (is_same e) (has_key n s) handles
          (λ y v. subst (λ z. has_key n s z ≡ true) (is_same→eq e y v) key) k,
    )

-- A goroutine of the pool that runs to the end, started before the call, is one that is waited for.
still_waiting :
    (m : Manager) (between waiting : List Occurrence) (n s : String) (e : Handle)
    → Sound m
    → (advance_all (advance_all (cancel_and_forget n s m) between) waiting).stopped ≡ false
    → has_key n s e ≡ true
    → e.number < m.next
    → is_running (advance_all (advance_all (cancel_and_forget n s m) between) waiting) e ≡ true
    → any
        (λ h. is_running (advance_all (advance_all (cancel_and_forget n s m) between) waiting) h)
        (exiting_of n s (advance_all (cancel_and_forget n s m) between))
      ≡ true
still_waiting m between waiting n s e h on key early r =
    let first = cancel_and_forget n s m in
    let second = advance_all first between in
    let below = advance-next m (stop n s) in
    let later = advance_all-next first between in
    let in_second = advance_all-running second waiting e (omega (arith, early, below, later)) r in
    let in_first = advance_all-running first between e (omega (arith, early, below)) in_second in
    any-select (has_key n s) (λ k. is_running (advance_all second waiting) k) e second.exiting key r
      (advance_all-exiting first between e (omega (arith, early, below)) in_second (
        forgotten-exiting n s m e h
          (advance-stopped m (stop n s)
            (advance_all-stopped first between (advance_all-stopped second waiting on)))
          key (advance-running m (stop n s) e early in_first)))

-- StopReconcilerAndWait on a manager that any history of events has led to, with any events of other
-- goroutines between its critical sections and while it waits. If it returns nil and the manager is
-- not shutting down by then, no reconciler goroutine of the pool that was started before the call
-- still runs.
pub stop_and_wait_waits :
    (history between waiting : List Occurrence) (name namespace : String) (x : Manager) (e : Handle)
    → stop_and_wait name namespace between waiting (advance_all no_reconcilers history) ≡ some x
    → x.stopped ≡ false
    → has_key name namespace e ≡ true
    → is_running x e ≡ true
    → (advance_all no_reconcilers history).next ≤ e.number
unfolding stop_and_wait
stop_and_wait_waits history between waiting name namespace x e done on key r =
    elim (Bool-cases (any (λ h. is_running last h) (exiting_of name namespace second))) [
      | inl t ↦ cc (rw t at done)
      | inr t ↦
          let same : x ≡ last = sym (some-eq-some (rw t at done)) in
          elim (Bool-cases (ltb e.number (advance_all no_reconcilers history).next)) [
            | inr late ↦ ground (arith, late)
            | inl early ↦ cc (
              t,
              still_waiting (advance_all no_reconcilers history) between waiting name namespace e
                  (advance_all-Sound no_reconcilers history no_reconcilers-Sound)
                  (subst (λ y. y.stopped ≡ false) same on) key (ground (arith, early))
                  (subst (λ y. is_running y e ≡ true) same r),
            )
          ]
    ]
  where
    second : Manager
    second =
        advance_all (cancel_and_forget name namespace (advance_all no_reconcilers history)) between

    last : Manager
    last = advance_all second waiting
