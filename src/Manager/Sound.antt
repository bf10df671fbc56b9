-- ===== src/Manager/Sound.antt =====
-- What every history of internal/poolmanager/manager.go keeps.
use mathlib.Core.Path.{subst}
use battery.Prelude.{
  ◌<◌, ◌≡◌, refl, sym, ap, ◌∙◌, Bool, true, false, ◌||◌, not, String, List, [], ◌∷◌, some,
  Bool-cases, Option-cases, inl, inr, ◌⊎◌, string_eq, nat_eq, arith,
}
use battery.Table.{any, find}
use battery.Table.Laws.{any-remove_apart}
use battery.Table.Keys.{Unique, Unique-remove, Unique-append}
use battery.Manager.{
  Handle, Manager, is_same, has_key, is_running, no_reconcilers, add_handle, forget_handle,
  Occurrence, start, stop, close, drop, shutdown, advance, advance_all, start_reconciler,
  cancel_and_forget, close_done, drop_exiting, shut_down,
}
use battery.Manager.Keys.{
  same_key, is_same→eq, is_same_refl, found_same, member_append, append_member, removed_member,
}

-- A running goroutine is that of a handle that is known, or of one that is known to exit.
abbrev pub Known : Manager → Handle → Type 0
Known m e = (any (is_same e) m.handles ≡ true) ⊎ (any (is_same e) m.exiting ≡ true)

abbrev pub Tracked : Manager → Type 0
Tracked m = (e : Handle) → is_running m e ≡ true → Known m e

-- No handle has a number still to be given.
abbrev pub Numbered : Manager → Type 0
Numbered m = (e : Handle) → is_running m e ≡ true → e.number < m.next

pub record Sound (m : Manager) : Type 0 where
  pub keys : Unique same_key m.handles
  pub numbers : Numbered m
  pub tracked : m.stopped ≡ false → Tracked m

-- The manager without reconcilers, and what each event keeps.
pub no_reconcilers-Sound : Sound no_reconcilers
unfolding any
no_reconcilers-Sound = record { keys = tt; numbers = λ e h. cc h; tracked = λ _ e h. cc h }

add_handle-Sound :
    (m : Manager) (h : Handle)
    → any (has_key h.name h.namespace) m.handles ≡ false
    → h.number ≡ m.next
    → Sound m
    → Sound (add_handle h m)
add_handle-Sound m h free number s = record {
  keys = Unique-append same_key h m.handles free s.keys;
  numbers = λ e r. elim (member_append (is_same e) m.running h r) [
    | inl t ↦ omega (arith, s.numbers e t)
    | inr t ↦ omega (arith, ap (λ (x : Handle). x.number) (is_same→eq e h t), number)
  ];
  tracked = λ on e r. elim (member_append (is_same e) m.running h r) [
    | inr t ↦ inl (append_member (is_same e) m.handles h (inr t))
    | inl t ↦ elim (s.tracked on e t) [
      | inl k ↦ inl (append_member (is_same e) m.handles h (inl k))
      | inr k ↦ inr k
    ]
  ];
}

start_reconciler-Sound :
    (n s : String) (built : Bool) (m : Manager) → Sound m → Sound (start_reconciler n s built m)
unfolding start_reconciler
start_reconciler-Sound n s built m h =
    elim (Bool-cases (any (has_key n s) m.handles || (m.stopped || not built))) [
      | inl t ↦ rw t h
      | inr t ↦ rw t (
          add_handle-Sound m (record { name = n; namespace = s; number = m.next })
            (or_left (any (has_key n s) m.handles) _ t) refl h)
    ]
  where
    or_left : (a b : Bool) → (a || b) ≡ false → a ≡ false
    or_left true b t = t
    or_left false b t = refl

-- Whoever runs is known after the critical section of cancelAndForget.
pub forget_handle-Known :
    (n s : String) (m : Manager) (h e : Handle)
    → Unique same_key m.handles
    → find (has_key n s) m.handles ≡ some h
    → is_running m e ≡ true
    → Known m e
    → Known (forget_handle n s (some h) m) e
forget_handle-Known n s m h e u found r (inr k) = inr (elim (Bool-cases (is_running m h)) [
  | inl t ↦ rw t (append_member (is_same e) m.exiting h (inl k))
  | inr t ↦ rw t k
])
forget_handle-Known n s m h e u found r (inl k) = elim (Bool-cases (has_key n s e)) [
  | inl key ↦
      let one : e ≡ h = found_same n s e h m.handles u key found k in
      inr (
        rw (subst (λ x. is_running m x ≡ true) one r) (
          append_member (is_same e) m.exiting h
            (inr (subst (λ x. is_same e x ≡ true) one (is_same_refl e)))))
  | inr off ↦ inl (
      any-remove_apart (has_key n s) (is_same e) m.handles
        (λ x t. subst (λ y. has_key n s y ≡ false) (is_same→eq e x t) off)
      ∙ k)
]

cancel_and_forget-Sound : (n s : String) (m : Manager) → Sound m → Sound (cancel_and_forget n s m)
unfolding cancel_and_forget
cancel_and_forget-Sound n s m h = elim (Option-cases (find (has_key n s) m.handles)) [
  | inl f ↦ rw f h
  | inr (x, f) ↦ rw f (record {
    keys = Unique-remove same_key (has_key n s) m.handles h.keys;
    numbers = h.numbers;
    tracked = λ on e r. forget_handle-Known n s m x e h.keys f r (h.tracked on e r);
  })
]

close_done-Sound : (h : Handle) (m : Manager) → Sound m → Sound (close_done h m)
unfolding close_done
close_done-Sound h m s = record {
  keys = s.keys;
  numbers = λ e r. s.numbers e (removed_member (is_same h) (is_same e) m.running r);
  tracked = λ on e r. s.tracked on e (removed_member (is_same h) (is_same e) m.running r);
}

-- A handle that runs is not one that does not.
pub not_running-apart :
    (m : Manager) (h e : Handle)
    → is_running m h ≡ false
    → is_running m e ≡ true
    → (x : Handle) → is_same e x ≡ true
    → is_same h x ≡ false
not_running-apart m h e t r x v = elim (Bool-cases (is_same h x)) [
  | inr f ↦ f
  | inl f ↦
      let one : e ≡ h = is_same→eq e x v ∙ sym (is_same→eq h x f) in
      cc (t, subst (λ y. is_running m y ≡ true) one r)
]

drop_exiting-Sound : (h : Handle) (m : Manager) → Sound m → Sound (drop_exiting h m)
unfolding drop_exiting
drop_exiting-Sound h m s = elim (Bool-cases (is_running m h)) [
  | inl t ↦ rw t s
  | inr t ↦ rw t (record {
    keys = s.keys;
    numbers = s.numbers;
    tracked = λ on e r. elim (s.tracked on e r) [
      | inl k ↦ inl k
      | inr k ↦ inr (
          any-remove_apart (is_same h) (is_same e) m.exiting
            (λ x v. not_running-apart m h e t r x v)
          ∙ k)
    ];
  })
]

shut_down-Sound : (m : Manager) → Sound m → Sound (shut_down m)
unfolding shut_down
shut_down-Sound m s = record { keys = tt; numbers = s.numbers; tracked = λ on e r. cc on }

advance-Sound : (m : Manager) (e : Occurrence) → Sound m → Sound (advance m e)
advance-Sound m (start n s built) h = start_reconciler-Sound n s built m h
advance-Sound m (stop n s) h = cancel_and_forget-Sound n s m h
advance-Sound m (close x) h = close_done-Sound x m h
advance-Sound m (drop x) h = drop_exiting-Sound x m h
advance-Sound m shutdown h = shut_down-Sound m h

pub advance_all-Sound : (m : Manager) (es : List Occurrence) → Sound m → Sound (advance_all m es)
unfolding advance_all
advance_all-Sound m [] s = s
advance_all-Sound m (e ∷ es) s = advance_all-Sound (advance m e) es (advance-Sound m e s)
