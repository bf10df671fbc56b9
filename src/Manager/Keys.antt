-- ===== src/Manager/Keys.antt =====
-- The handles of internal/poolmanager/manager.go in lists.
use mathlib.Core.Path.{subst}
use battery.Prelude.{
  ℕ, ◌≡◌, refl, ap, ◌∙◌, Bool, true, false, ◌||◌, String, List, [], ◌∷◌, ◌++◌, some, Bool-cases,
  inl, inr, ◌⊎◌, beq→eq, beq_refl, ◌==◌, string_eq, nat_eq, some-eq-some, and_left, and_right,
}
use battery.Table.{any, find, remove}
use battery.Table.Laws.{any-append, any-remove}
use battery.Table.Keys.{Unique}
use battery.Manager.{Handle, is_same, has_key}

abbrev pub same_key : Handle → Handle → Bool
same_key h k = has_key k.name k.namespace h

pub is_same→eq : (h k : Handle) → is_same h k ≡ true → h ≡ k
is_same→eq h k t =
    let a : h.number ≡ k.number = beq→eq h.number k.number (and_left _ _ t) in
    let rest = and_right (h.number == k.number) _ t in
    let b : h.name ≡ k.name = beq→eq h.name k.name (and_left _ _ rest) in
    let c : h.namespace ≡ k.namespace =
      beq→eq h.namespace k.namespace (and_right (h.name == k.name) _ rest) in
    ap (λ (n : ℕ). record { name = h.name; namespace = h.namespace; number = n }) a
    ∙ ap (λ (n : String). record { name = n; namespace = h.namespace; number = k.number }) b
    ∙ ap (λ (n : String). record { name = k.name; namespace = n; number = k.number }) c

pub is_same_refl : (h : Handle) → is_same h h ≡ true
is_same_refl h = rw (beq_refl h.number, beq_refl h.name, beq_refl h.namespace) refl

pub any_mono :
    (p q : Handle → Bool) (xs : List Handle)
    → ((x : Handle) → p x ≡ true → q x ≡ true)
    → any p xs ≡ true
    → any q xs ≡ true
unfolding any
any_mono p q [] k e = e
any_mono p q (x ∷ xs) k e = elim (Bool-cases (p x)) [
  | inl t ↦ rw (k x t) refl
  | inr t ↦ elim (Bool-cases (q x)) [
    | inl s ↦ rw s refl
    | inr s ↦ rw s (any_mono p q xs k (rw t at e))
  ]
]

-- A handle with this key, of handles with distinct keys, is the one that the key finds.
pub found_same :
    (n s : String) (e h : Handle) (hs : List Handle)
    → Unique same_key hs
    → has_key n s e ≡ true
    → find (has_key n s) hs ≡ some h
    → any (is_same e) hs ≡ true
    → e ≡ h
unfolding find any
found_same n s e h [] u key f t = cc f
found_same n s e h (x ∷ xs) u key f t = elim (Bool-cases (is_same e x)) [
  | inl same ↦
      let one = is_same→eq e x same in
      one ∙ some-eq-some (rw (subst (λ y. has_key n s y ≡ true) one key) at f)
  | inr other ↦ elim (Bool-cases (has_key n s x)) [
    | inr off ↦ found_same n s e h xs u.1 key (rw off at f) (rw other at t)
    | inl on ↦ absurd (
        cc (
          u.0,
          any_mono (is_same e) (same_key x) xs
              (λ y v.
                subst (λ z. same_key x z ≡ true) (is_same→eq e y v) (keys_agree n s x e on key))
              (rw other at t),
        ))
  ]
]
  where
    keys_agree :
        (n s : String) (x e : Handle)
        → has_key n s x ≡ true
        → has_key n s e ≡ true
        → same_key x e ≡ true
    keys_agree n s x e on key =
        rw
          (
            beq→eq x.name n (and_left _ _ on),
            beq→eq x.namespace s (and_right (x.name == n) _ on),
            beq→eq e.name n (and_left _ _ key),
            beq→eq e.namespace s (and_right (e.name == n) _ key),
            beq_refl n,
            beq_refl s,
          )
          refl

pub member_append :
    (q : Handle → Bool) (xs : List Handle) (x : Handle)
    → any q (xs ++ x ∷ []) ≡ true
    → (any q xs ≡ true) ⊎ (q x ≡ true)
unfolding any
member_append q xs x e = elim (Bool-cases (any q xs)) [
  | inl t ↦ inl t
  | inr t ↦ elim (Bool-cases (q x)) [
    | inl s ↦ inr s
    | inr s ↦ cc (rw (any-append q xs (x ∷ []), t, s) at e)
  ]
]

pub append_member :
    (q : Handle → Bool) (xs : List Handle) (x : Handle)
    → (any q xs ≡ true) ⊎ (q x ≡ true)
    → any q (xs ++ x ∷ []) ≡ true
unfolding any
append_member q xs x (inl t) = any-append q xs (x ∷ []) ∙ rw t refl
append_member q xs x (inr t) = any-append q xs (x ∷ []) ∙ rw t (or_either (any q xs))
  where
    or_either : (b : Bool) → (b || true) ≡ true
    or_either true = refl
    or_either false = refl

pub removed_member :
    (p q : Handle → Bool) (xs : List Handle) → any q (remove p xs) ≡ true → any q xs ≡ true
removed_member p q xs e = elim (Bool-cases (any q xs)) [
  | inl t ↦ t
  | inr t ↦ cc (any-remove p q xs t, e)
]
