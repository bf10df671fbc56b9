-- ===== src/FlintlockClient/Owned.antt =====
-- Which connections of internal/flintlockclient/pool.go are open.
use mathlib.Core.Path.{subst}
use battery.Prelude.{
  ℕ, suc, ◌<◌, ◌≡◌, refl, sym, ap, ◌∙◌, String, Bool, true, false, ◌&&◌, ◌||◌, not, some, List, [],
  ◌∷◌, ◌++◌, ◌==◌, string_eq, nat_eq, Bool-cases, inl, inr, arith, beq_refl, beq→eq, some-eq-some,
  str_beq_sym, and_left,
}
use battery.Table.{any, find, remove}
use battery.Table.Laws.{any-append, any-ext, remove-none, any-find}
use battery.Table.Keys.{Unique, Unique-append, Unique-remove}
use battery.FlintlockClient.{Conn, Clients, is_named, is_open, no_clients}

abbrev pub same_name : Conn → Conn → Bool
same_name c k = is_named c.name k

abbrev pub same_number : Conn → Conn → Bool
same_number c k = k.number == c.number

-- A connection of the pool has this number.
abbrev pub holds : ℕ → List Conn → Bool
holds n cs = any (λ c. c.number == n) cs

-- The pool has one connection for a name; the connections of the pool are open, and no other is.
pub record Owned (s : Clients) : Type 0 where
  pub names : Unique same_name s.hosts
  pub numbers : Unique same_number s.hosts
  pub opened : (n : ℕ) → is_open n s ≡ holds n s.hosts
  pub fresh : (n : ℕ) → is_open n s ≡ true → n < s.next

pub no_clients-Owned : Owned no_clients
unfolding any
no_clients-Owned = record { names = tt; numbers = tt; opened = λ n. refl; fresh = λ n e. cc e }

-- The next number is not in use.
pub next_unopened : (s : Clients) → Owned s → is_open s.next s ≡ false
next_unopened s o = elim (Bool-cases (is_open s.next s)) [
  | inl t ↦ absurd (omega (arith, o.fresh s.next t))
  | inr t ↦ t
]

nat_beq_sym : (a b : ℕ) → (a == b) ≡ (b == a)
nat_beq_sym a b = ground arith

-- The numbers that remain when one is removed.
pub removed_number :
    (m n : ℕ) (ns : List ℕ)
    → any (λ k. k == n) (remove (λ k. k == m) ns) ≡ (any (λ k. k == n) ns && not (m == n))
unfolding any remove
removed_number m n [] = refl
removed_number m n (k ∷ ks) = elim (Bool-cases (k == m)) [
  | inl t ↦ rw (t, removed_number m n ks, beq→eq k m t) (absorbed (m == n) _)
  | inr t ↦ elim (Bool-cases (k == n)) [
    | inr s ↦ rw (t, s) (removed_number m n ks)
    | inl s ↦ rw (t, s) (sym (subst (λ x. not (m == x) ≡ true) (beq→eq k n s) (apart k m t)))
  ]
]
  where
    absorbed : (a b : Bool) → (b && not a) ≡ ((a || b) && not a)
    absorbed true true = refl
    absorbed true false = refl
    absorbed false b = refl

    apart : (k m : ℕ) → (k == m) ≡ false → not (m == k) ≡ true
    apart k m t = ground arith

-- The connections that remain when the one with a name is removed.
held_removed :
    (n : ℕ) (name : String) (cs : List Conn) (old : Conn)
    → Unique same_name cs
    → Unique same_number cs
    → find (is_named name) cs ≡ some old
    → holds n (remove (is_named name) cs) ≡ (holds n cs && not (old.number == n))
unfolding any remove find
held_removed n name [] old u v e = refl
held_removed n name (c ∷ cs) old u v e = elim (Bool-cases (is_named name c)) [
  | inl t ↦
      let one : c ≡ old = some-eq-some (rw t at e) in
      let free = subst (λ x. any (is_named x) cs ≡ false) (beq→eq c.name name t) u.0 in
      rw (t, remove-none (is_named name) cs free, sym (ap (λ (x : Conn). x.number) one))
        (first c n cs v.0)
  | inr t ↦
      let found = rw t at e in
      rw (t, held_removed n name cs old u.1 v.1 found) (later c old n cs v.0 found)
]
  where
    kept : (b : Bool) → b ≡ (b && true)
    kept true = refl
    kept false = refl

    first :
        (c : Conn) (n : ℕ) (cs : List Conn)
        → holds c.number cs ≡ false
        → holds n cs ≡ ((c.number == n || holds n cs) && not (c.number == n))
    first c n cs free = elim (Bool-cases (c.number == n)) [
      | inl t ↦ rw t (subst (λ x. holds x cs ≡ false) (beq→eq c.number n t) free)
      | inr t ↦ rw t (kept (holds n cs))
    ]

    later :
        (c old : Conn) (n : ℕ) (cs : List Conn)
        → holds c.number cs ≡ false
        → find (is_named name) cs ≡ some old
        → (c.number == n || (holds n cs && not (old.number == n)))
          ≡ ((c.number == n || holds n cs) && not (old.number == n))
    later c old n cs free found = elim (Bool-cases (c.number == n)) [
      | inr t ↦ rw t refl
      | inl t ↦ elim (Bool-cases (old.number == n)) [
        | inr s ↦ rw (t, s) refl
        | inl s ↦ absurd (
            cc (
              subst (λ x. holds x cs ≡ false) (beq→eq c.number n t) free,
              any-find (is_named name) (λ k. k.number == n) cs found s,
            ))
      ]
    ]

-- A new connection under a free name.
pub add-Owned :
    (s : Clients) (c : Conn)
    → Owned s
    → c.number ≡ s.next
    → any (is_named c.name) s.hosts ≡ false
    → Owned (record { hosts = s.hosts ++ c ∷ []; opened = s.next ∷ s.opened; next = suc s.next })
unfolding any
add-Owned s c o number free = record {
  names =
      Unique-append same_name c s.hosts
        (any-ext _ _ s.hosts (λ x. str_beq_sym c.name x.name) ∙ free) o.names;
  numbers =
      Unique-append same_number c s.hosts
        (any-ext _ _ s.hosts (λ x. nat_beq_sym c.number x.number)
          ∙ sym (o.opened c.number)
          ∙ rw number (next_unopened s o))
        o.numbers;
  opened = λ n.
      ap (λ x. x == n || is_open n s) (sym number)
      ∙ ap (λ b. c.number == n || b) (o.opened n)
      ∙ swapped (c.number == n) (holds n s.hosts)
      ∙ sym (any-append (λ k. k.number == n) s.hosts (c ∷ []));
  fresh = λ n e. elim (Bool-cases (s.next == n)) [
    | inl t ↦ omega (arith, beq→eq s.next n t)
    | inr t ↦ omega (arith, o.fresh n (rw t at e))
  ];
}
  where
    swapped : (a b : Bool) → (a || b) ≡ (b || (a || false))
    swapped true true = refl
    swapped true false = refl
    swapped false true = refl
    swapped false false = refl

pub remove-Owned :
    (s : Clients) (name : String) (old : Conn)
    → Owned s
    → find (is_named name) s.hosts ≡ some old
    → Owned (record s {
      hosts = remove (is_named name) s.hosts;
      opened = remove (λ k. k == old.number) s.opened;
    })
remove-Owned s name old o found = record {
  names = Unique-remove same_name (is_named name) s.hosts o.names;
  numbers = Unique-remove same_number (is_named name) s.hosts o.numbers;
  opened = λ n.
      removed_number old.number n s.opened
      ∙ ap (λ b. b && not (old.number == n)) (o.opened n)
      ∙ sym (held_removed n name s.hosts old o.names o.numbers found);
  fresh = λ n e. o.fresh n (and_left _ _ (sym (removed_number old.number n s.opened) ∙ e));
}

-- A connection that is closed at once.
pub close_new : (s : Clients) → Owned s → remove (λ k. k == s.next) (s.next ∷ s.opened) ≡ s.opened
unfolding remove
close_new s o = rw (beq_refl s.next) (remove-none (λ k. k == s.next) s.opened (next_unopened s o))

pub skip-Owned : (s : Clients) → Owned s → Owned (record s { next = suc s.next })
skip-Owned s o = record {
  names = o.names;
  numbers = o.numbers;
  opened = o.opened;
  fresh = λ n e. omega (arith, o.fresh n e);
}
