-- ===== src/FlintlockClient/Changes.antt =====
-- The calls of internal/flintlockclient/pool.go that open and close connections, as internal/api/hostadmin.go and
-- New make them.
use battery.Prelude.{
  ◌≡◌, refl, ◌∙◌, String, false, Option, some, ◌∷◌, ◌==◌, string_eq, nat_eq, Bool-cases,
  Option-cases, inl, inr, beq_refl, ◌<◌, ◌&&◌, arith,
}
use battery.Types.{Host}
use battery.Table.{any, find, remove}
use battery.Table.Laws.{any-find, any_of_find-none, any-remove_self}
use battery.FlintlockClient.{
  Network, Conn, Clients, ClientError, is_named, new_conn, close, add, update_conn, remove_conn,
  install_conn, dial_conn, dial_error, dial_and_add, dial_and_install,
}
use battery.FlintlockClient.Owned.{Owned, add-Owned, remove-Owned, close_new, skip-Owned}

-- A host is dialled and added, or dialled and installed over an older connection, or removed.
pub data Change : Type 0 where
  connect exchange : Host → Change
  unregister : String → Change

abbrev pub change : Network → Change → Clients → Option ClientError × Clients
change net (connect h) s = dial_and_add net h s
change net (exchange h) s = dial_and_install net h s
change net (unregister name) s = remove_conn net name s

-- Dial and Add, by whether the host can be dialled and its name is free.
connect-Owned : (net : Network) (h : Host) (s : Clients) → Owned s → Owned (dial_and_add net h s).1
unfolding dial_and_add dial_conn add close
connect-Owned net h s o = elim (Option-cases (dial_error net h)) [
  | inr e ↦ rw e.1 o
  | inl e ↦ elim (Bool-cases (any (is_named h.name) s.hosts)) [
    | inl t ↦ rw (e, t, close_new s o) (skip-Owned s o)
    | inr t ↦ rw (e, t) (add-Owned s (new_conn h s) o refl t)
  ]
]

unregister-Owned :
    (net : Network) (name : String) (s : Clients) → Owned s → Owned (remove_conn net name s).1
unfolding remove_conn close
unregister-Owned net name s o = elim (Option-cases (find (is_named name) s.hosts)) [
  | inl e ↦ rw e o
  | inr f ↦ rw f.1 (remove-Owned s name f.0 o f.1)
]

-- The connection that the new one replaces is older.
older :
    (s : Clients) (name : String) (old : Conn)
    → Owned s
    → find (is_named name) s.hosts ≡ some old
    → (s.next == old.number) ≡ false
older s name old o f = differ (
    o.fresh old.number (
      o.opened old.number
      ∙ any-find (is_named name) (λ k. k.number == old.number) s.hosts f (beq_refl old.number)))
  where
    differ : old.number < s.next → (s.next == old.number) ≡ false
    differ l = ground arith

exchange-Owned :
    (net : Network) (h : Host) (s : Clients) → Owned s → Owned (dial_and_install net h s).1
unfolding dial_and_install dial_conn install_conn update_conn add close remove
exchange-Owned net h s o = elim (Option-cases (dial_error net h)) [
  | inr e ↦ rw e.1 o
  | inl e ↦ elim (Option-cases (find (is_named h.name) s.hosts)) [
    | inl f ↦
        rw (e, f, any_of_find-none (is_named h.name) s.hosts f)
          (add-Owned s (new_conn h s) o refl (any_of_find-none (is_named h.name) s.hosts f))
    | inr f ↦
        let kept =
          add-Owned _ (new_conn h s) (remove-Owned s h.name f.0 o f.1) refl
            (any-remove_self (is_named h.name) s.hosts) in
        elim (Bool-cases
          (any (λ k. k == f.0.number) (s.next ∷ s.opened) && net.closes f.0.number)) [
            | inl t ↦ rw (e, f.1, t, older s h.name f.0 o f.1) kept
            | inr t ↦ rw (e, f.1, t, older s h.name f.0 o f.1) kept
          ]
  ]
]

-- Each change, whether it succeeds or fails, keeps the pool's connections open and under distinct
-- names, and every other connection closed.
pub change-Owned : (net : Network) (e : Change) (s : Clients) → Owned s → Owned (change net e s).1
change-Owned net (connect h) s o = connect-Owned net h s o
change-Owned net (exchange h) s o = exchange-Owned net h s o
change-Owned net (unregister name) s o = unregister-Owned net name s o
