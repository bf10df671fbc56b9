-- ===== src/FlintlockClient/Started.antt =====
-- New of internal/flintlockclient/pool.go.
use mathlib.Core.Path.{subst}
use battery.Prelude.{
  ℕ, ◌≡◌, refl, sym, ap, ◌∙◌, String, Bool, true, false, Option, none, some, List, [], ◌∷◌, ◌++◌,
  map, ◌==◌, string_eq, nat_eq, Bool-cases, Option-cases, inl, inr, ◌⊎◌, ◌&&◌, ◌||◌, not,
}
use battery.Types.{Host}
use battery.Table.{any}
use battery.FlintlockClient.{
  Network, Conn, Clients, ClientError, is_named, is_open, no_clients, new_conn, close, add,
  dial_conn, dial_error, dial_and_add, close_all, close_each, add_hosts, new_clients, host_names,
  host_exists,
}
use battery.FlintlockClient.Owned.{
  Owned, holds, no_clients-Owned, add-Owned, close_new, skip-Owned, removed_number,
}

-- Each host can be dialled, and none has a name of an earlier one.
abbrev pub Usable : Network → List String → List Host → Type 0
Usable net names [] = Unit {0}
Usable net names (h ∷ hs) =
    (dial_error net h ≡ none)
    × (any (λ k. k == h.name) names ≡ false)
    × Usable net (names ++ h.name ∷ []) hs

-- What New leaves when it fails.
abbrev pub Undone : Option ClientError × Clients → Type 0
Undone r = ((e : ClientError) × (r.0 ≡ some e)) × ((n : ℕ) → is_open n r.1 ≡ false)

abbrev pub Filled : List String → Option ClientError × Clients → Type 0
Filled names r = (r.0 ≡ none) × (host_names r.1 ≡ names) × Owned r.1

any-names :
    (n : String) (cs : List Conn) → any (λ k. k == n) (map (λ c. c.name) cs) ≡ any (is_named n) cs
unfolding any
any-names n [] = refl
any-names n (c ∷ cs) = ap (λ b. c.name == n || b) (any-names n cs)

map-append :
    (cs : List Conn) (c : Conn)
    → map (λ k. k.name) (cs ++ c ∷ []) ≡ map (λ k. k.name) cs ++ c.name ∷ []
map-append [] c = refl
map-append (k ∷ ks) c = ap (λ ns. k.name ∷ ns) (map-append ks c)

append_nil : (a : List String) → a ≡ a ++ []
append_nil [] = refl
append_nil (y ∷ ys) = ap (λ z. y ∷ z) (append_nil ys)

append_assoc : (a : List String) (x : String) (b : List String) → (a ++ x ∷ []) ++ b ≡ a ++ x ∷ b
append_assoc [] x b = refl
append_assoc (y ∷ ys) x b = ap (λ z. y ∷ z) (append_assoc ys x b)

closed_each :
    (net : Network) (n : ℕ) (cs : List Conn) (s : Clients)
    → is_open n (close_each net cs s).1 ≡ (is_open n s && not (holds n cs))
unfolding any close
closed_each net n [] s = ends (is_open n s)
  where
    ends : (b : Bool) → b ≡ (b && true)
    ends true = refl
    ends false = refl
closed_each net n (c ∷ cs) s =
    closed_each net n cs (close net c s).1
    ∙ ap (λ b. b && not (holds n cs)) (removed_number c.number n s.opened)
    ∙ joins (is_open n s) (c.number == n) (holds n cs)
  where
    joins : (a b c : Bool) → ((a && not b) && not c) ≡ (a && not (b || c))
    joins true true c = refl
    joins true false c = refl
    joins false b c = refl

all_closed :
    (net : Network) (s : Clients) → Owned s → (n : ℕ) → is_open n (close_all net s).1 ≡ false
unfolding close_all
all_closed net s o n =
    closed_each net n s.hosts s
    ∙ ap (λ b. b && not (holds n s.hosts)) (o.opened n)
    ∙ never (holds n s.hosts)
  where
    never : (b : Bool) → (b && not b) ≡ false
    never true = refl
    never false = refl

add_hosts-Outcome :
    (net : Network) (hs : List Host) (s : Clients)
    → Owned s
    → (Usable net (host_names s) hs
        × Filled (host_names s ++ map (λ h. h.name) hs) (add_hosts net hs s))
      ⊎ (¬ Usable net (host_names s) hs × Undone (add_hosts net hs s))
unfolding add_hosts dial_and_add dial_conn add close host_names
add_hosts-Outcome net [] s o = inl (tt, (refl, append_nil (map (λ c. c.name) s.hosts), o))
add_hosts-Outcome net (h ∷ hs) s o = elim (Option-cases (dial_error net h)) [
  | inr e ↦ inr ((λ u. cc (u.0, e.1)), rw e.1 ((e.0, refl), all_closed net s o))
  | inl e ↦ elim (Bool-cases (any (is_named h.name) s.hosts)) [
    | inl t ↦ inr (
      (λ u. cc (u.1, any-names h.name s.hosts, t)),
      rw (e, t, close_new s o) ((host_exists, refl), all_closed net _ (skip-Owned s o)),
    )
    | inr t ↦
        let names = map-append s.hosts (new_conn h s) in
        elim (add_hosts-Outcome net hs _ (add-Owned s (new_conn h s) o refl t)) [
          | inl f ↦ inl (
            (e, any-names h.name s.hosts ∙ t, subst (λ ns. Usable net ns hs) names f.0),
            rw (e, t)
                (
                  f.1.0,
                  f.1.1
                      ∙ ap (λ ns. ns ++ map (λ k. k.name) hs) names
                      ∙ append_assoc _ h.name (map (λ k. k.name) hs),
                  f.1.2,
                ),
          )
          | inr f ↦ inr ((λ u. f.0 (subst (λ ns. Usable net ns hs) (sym names) u.2)), rw (e, t) f.1)
        ]
  ]
]

-- Either every host can be dialled and the names are distinct: New succeeds, and its pool has one open
-- connection for each host, in order; or New fails, and no connection is open.
pub new_clients-Outcome :
    (net : Network) (hosts : List Host)
    → (Usable net [] hosts × Filled (map (λ h. h.name) hosts) (new_clients net hosts))
      ⊎ (¬ Usable net [] hosts × Undone (new_clients net hosts))
unfolding new_clients host_names
new_clients-Outcome net hosts = add_hosts-Outcome net hosts no_clients no_clients-Owned
