-- ===== src/Store/Cordon.antt =====
-- Cordons and drains of hosts, internal/store/sqlite.go.
use battery.Prelude.{
  ℕ, ◌≡◌, ◌≢◌, refl, sym, ap, ◌∙◌, true, false, String, List, [], ◌∷◌, ◌==◌, string_eq, Bool-cases,
  Option-cases, inl, inr, All, All-append, beq→eq,
}
use battery.Table.{find, any}
use battery.Table.Laws.{
  All-update, All-remove, All-find, any-append, any-update, any-remove_apart, any_of_find-none,
  find-matches,
}
use battery.Store.Error.{err, host_cordoned}
use battery.Store.Rows.{HostRow}
use battery.Store.Db.{Db}
use battery.Store.Hosts.{is_host, same_host, reserve_placement}
use battery.Store.Call.{Call, step, run, set_host_cordoned, delete_host}
use battery.Store.Moves.{HostsMove, keep, insert, alter, erase}
use battery.Store.Moves.Step.{step-Moves}

abbrev pub CordonedIf : String → HostRow → Type 0
CordonedIf name h = (h.name == name) ≡ true → h.cordoned ≡ true

-- The host is registered and cordoned.
pub record IsCordoned (name : String) (d : Db) : Type 0 where
  pub registered : any (is_host name) d.hosts ≡ true
  pub cordoned : All (CordonedIf name) d.hosts

-- The call neither uncordons the host nor removes it.
pub record Leaves (name : String) (c : Call) : Type 0 where
  pub uncordons : (t : ℕ) (r : String) → c ≢ set_host_cordoned t name false r
  pub removes : c ≢ delete_host name

alter-CordonedIf :
    (name other : String) (f : HostRow → HostRow)
    → ((h : HostRow) → (f h).name ≡ h.name)
    → ((h : HostRow) → h.cordoned ≡ true → (f h).cordoned ≡ true)
    → (h : HostRow) → is_host other h ≡ true
    → CordonedIf name h
    → CordonedIf name (f h)
alter-CordonedIf name other f named keeps h _ k e = keeps h (k (rw (named h) at e))

module _ (name : String) (d : Db) (v : IsCordoned name d) (c : Call) (leaves : Leaves name c) where
  insert-CordonedIf :
      (row : HostRow) → any (λ k. same_host k row) d.hosts ≡ false → CordonedIf name row
  insert-CordonedIf row free same =
      cc (
        v.registered,
        free,
        ap (λ (t : String). any (is_host t) d.hosts) (beq→eq row.name name same),
      )

  uncordon-CordonedIf :
      (other : String) (f : HostRow → HostRow) {h : HostRow}
      → (f h).name ≡ h.name
      → (t : ℕ) (r : String) → c ≡ set_host_cordoned t other false r
      → is_host other h ≡ true
      → CordonedIf name (f h)
  uncordon-CordonedIf other f {h} named t r called m same = absurd (
      leaves.uncordons t r (
        called
        ∙ ap (λ (x : String). set_host_cordoned t x false r)
            (sym (beq→eq h.name other m) ∙ sym named ∙ beq→eq (f h).name name same)))

  erase-apart :
      (other : String)
      → c ≡ delete_host other
      → (h : HostRow) → is_host name h ≡ true
      → is_host other h ≡ false
  erase-apart other called h same = elim (Bool-cases (is_host other h)) [
    | inl m ↦ absurd (
        leaves.removes
          (called ∙ ap delete_host (sym (beq→eq h.name other m) ∙ beq→eq h.name name same)))
    | inr m ↦ m
  ]

  cordoned-move : (hs : List HostRow) → HostsMove c d hs → All (CordonedIf name) hs
  cordoned-move hs (keep e) = rw e v.cordoned
  cordoned-move hs (insert h row _ _ free e) =
      rw e (
        All-append (CordonedIf name) d.hosts (row ∷ []) v.cordoned (insert-CordonedIf row free, tt))
  cordoned-move hs (alter other f named _ (inl keeps) e) = rw e (
      All-update (CordonedIf name) _ f d.hosts (alter-CordonedIf name other f named keeps)
        v.cordoned)
  cordoned-move hs (alter other f named _ (inr (t, r, called)) e) = rw e (
      All-update (CordonedIf name) _ f d.hosts
        (λ h m _ same. uncordon-CordonedIf other f (named h) t r called m same) v.cordoned)
  cordoned-move hs (erase other _ _ e) = rw e (All-remove (CordonedIf name) _ d.hosts v.cordoned)

  registered-move : (hs : List HostRow) → HostsMove c d hs → any (is_host name) hs ≡ true
  registered-move hs (keep e) = rw e v.registered
  registered-move hs (insert h row _ _ _ e) =
      rw e (any-append (is_host name) d.hosts (row ∷ []) ∙ rw v.registered)
  registered-move hs (alter other f named _ _ e) =
      rw e (any-update (is_host other) (is_host name) f d.hosts (λ h. rw (named h)) ∙ v.registered)
  registered-move hs (erase other called _ e) = rw e (
      any-remove_apart (is_host other) (is_host name) d.hosts
        (λ h same. erase-apart other called h same)
      ∙ v.registered)

step-IsCordoned :
    (name : String) (d : Db) (c : Call)
    → Leaves name c
    → IsCordoned name d
    → IsCordoned name (step d c)
step-IsCordoned name d c leaves v = record {
  registered = registered-move name d v c leaves (step d c).hosts (step-Moves d c).hosts;
  cordoned = cordoned-move name d v c leaves (step d c).hosts (step-Moves d c).hosts;
}

run-IsCordoned :
    (name : String) (d : Db) (cs : List Call)
    → All (Leaves name) cs
    → IsCordoned name d
    → IsCordoned name (run d cs)
unfolding run
run-IsCordoned name d [] all v = v
run-IsCordoned name d (c ∷ cs) all v =
    run-IsCordoned name (step d c) cs all.1 (step-IsCordoned name d c all.0 v)

IsCordoned-refuses :
    (name : String) (d : Db) (now : ℕ) (id n s : String)
    → IsCordoned name d
    → reserve_placement now id name n s d ≡ err host_cordoned
unfolding reserve_placement
IsCordoned-refuses name d now id n s v = elim (Option-cases (find (is_host name) d.hosts)) [
  | inl e ↦ cc (v.registered, any_of_find-none (is_host name) d.hosts e)
  | inr (h, e) ↦
      rw
        (
          e,
          All-find (CordonedIf name) (is_host name) d.hosts v.cordoned e
              (find-matches (is_host name) d.hosts e),
        )
        refl
]

-- A cordoned host, after any calls that neither uncordon it nor remove it: a reservation of a
-- placement on it is refused with ErrHostCordoned.
pub cordon_holds :
    (name : String) (d : Db) (cs : List Call) (now : ℕ) (id n s : String)
    → IsCordoned name d
    → All (Leaves name) cs
    → reserve_placement now id name n s (run d cs) ≡ err host_cordoned
cordon_holds name d cs now id n s v all =
    IsCordoned-refuses name (run d cs) now id n s (run-IsCordoned name d cs all v)
