-- ===== src/FlintlockClient/Version/Remembered.antt =====
-- Which hosts CheckVersion of internal/flintlockclient/version.go lets pass.
use battery.Prelude.{
  if◌then◌else◌, ◌≡◌, refl, sym, ap, ◌∙◌, ◌↔◌, String, Bool, true, false, ◌||◌, ◌&&◌, none, Option,
  List, [], ◌∷◌, arith,
}
use battery.FlintlockClient.{Conn}
use battery.FlintlockClient.Version.{
  VersionError, Semver, ServerInfo, unimplemented, unanswered, reports, with_v, before_mark,
  version_core, record_all, asked, check_conn, min_flintlock_version,
}

-- The version, up to a mark and with a leading v, is valid and at least the minimum.
abbrev pub accepts_version : Semver → String → Bool
accepts_version sv v = sv.is_valid v && sv.at_least v min_flintlock_version

abbrev pub accepts : Semver → ServerInfo → Bool
accepts sv unimplemented = false
accepts sv unanswered = false
accepts sv (reports version) = accepts_version sv (before_mark (with_v version))

-- Of the answers that have been recorded, the last that reports a version decides; `known` is what was
-- known before.
abbrev pub last_accepted : Semver → Bool → List ServerInfo → Bool
last_accepted sv known [] = known
last_accepted sv known (unimplemented ∷ replies) = last_accepted sv known replies
last_accepted sv known (unanswered ∷ replies) = last_accepted sv known replies
last_accepted sv known (reports version ∷ replies) =
    last_accepted sv (accepts sv (reports version)) replies

asked-supported :
    (sv : Semver) (version : String) (c : Conn)
    → (asked sv (reports version) c).1.supported ≡ accepts sv (reports version)
unfolding version_core
asked-supported sv version c = ground arith

record_all-supported :
    (sv : Semver) (replies : List ServerInfo) (c : Conn)
    → (record_all sv replies c).supported ≡ last_accepted sv c.supported replies
unfolding record_all
record_all-supported sv [] c = refl
record_all-supported sv (unimplemented ∷ replies) c = record_all-supported sv replies c
record_all-supported sv (unanswered ∷ replies) c = record_all-supported sv replies c
record_all-supported sv (reports version ∷ replies) c =
    record_all-supported sv replies (asked sv (reports version) c).1
    ∙ ap (λ b. last_accepted sv b replies) (asked-supported sv version c)

asked-passes :
    (sv : Semver) (reply : ServerInfo) (c : Conn)
    → ((asked sv reply c).0 ≡ none) ↔ (accepts sv reply ≡ true)
unfolding version_core
asked-passes sv unimplemented c = ground arith
asked-passes sv unanswered c = ground arith
asked-passes sv (reports version) c = ground arith

check_conn-passes :
    (sv : Semver) (reply : ServerInfo) (between : List ServerInfo) (c : Conn)
    → ((check_conn sv reply between c).0 ≡ none) ↔ ((c.supported || accepts sv reply) ≡ true)
unfolding check_conn
check_conn-passes sv reply between c =
    either c.supported c (asked sv reply (record_all sv between c)) (accepts sv reply)
      (asked-passes sv reply (record_all sv between c))
  where
    either :
        (known : Bool) (c : Conn) (r : Option VersionError × Conn) (accepted : Bool)
        → ((r.0 ≡ none) ↔ (accepted ≡ true))
        → ((if known then (none, c) else r).0 ≡ none) ↔ ((known || accepted) ≡ true)
    either true c r accepted h = ((λ _. refl), (λ _. refl))
    either false c r accepted h = h

-- Checks of one connection may overlap: `before` are the answers recorded before a check begins, in
-- their order, and `between` those recorded while it waits for its own. It passes exactly if its own
-- answer is an accepted version, or the last version recorded before it began is one, or,
-- when there is none, the connection had passed already.
pub check_conn-remembers :
    (sv : Semver) (before between : List ServerInfo) (reply : ServerInfo) (c : Conn)
    → ((check_conn sv reply between (record_all sv before c)).0 ≡ none)
      ↔ ((last_accepted sv c.supported before || accepts sv reply) ≡ true)
check_conn-remembers sv before between reply c =
    let passes = check_conn-passes sv reply between (record_all sv before c) in
    let known = ap (λ b. b || accepts sv reply) (record_all-supported sv before c) in
    ((λ e. sym known ∙ passes.0 e), (λ e. passes.1 (known ∙ e)))
