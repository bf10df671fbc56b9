-- ===== src/FlintlockClient/Version/Described.antt =====
-- Versions of builds between releases, in internal/flintlockclient/version.go.
use Prim.Native.Char.{Char, code}
use Prim.Native.String.{◌++◌, ◌∷◌, []}
use Prim.Native.String.append.{nil, cons}
use battery.Prelude.{
  List, ◌≡◌, refl, sym, ap, ◌∙◌, String, true, false, Option, none, some, Bool-cases, inl, inr,
  ◌==◌, nat_eq, if◌then◌else◌, arith,
}
use battery.FlintlockClient.{Conn}
use battery.FlintlockClient.Version.{
  Semver, is_mark, with_v, before_mark, version_core, compared, record_all, ServerInfo, check_conn,
  reports,
}

-- The version of a release, followed by a mark and anything.
abbrev pub described : String → Char → String → String
described core mark rest = core ++ (mark ∷ rest)

before_mark-described :
    (core rest : String) (mark : Char)
    → is_mark mark ≡ true
    → before_mark (described core mark rest) ≡ before_mark core
unfolding before_mark
before_mark-described [] rest mark m = ap before_mark (nil (mark ∷ rest)) ∙ rw m refl
before_mark-described (c ∷ core) rest mark m =
    ap before_mark (cons c core (mark ∷ rest)) ∙ rw (before_mark-described core rest mark m) refl

mark_no_v : (mark : Char) → is_mark mark ≡ true → (code mark == 118) ≡ false
mark_no_v mark m = ground arith

with_v-described :
    (core rest : String) (mark : Char)
    → is_mark mark ≡ true
    → with_v (described core mark rest) ≡ described (with_v core) mark rest
with_v-described [] rest mark m =
    ap with_v (nil (mark ∷ rest))
    ∙ rw (mark_no_v mark m)
        (sym (cons "v" [] (mark ∷ rest) ∙ ap (λ s. "v" ∷ s) (nil (mark ∷ rest))))
with_v-described (c ∷ core) rest mark m = elim (Bool-cases (code c == 118)) [
  | inl t ↦ ap with_v (cons c core (mark ∷ rest)) ∙ rw t (sym (cons c core (mark ∷ rest)))
  | inr t ↦
      ap with_v (cons c core (mark ∷ rest))
      ∙ rw t (
          ap (λ s. "v" ∷ s) (sym (cons c core (mark ∷ rest)))
          ∙ sym (cons "v" (c ∷ core) (mark ∷ rest)))
]

version_core-described :
    (sv : Semver) (core rest : String) (mark : Char)
    → is_mark mark ≡ true
    → version_core sv (described core mark rest) ≡ version_core sv core
unfolding version_core
version_core-described sv core rest mark m =
    rw (with_v-described core rest mark m, before_mark-described (with_v core) rest mark m) refl

-- A build that is described by a release, a '-' or '+', and anything gets the verdict of that release.
pub check_conn-described :
    (sv : Semver) (core rest : String) (mark : Char) (between : List ServerInfo) (c : Conn)
    → is_mark mark ≡ true
    → (check_conn sv (reports (described core mark rest)) between c).0
      ≡ (check_conn sv (reports core) between c).0
unfolding check_conn
check_conn-described sv core rest mark between c m =
    rw (version_core-described sv core rest mark m) (same_verdict (version_core sv core))
  where
    same_verdict :
        (v : Option String)
        → (if c.supported
            then (none, c)
            else compared sv (described core mark rest) (record_all sv between c) v).0
          ≡ (if c.supported then (none, c) else compared sv core (record_all sv between c) v).0
    same_verdict none = ground arith
    same_verdict (some v) = ground arith
