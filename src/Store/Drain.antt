-- ===== src/Store/Drain.antt =====
-- DrainHost of internal/store/sqlite.go.
use mathlib.Core.Option
use battery.Prelude.{
  ℕ, ◌≡◌, refl, sym, ◌∙◌, Bool, true, false, ◌&&◌, some, String, List, [], ◌∷◌, if◌then◌else◌,
  arith, ◌==◌, string_eq, Bool-cases, Option-cases, inl, inr, All, some-eq-some,
}
use battery.Types.{Host, VmRecord, phase_eq}
use battery.Table.{find, update, any}
use battery.Table.Laws.{find-update, find-matches, any-update}
use battery.Store.Error.{ok, err, host_cordoned}
use battery.Store.Rows.{HostRow, VmRow, row_to_host}
use battery.Store.Db.{Db}
use battery.Store.Pools.{is_held, mark_deleting}
use battery.Store.Vms.{has_uid}
use battery.Store.Hosts.{is_host, on_host, is_unleased, set_draining, drain_host, reserve_placement}
use battery.Store.Outcomes.{Post-ok}
use battery.Store.Outcomes.Hosts.{drain_host-Post, drained}
use battery.Store.Call.{Call, run}
use battery.Store.Cordon.{IsCordoned, CordonedIf, Leaves, cordon_holds}

-- Whether a drain of `name` marks the row.
abbrev drains : String → VmRow → Bool
drains name v = on_host name v && is_unleased v

-- What a drain of host `name` from `d` to `d'` has done, with what it returns.
pub record Drained (name : String) (d : Db) (host : Host) (vms : List VmRecord) (d' : Db)
    : Type 0 where
  -- No VM is left on the host but the held ones and those that are to be deleted.
  pub settled : any (λ v. on_host name v && is_unleased v) d'.vms ≡ false
  pub held :
      (uid : String) (v : VmRow)
      → find (has_uid uid) d.vms ≡ some v
      → is_held v ≡ true
      → find (has_uid uid) d'.vms ≡ some v
  pub elsewhere :
      (uid : String) (v : VmRow)
      → find (has_uid uid) d.vms ≡ some v
      → on_host name v ≡ false
      → find (has_uid uid) d'.vms ≡ some v
  pub closed : IsCordoned name d'
  pub row : HostRow
  pub found : find (is_host name) d'.hosts ≡ some row
  pub draining : row.draining ≡ true
  pub given : host ≡ row_to_host row
  pub rest : d' ≡ record d { hosts = d'.hosts; vms = d'.vms }

settled-drains :
    (now : ℕ) (name : String) (vs : List VmRow)
    → any (drains name) (update (drains name) (mark_deleting now) vs) ≡ false
unfolding any update
settled-drains now name [] = refl
settled-drains now name (v ∷ vs) = ground (arith, settled-drains now name vs)

undrained :
    (now : ℕ) (name uid : String) (vs : List VmRow) (v : VmRow)
    → find (has_uid uid) vs ≡ some v
    → drains name v ≡ false
    → find (has_uid uid) (update (drains name) (mark_deleting now) vs) ≡ some v
undrained now name uid vs v e off =
    find-update (drains name) (has_uid uid) (mark_deleting now) vs (λ _. refl) ∙ rw (e, off)

drained-CordonedIf :
    (now : ℕ) (name reason : String) (hs : List HostRow)
    → All (CordonedIf name) (update (is_host name) (set_draining now reason) hs)
unfolding update
drained-CordonedIf now name reason [] = tt
drained-CordonedIf now name reason (h ∷ hs) = elim (Bool-cases (h.name == name)) [
  | inl e ↦ rw e ((λ _. refl), drained-CordonedIf now name reason hs)
  | inr e ↦ rw e ((λ t. cc (t, e)), drained-CordonedIf now name reason hs)
]

module _ (now : ℕ) (name reason : String) (d : Db) where
  drained-Cordoned : any (is_host name) d.hosts ≡ true → IsCordoned name (drained d now name reason)
  drained-Cordoned there = record {
    registered =
        any-update (is_host name) (is_host name) (set_draining now reason) d.hosts (λ _. refl)
        ∙ there;
    cordoned = drained-CordonedIf now name reason d.hosts;
  }

  drained-row :
      (row : HostRow)
      → find (is_host name) (update (is_host name) (set_draining now reason) d.hosts) ≡ some row
      → (h : HostRow) × ((row ≡ set_draining now reason h) × (find (is_host name) d.hosts ≡ some h))
  drained-row row e = elim (Option-cases (find (is_host name) d.hosts)) [
    | inl g ↦ cc (e, (rw g at moved))
    | inr (h, g) ↦
        (h, (some-eq-some (sym e ∙ (rw (g, find-matches (is_host name) d.hosts g) at moved)), g))
  ]
    where
      moved :
          find (is_host name) (update (is_host name) (set_draining now reason) d.hosts)
          ≡ Option.map
              (λ x. if is_host name x then set_draining now reason x else x)
              (find (is_host name) d.hosts)
      moved =
          find-update (is_host name) (is_host name) (set_draining now reason) d.hosts (λ _. refl)

-- A drain that succeeds leaves on the host only VMs that are LEASED, PRE_LEASE_HOOK_RUNNING or DELETING; the held
-- VMs and those of other hosts are as they were; the host is cordoned and draining, as the row returned
-- says; and pools, leases, events and placements have not changed.
pub drain_host-Drained :
    (now : ℕ) (name reason : String) (d : Db) (host : Host) (vms : List VmRecord) (d' : Db)
    → drain_host now name reason d ≡ ok ((host, vms), d')
    → Drained name d host vms d'
drain_host-Drained now name reason d host vms d' e =
    Post-ok (drain_host now name reason d) (λ x. Drained name d x.0 x.1)
      (drain_host-Post d now name reason (λ x. Drained name d x.0 x.1)
        λ there row found. record {
          settled = settled-drains now name d.vms;
          held = λ uid v f h. undrained now name uid d.vms v f (ground (arith, h));
          elsewhere = λ uid v f h. undrained now name uid d.vms v f (rw h refl);
          closed = drained-Cordoned now name reason d there;
          row = row;
          found = found;
          draining = rw ((drained-row now name reason d row found).1.0) refl;
          given = refl;
          rest = refl;
        })
      e

-- After a drain that succeeds, and any calls that neither uncordon the host nor remove it, a
-- reservation of a placement on it is refused with ErrHostCordoned.
pub drain_closes :
    (now : ℕ) (name reason : String) (d : Db) (host : Host) (vms : List VmRecord) (d' : Db)
    (cs : List Call) (later : ℕ) (id n s : String)
    → drain_host now name reason d ≡ ok ((host, vms), d')
    → All (Leaves name) cs
    → reserve_placement later id name n s (run d' cs) ≡ err host_cordoned
drain_closes now name reason d host vms d' cs later id n s e all =
    cordon_holds name d' cs later id n s (drain_host-Drained now name reason d host vms d' e).closed
      all
