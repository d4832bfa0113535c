-- ===== src/Commands/Prune/Retained.antt =====
-- commands/command_prune.go: the objects that the repository needs, and what the loops of the tasks send.
use expert_octo_doodle.Common.{
  Bytes, List, [], ◌∷◌, ◌++◌, Option, none, some, Bool, true, false, ◌≡◌, refl, arith, Bool-cases,
  inl, inr, equal, equal_iff, is_in, is_in-append, if◌then◌else◌, ℤ, add_int, negate_int,
  is_positive,
}
use expert_octo_doodle.Commands.Prune.{
  FetchPruneConfig, Scan, not_started, scanned, Repository, Found, ◌&◌, first_of, of_scan,
  new_commits, retained_at_refs, previous_versions_of, previous_versions,
}
use expert_octo_doodle.Errors.{Fault}
use expert_octo_doodle.Tools.StringSet.{StringSet}

-- Whether a scan finds an object.
abbrev pub finds : Scan → Bytes → Bool
finds (not_started e) oid = false
finds (scanned oids e) oid = is_in oids oid

module _ (repo : Repository) (c : FetchPruneConfig) where
  -- The commits that a fetch starts from: HEAD, and the recent refs if the configuration asks for them.
  pub data IsTip : Bytes → Type 0 where
    head : (h : Bytes) → repo.current_ref ≡ inr h → IsTip h
    recent :
        (r : Bytes) (refs : List Bytes)
        → is_positive c.fetch_recent_refs_days ≡ true
        → repo.recent_branches
            (repo.add_date repo.now
              (negate_int (add_int c.fetch_recent_refs_days c.prune_offset_days)))
            c.fetch_recent_refs_include_remotes
          ≡ inr refs
        → is_in refs r ≡ true
        → IsTip r

  -- What must not be pruned: the objects at the tips, their previous versions in the days that the
  -- configuration gives, what is not pushed, and the objects at the heads of the worktrees.
  pub data Needed (oid : Bytes) : Type 0 where
    at_tip : (r : Bytes) → IsTip r → finds (repo.scan_ref r) oid ≡ true → Needed oid
    previous :
        (r : Bytes) (date : repo.Time)
        → IsTip r
        → is_positive c.fetch_recent_commits_days ≡ true
        → repo.commit_date r ≡ inr date
        → finds
            (repo.scan_previous_versions r (
              repo.add_date date
                (negate_int (add_int c.fetch_recent_commits_days c.prune_offset_days))))
            oid
          ≡ true
        → Needed oid
    not_pushed : finds (repo.scan_unpushed c.prune_remote_name) oid ≡ true → Needed oid
    at_worktree :
        (r : Bytes) (heads : List Bytes)
        → repo.all_work_tree_heads ≡ inr heads
        → is_in heads r ≡ true
        → finds (repo.scan_ref r) oid ≡ true
        → Needed oid

-- Neither an error nor a panic.
abbrev pub IsClean : Found → Type 0
IsClean a = (a.errors ≡ []) × (a.panicked ≡ none)

abbrev pub holds : Found → Bytes → Bool
holds a oid = is_in a.retained oid

nil-left : (es fs : List Fault) → es ++ fs ≡ [] → (es ≡ []) × (fs ≡ [])
nil-left [] fs h = (refl, h)
nil-left (e ∷ es) fs h = cc

first-none : (a b : Option Fault) → first_of a b ≡ none → (a ≡ none) × (b ≡ none)
first-none none b h = (refl, h)
first-none (some e) b h = cc

pub IsClean-both : (a b : Found) → IsClean (a & b) → IsClean a × IsClean b
IsClean-both a b (errors, panicked) =
    let (ea, eb) = nil-left a.errors b.errors errors in
    let (pa, pb) = first-none a.panicked b.panicked panicked in ((ea, pa), (eb, pb))

pub left-holds : (a b : Found) (oid : Bytes) → holds a oid ≡ true → holds (a & b) oid ≡ true
left-holds a b oid h = rw (is_in-append a.retained b.retained oid, h)

pub right-holds : (a b : Found) (oid : Bytes) → holds b oid ≡ true → holds (a & b) oid ≡ true
right-holds a b oid h = rw (is_in-append a.retained b.retained oid, h) (ground arith)

pub of_scan-holds : (s : Scan) (oid : Bytes) → finds s oid ≡ true → holds (of_scan s) oid ≡ true
unfolding of_scan
of_scan-holds (not_started e) oid h = cc
of_scan-holds (scanned oids e) oid h = h

module _ (S : StringSet) (repo : Repository) where
  pub fresh-is_in :
      (refs : List Bytes) (seen : S.Carrier) (r : Bytes)
      → is_in refs r ≡ true
      → S.contains seen r ≡ false
      → is_in (new_commits S repo refs seen).1 r ≡ true
  unfolding new_commits
  fresh-is_in [] seen r h out = h
  fresh-is_in (q ∷ refs) seen r h out =
      ground (arith, equal_iff q r, S.contains-add q r seen, fresh-is_in refs (S.add q seen) r)

  pub commits-contains :
      (refs : List Bytes) (seen : S.Carrier) (r : Bytes)
      → S.contains (new_commits S repo refs seen).0 r
        ≡ (if is_in refs r then true else S.contains seen r)
  unfolding new_commits
  commits-contains [] seen r = refl
  commits-contains (q ∷ refs) seen r =
      ground (arith, equal_iff q r, S.contains-add q r seen, commits-contains refs (S.add q seen) r)

  pub at_refs-holds :
      (cs : List Bytes) (r oid : Bytes)
      → is_in cs r ≡ true
      → finds (repo.scan_ref r) oid ≡ true
      → holds (retained_at_refs S repo cs) oid ≡ true
  unfolding retained_at_refs
  at_refs-holds [] r oid h found = cc
  at_refs-holds (q ∷ cs) r oid h found =
      let here = of_scan (repo.scan_ref q) in
      let rest = retained_at_refs S repo cs in
      elim (Bool-cases (equal q r)) [
        | inl same ↦
            let q≡r = (equal_iff q r).0 same in
            left-holds here rest oid (of_scan-holds (repo.scan_ref q) oid (rw q≡r found))
        | inr other ↦ right-holds here rest oid (at_refs-holds cs r oid (rw other at h) found)
      ]

  version-holds :
      (days : ℤ) (r oid : Bytes) (date : repo.Time)
      → repo.commit_date r ≡ inr date
      → finds (repo.scan_previous_versions r (repo.add_date date (negate_int days))) oid ≡ true
      → holds (previous_versions_of S repo days r) oid ≡ true
  unfolding previous_versions_of
  version-holds days r oid date dated found =
      rw (dated, previous_versions_of)
        (of_scan-holds (repo.scan_previous_versions r (repo.add_date date (negate_int days))) oid
          found)

  pub previous-holds :
      (days : ℤ) (cs : List Bytes) (r oid : Bytes) (date : repo.Time)
      → is_in cs r ≡ true
      → repo.commit_date r ≡ inr date
      → finds (repo.scan_previous_versions r (repo.add_date date (negate_int days))) oid ≡ true
      → holds (previous_versions S repo days cs) oid ≡ true
  unfolding previous_versions
  previous-holds days [] r oid date h dated found = cc
  previous-holds days (q ∷ cs) r oid date h dated found =
      let here = previous_versions_of S repo days q in
      let rest = previous_versions S repo days cs in
      elim (Bool-cases (equal q r)) [
        | inl same ↦
            let q≡r = (equal_iff q r).0 same in
            left-holds here rest oid (rw q≡r (version-holds days r oid date dated found))
        | inr other ↦
            right-holds here rest oid
              (previous-holds days cs r oid date (rw other at h) dated found)
      ]
