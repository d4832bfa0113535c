-- ===== src/Commands/Prune/Sent.antt =====
-- commands/command_prune.go: without an error, the tasks send every object that the repository needs.
use expert_octo_doodle.Common.{
  Bytes, List, [], ◌++◌, some, Bool, true, false, ◌≡◌, arith, Bool-cases, inl, inr, equal,
  equal_iff, is_in, is_in-append, if◌then◌else◌, add_int, negate_int, is_positive, Sum-cases,
  equal_refl,
}
use expert_octo_doodle.Commands.Prune.{
  FetchPruneConfig, Repository, Found, ◌&◌, of_scan, new_commits, retained_at_refs, recent_refs,
  recent_commits, current_and_recent_refs, unpushed, worktree, tasks,
}
use expert_octo_doodle.Errors.{Fault}
use expert_octo_doodle.Tools.StringSet.{StringSet}
use expert_octo_doodle.Commands.Prune.Retained.{
  finds, IsTip, head, recent, Needed, at_tip, previous, not_pushed, at_worktree, IsClean,
  IsClean-both, holds, left-holds, right-holds, of_scan-holds, fresh-is_in, commits-contains,
  at_refs-holds, previous-holds,
}

module _ (S : StringSet) (repo : Repository) (c : FetchPruneConfig) where
  abbrev panic_only : Fault → Found
  panic_only e = record { retained = []; errors = []; panicked = some e }

  -- The part of `current_and_recent_refs` behind HEAD.
  abbrev behind_head : Bytes → List Bytes → Found
  behind_head h refs =
      let (commits, fresh) = new_commits S repo refs (S.add h S.empty) in
      retained_at_refs S repo fresh & recent_commits S repo c (S.elements commits)

  -- The commits that the task goes through.
  abbrev is_started : Bytes → List Bytes → Bytes → Bool
  is_started h refs r = if equal h r then true else is_in refs r

  behind_head-tip :
      (h r oid : Bytes) (refs : List Bytes)
      → is_started h refs r ≡ true
      → finds (repo.scan_ref r) oid ≡ true
      → holds (of_scan (repo.scan_ref h) & behind_head h refs) oid ≡ true
  behind_head-tip h r oid refs started found =
      let first = of_scan (repo.scan_ref h) in
      let seen = S.add h S.empty in
      elim (Bool-cases (equal h r)) [
        | inl same ↦
            let h≡r = (equal_iff h r).0 same in
            left-holds first (behind_head h refs) oid
              (of_scan-holds (repo.scan_ref h) oid (rw h≡r found))
        | inr other ↦
            let unseen : S.contains seen r ≡ false =
              rw (S.contains-add h r S.empty, other, S.contains-empty r) in
            right-holds first (behind_head h refs) oid (
              left-holds (retained_at_refs S repo (new_commits S repo refs seen).1)
                (recent_commits S repo c (S.elements (new_commits S repo refs seen).0)) oid
                (at_refs-holds S repo (new_commits S repo refs seen).1 r oid
                  (fresh-is_in S repo refs seen r (rw other at started) unseen) found))
      ]

  behind_head-previous :
      (h r oid : Bytes) (refs : List Bytes) (date : repo.Time)
      → is_started h refs r ≡ true
      → is_positive c.fetch_recent_commits_days ≡ true
      → repo.commit_date r ≡ inr date
      → finds
          (repo.scan_previous_versions r (
            repo.add_date date
              (negate_int (add_int c.fetch_recent_commits_days c.prune_offset_days))))
          oid
        ≡ true
      → holds (of_scan (repo.scan_ref h) & behind_head h refs) oid ≡ true
  unfolding recent_commits
  behind_head-previous h r oid refs date started asked dated found =
      let seen = S.add h S.empty in
      let (commits, fresh) = new_commits S repo refs seen in
      let days = add_int c.fetch_recent_commits_days c.prune_offset_days in
      let iterated : is_in (S.elements commits) r ≡ true =
        rw
          (
            S.elements-contains r commits,
            commits-contains S repo refs seen r,
            S.contains-add h r S.empty,
          )
          (ground (arith, started)) in
      right-holds (of_scan (repo.scan_ref h)) (behind_head h refs) oid (
        right-holds (retained_at_refs S repo fresh) (recent_commits S repo c (S.elements commits))
          oid
          (rw (asked, recent_commits)
            (previous-holds S repo days (S.elements commits) r oid date iterated dated found)))

  started :
      (h r : Bytes) (refs : List Bytes)
      → repo.current_ref ≡ inr h
      → recent_refs S repo c ≡ inr refs
      → IsTip repo c r
      → is_started h refs r ≡ true
  unfolding recent_refs
  started h _ refs at_h answer (head r at_r) = let same : h ≡ r = cc in rw (same, equal_refl r)
  started h _ refs at_h answer (recent r refs' asked answer' member) =
      let read = rw asked at answer in
      let same : refs' ≡ refs = cc in ground (arith, rw same at member)

  -- HEAD and the refs that a clean task goes through, which are all the tips.
  tips :
      IsClean (current_and_recent_refs S repo c)
      → (h : Bytes) × (refs : List Bytes) × (repo.current_ref ≡ inr h)
        × (current_and_recent_refs S repo c ≡ of_scan (repo.scan_ref h) & behind_head h refs)
        × ((r : Bytes) → IsTip repo c r → is_started h refs r ≡ true)
  unfolding current_and_recent_refs
  tips clean = elim (Sum-cases repo.current_ref) [
    | inl (e, failed) ↦ cc (rw (failed, current_and_recent_refs) at clean.0)
    | inr (h, at_h) ↦ elim (Sum-cases (recent_refs S repo c)) [
      | inl (e, failed) ↦
          let whole : current_and_recent_refs S repo c ≡ of_scan (repo.scan_ref h) & panic_only e =
            rw (at_h, failed, current_and_recent_refs) in
          cc (IsClean-both (of_scan (repo.scan_ref h)) (panic_only e) (rw whole at clean)).1.1
      | inr (refs, answer) ↦ (
        h,
        refs,
        at_h,
        rw (at_h, answer, current_and_recent_refs),
        λ r tip. started h r refs at_h answer tip,
      )
    ]
  ]

  current-holds :
      (oid : Bytes)
      → IsClean (current_and_recent_refs S repo c)
      → ((r : Bytes) × IsTip repo c r × (finds (repo.scan_ref r) oid ≡ true))
      → holds (current_and_recent_refs S repo c) oid ≡ true
  current-holds oid clean (r, tip, found) =
      let (h, refs, at_h, whole, all) = tips clean in
      rw whole (behind_head-tip h r oid refs (all r tip) found)

  worktree-holds :
      (oid r : Bytes) (heads : List Bytes)
      → IsClean (worktree S repo)
      → IsClean (current_and_recent_refs S repo c)
      → repo.all_work_tree_heads ≡ inr heads
      → is_in heads r ≡ true
      → finds (repo.scan_ref r) oid ≡ true
      → holds (current_and_recent_refs S repo c & worktree S repo) oid ≡ true
  unfolding worktree
  worktree-holds oid r heads clean clean' answer member found =
      let (h, refs, at_h, whole, all) = tips clean' in
      let current = current_and_recent_refs S repo c in
      elim (Bool-cases (equal h r)) [
        | inl same ↦
            let h≡r = (equal_iff h r).0 same in
            left-holds current (worktree S repo) oid
              (current-holds oid clean' (r, head r (rw h≡r at at_h), found))
        | inr other ↦
            let seen = S.add h S.empty in
            let unseen : S.contains seen r ≡ false =
              rw (S.contains-add h r S.empty, other, S.contains-empty r) in
            right-holds current (worktree S repo) oid (
              rw (answer, at_h, worktree)
                (at_refs-holds S repo (new_commits S repo heads seen).1 r oid
                  (fresh-is_in S repo heads seen r member unseen) found))
      ]

  -- What the first task retains, and what the first and the last do, is retained by them all.
  first-tasks :
      (oid : Bytes)
      → holds (current_and_recent_refs S repo c) oid ≡ true
      → holds (tasks S repo c) oid ≡ true
  unfolding tasks
  first-tasks oid h =
      left-holds (current_and_recent_refs S repo c) (unpushed S repo c & worktree S repo) oid h

  outer-tasks :
      (oid : Bytes)
      → holds (current_and_recent_refs S repo c & worktree S repo) oid ≡ true
      → holds (tasks S repo c) oid ≡ true
  unfolding tasks
  outer-tasks oid h = ground (
    arith,
    h,
    is_in-append (current_and_recent_refs S repo c).retained (worktree S repo).retained oid,
    is_in-append (unpushed S repo c).retained (worktree S repo).retained oid,
    is_in-append (current_and_recent_refs S repo c).retained
        ((unpushed S repo c).retained ++ (worktree S repo).retained) oid,
  )

  -- Every object that the repository needs is sent, if no task fails.
  pub tasks-Needed :
      (oid : Bytes)
      → Needed repo c oid
      → IsClean (tasks S repo c)
      → holds (tasks S repo c) oid ≡ true
  unfolding tasks unpushed
  tasks-Needed oid needed clean =
      let current = current_and_recent_refs S repo c in
      let last = worktree S repo in
      let (first, others) = IsClean-both current (unpushed S repo c & last) clean in
      let (_, at_worktrees) = IsClean-both (unpushed S repo c) last others in
      elim needed [
        | at_tip r tip found ↦ first-tasks oid (current-holds oid first (r, tip, found))
        | previous r date tip asked dated found ↦
            let (h, refs, at_h, whole, all) = tips first in
            first-tasks oid
              (rw whole (behind_head-previous h r oid refs date (all r tip) asked dated found))
        | not_pushed found ↦ right-holds current (unpushed S repo c & last) oid (
            left-holds (unpushed S repo c) last oid
              (of_scan-holds (repo.scan_unpushed c.prune_remote_name) oid found))
        | at_worktree r heads answer member found ↦
            outer-tasks oid (worktree-holds oid r heads at_worktrees first answer member found)
      ]
