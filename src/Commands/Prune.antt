-- ===== src/Commands/Prune.antt =====
-- commands/command_prune.go: the objects that a prune retains. The goroutines send what they retain, and
-- their errors, on channels; here each of them gives what it sends. What git and the scanner answer is a
-- parameter. Trace output and the spinner are left out.
pub mod Run
pub mod Retained
pub mod Sent
pub mod Deletes
pub mod Parts
pub mod Safe
pub mod Complete
use expert_octo_doodle.Common.{
  ℕ, Bytes, List, [], ◌∷◌, ◌++◌, Option, none, some, Bool, true, false, if◌then◌else◌, ◌⊎◌, inl,
  inr, ℤ, add_int, negate_int, is_positive,
}
use expert_octo_doodle.Errors.{Fault}
use expert_octo_doodle.Tools.StringSet.{StringSet}

-- The fields of `config.FetchPruneConfig` that a prune reads.
pub record FetchPruneConfig : Type 0 where
  pub fetch_recent_refs_days : ℤ
  pub fetch_recent_refs_include_remotes : Bool
  pub fetch_recent_commits_days : ℤ
  pub prune_offset_days : ℤ
  pub prune_verify_remote_always : Bool
  pub prune_remote_name : Bytes

-- A scan that does not start, or the oids of the pointers that it gives and the error of its `Wait`.
pub data Scan : Type 0 where
  not_started : Fault → Scan
  scanned : List Bytes → Option Fault → Scan

-- What git answers, and what the scanner finds. Commits are named by their SHA.
pub record Repository : Type 1 where
  pub Time : Type 0
  pub now : Time
  pub add_date : Time → ℤ → Time
  pub current_ref : Fault ⊎ Bytes
  pub recent_branches : Time → Bool → Fault ⊎ List Bytes
  pub commit_date : Bytes → Fault ⊎ Time
  pub all_work_tree_heads : Fault ⊎ List Bytes
  pub scan_ref : Bytes → Scan
  pub scan_previous_versions : Bytes → Time → Scan
  pub scan_unpushed : Bytes → Scan
  pub scan_all : Scan

-- What a task sends, and the error that it panics with.
pub record Found : Type 0 where
  pub retained : List Bytes
  pub errors : List Fault
  pub panicked : Option Fault

abbrev pub nothing : Found
nothing = record { retained = []; errors = []; panicked = none }

abbrev pub error_only : Fault → Found
error_only e = record { retained = []; errors = e ∷ []; panicked = none }

abbrev pub first_of : Option Fault → Option Fault → Option Fault
first_of none b = b
first_of (some e) b = some e

infixr 30 ◌&◌
abbrev pub ◌&◌ : Found → Found → Found
a & b = record {
  retained = a.retained ++ b.retained;
  errors = a.errors ++ b.errors;
  panicked = first_of a.panicked b.panicked;
}

abbrev pub option_list : Option Fault → List Fault
option_list none = []
option_list (some e) = e ∷ []

-- The body that the tasks share: the scan's error, or all its results and then the error of `Wait`.
unfoldable pub of_scan : Scan → Found
of_scan (not_started e) = error_only e
of_scan (scanned oids e) = record { retained = oids; errors = option_list e; panicked = none }

module _ (S : StringSet) (repo : Repository) where
  -- The loop over refs that starts a task for each new commit: the set, and the commits that are new.
  unfoldable pub new_commits : List Bytes → S.Carrier → S.Carrier × List Bytes
  new_commits [] seen = (seen, [])
  new_commits (c ∷ cs) seen =
      let rest = new_commits cs (S.add c seen) in
      if S.contains seen c then rest else (rest.0, c ∷ rest.1)

  -- `pruneTaskGetRetainedAtRef` for each of the commits.
  unfoldable pub retained_at_refs : List Bytes → Found
  unfolding of_scan
  retained_at_refs [] = nothing
  retained_at_refs (c ∷ cs) = of_scan (repo.scan_ref c) & retained_at_refs cs

  -- One round of the loop over the commits, with the `pruneTaskGetPreviousVersionsOfRef` that it starts.
  unfoldable pub previous_versions_of : ℤ → Bytes → Found
  unfolding of_scan
  previous_versions_of days c = elim (repo.commit_date c) [
    | inl e ↦ error_only e
    | inr date ↦ of_scan (repo.scan_previous_versions c (repo.add_date date (negate_int days)))
  ]

  unfoldable pub previous_versions : ℤ → List Bytes → Found
  unfolding previous_versions_of
  previous_versions days [] = nothing
  previous_versions days (c ∷ cs) = previous_versions_of days c & previous_versions days cs

  -- The refs that are recent; none if the configuration does not ask for them.
  unfoldable pub recent_refs : FetchPruneConfig → Fault ⊎ List Bytes
  recent_refs c =
      if is_positive c.fetch_recent_refs_days
      then repo.recent_branches
          (repo.add_date repo.now
            (negate_int (add_int c.fetch_recent_refs_days c.prune_offset_days)))
          c.fetch_recent_refs_include_remotes
      else inr []

  unfoldable pub recent_commits : FetchPruneConfig → List Bytes → Found
  unfolding previous_versions
  recent_commits c commits =
      if is_positive c.fetch_recent_commits_days
      then previous_versions (add_int c.fetch_recent_commits_days c.prune_offset_days) commits
      else nothing

  -- `pruneTaskGetRetainedCurrentAndRecentRefs`
  unfoldable pub current_and_recent_refs : FetchPruneConfig → Found
  unfolding new_commits retained_at_refs recent_refs recent_commits of_scan
  current_and_recent_refs c = elim repo.current_ref [
    | inl e ↦ error_only e
    | inr head ↦ of_scan (repo.scan_ref head) & elim (recent_refs c) [
      | inl e ↦ record { retained = []; errors = []; panicked = some e }
      | inr refs ↦
          let (commits, fresh) = new_commits refs (S.add head S.empty) in
          retained_at_refs fresh & recent_commits c (S.elements commits)
    ]
  ]

  -- `pruneTaskGetRetainedUnpushed`
  unfoldable pub unpushed : FetchPruneConfig → Found
  unfolding of_scan
  unpushed c = of_scan (repo.scan_unpushed c.prune_remote_name)

  -- `pruneTaskGetRetainedWorktree`
  unfoldable pub worktree : Found
  unfolding new_commits retained_at_refs
  worktree = elim repo.all_work_tree_heads [
    | inl e ↦ error_only e
    | inr heads ↦ elim repo.current_ref [
      | inl e ↦ error_only e
      | inr head ↦ retained_at_refs (new_commits heads (S.add head S.empty)).1
    ]
  ]

  -- `pruneTaskGetReachableObjects`: what it finds is not retained, but the objects that a check must cover.
  unfoldable pub reachable_objects : Found
  unfolding of_scan
  reachable_objects = of_scan repo.scan_all

  -- The tasks that send on the channels of retained objects and of errors.
  unfoldable pub tasks : FetchPruneConfig → Found
  unfolding current_and_recent_refs unpushed worktree
  tasks c = current_and_recent_refs c & unpushed c & worktree
