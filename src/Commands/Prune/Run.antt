-- ===== src/Commands/Prune/Run.antt =====
-- commands/command_prune.go: what a prune deletes, and how it ends. `retained` is what has arrived on the
-- channel of the retained objects, in the order of its arrival; the messages are left out but for what
-- they list. `Exit` and `Panic` end the process.
use expert_octo_doodle.Common.{
  ℕ, ◌+◌, Bytes, List, [], ◌∷◌, ◌++◌, map, none, some, Bool, true, false, not, ◌&&◌, ◌||◌,
  if◌then◌else◌,
}
use expert_octo_doodle.Commands.Prune.{
  FetchPruneConfig, Repository, nothing, ◌&◌, reachable_objects, tasks,
}
use expert_octo_doodle.Errors.{Fault}
use expert_octo_doodle.LocalStorage.{FileSystem, FilePath, Object, scan_objects, local_object_dir}
use expert_octo_doodle.Tools.StringSet.{StringSet, add_all}

pub data Problem : Type 0 where
  no_media_path : Bytes → Fault → Problem
  not_removed : FilePath → Fault → Problem

pub data Outcome : Type 0 where
  conflicting_flags : Outcome
  panicked : Fault → Outcome
  out_of_range : Outcome
  tasks_failed : List Fault → Outcome
  missing_on_remote : List Bytes → Outcome
  nothing_to_prune : Outcome
  would_prune : List Bytes → Outcome
  pruned : List Bytes → Outcome
  not_all_removed : List Problem → Outcome

module _ (F : FileSystem) where
  -- The loop of `pruneDeleteFiles`; `crashed` tells that it panicked on an oid.
  pub record Deletion : Type 0 where
    pub disk : F.Disk
    pub problems : List Problem
    pub deleted : ℕ
    pub crashed : Bool

  -- `os.Remove`
  unfoldable pub remove_file : FilePath → Deletion → Deletion
  remove_file p d =
      let (e, disk) = F.remove p d.disk in
      elim e [
        | some e ↦ record d { disk = disk; problems = d.problems ++ not_removed p e ∷ [] }
        | none ↦ record d { disk = disk; deleted = d.deleted + 1 }
      ]

  -- One round: `LocalMediaPath` makes the directory of the object.
  unfoldable pub delete_file : List Bytes → Bytes → Deletion → Deletion
  unfolding remove_file
  delete_file dir oid d =
      let (e, disk) = F.make_dirs dir d.disk in
      elim e [
        | some e ↦ record d { disk = disk; problems = d.problems ++ no_media_path oid e ∷ [] }
        | none ↦ remove_file (record { dir = dir; name = oid }) (record d { disk = disk })
      ]

  unfoldable pub delete_files : List Bytes → Deletion → Deletion
  unfolding delete_file
  delete_files [] d = d
  delete_files (oid ∷ oids) d = elim (local_object_dir oid) [
    | none ↦ record d { crashed = true }
    | some dir ↦ delete_files oids (delete_file dir oid d)
  ]

  unfoldable pub start_deletion : F.Disk → Deletion
  start_deletion k = record { disk = k; problems = []; deleted = 0; crashed = false }

  unfoldable pub end_deletion : List Bytes → Deletion → Outcome × F.Disk
  end_deletion oids d = if d.crashed then (out_of_range, d.disk) else elim d.problems [
    | [] ↦ (pruned oids, d.disk)
    | p ∷ ps ↦ (not_all_removed (p ∷ ps), d.disk)
  ]

  -- The last part of `prune`.
  unfoldable pub finish : Bool → List Bytes → F.Disk → Outcome × F.Disk
  unfolding start_deletion end_deletion delete_files
  finish dry_run [] k = (nothing_to_prune, k)
  finish dry_run (oid ∷ oids) k =
      if dry_run
      then (would_prune (oid ∷ oids), k)
      else end_deletion (oid ∷ oids) (delete_files (oid ∷ oids) (start_deletion k))

module _ (S : StringSet) where
  -- The local objects that are not retained.
  unfoldable pub prunable : S.Carrier → List Object → List Object
  prunable retained [] = []
  prunable retained (o ∷ os) =
      let rest = prunable retained os in if S.contains retained o.oid then rest else o ∷ rest

  -- `pruneCheckVerified`: the objects that it refuses to prune.
  unfoldable pub check_verified : S.Carrier → S.Carrier → List Bytes → List Bytes
  check_verified reachable verified [] = []
  check_verified reachable verified (oid ∷ oids) =
      let rest = check_verified reachable verified oids in
      if not (S.contains verified oid) && S.contains reachable oid then oid ∷ rest else rest

-- `check_remote` are the oids that the queue finds on the remote of that name.
module _ (F : FileSystem) (S : StringSet) (repo : Repository)
    (check_remote : Bytes → List Object → List Bytes) where
  -- From the list of what can be pruned on.
  unfoldable pub verify_and_delete :
      FetchPruneConfig → Bool → Bool → List Bytes → List Object → F.Disk → Outcome × F.Disk
  unfolding finish check_verified add_all
  verify_and_delete c verify dry_run reachable objects k =
      let oids = map (λ o. o.oid) objects in
      let problems =
        check_verified S (add_all S reachable S.empty)
          (add_all S (check_remote c.prune_remote_name objects) S.empty) oids in
      if verify
      then elim problems [ [] ↦ finish F dry_run oids k | p ∷ ps ↦ (missing_on_remote (p ∷ ps), k) ]
      else finish F dry_run oids k

  -- `prune`, with the errors of the tasks in the order of the tasks.
  unfoldable pub prune : FetchPruneConfig → Bool → Bool → List Bytes → F.Disk → Outcome × F.Disk
  unfolding verify_and_delete tasks reachable_objects prunable add_all
  prune c verify dry_run retained k =
      let reachable = if verify then reachable_objects S repo else nothing in
      let found = tasks S repo c & reachable in
      elim found.panicked [
        | some e ↦ (panicked e, k)
        | none ↦ elim found.errors [
          | e ∷ es ↦ (tasks_failed (e ∷ es), k)
          | [] ↦
              verify_and_delete c verify dry_run reachable.retained
                (prunable S (add_all S retained S.empty) (scan_objects (F.walk k))) k
        ]
      ]

  -- `pruneCommand`, over its flags.
  unfoldable pub prune_command :
      FetchPruneConfig → Bool → Bool → Bool → List Bytes → F.Disk → Outcome × F.Disk
  unfolding prune
  prune_command c verify_flag no_verify_flag dry_run retained k =
      if verify_flag && no_verify_flag
      then (conflicting_flags, k)
      else prune c (not no_verify_flag && (c.prune_verify_remote_always || verify_flag)) dry_run
          retained k
