-- ===== src/Commands/Uploader.antt =====
-- commands/uploader.go: what is uploaded. The objects that exist locally, what the check of missing objects is told by the
-- server, what `NewUploadable` gives and the errors of the queue are parameters.
pub mod Counts
pub mod Uploaded
use expert_octo_doodle.Common.{
  ℕ, ◌+◌, ◌%◌, ◌^◌, Bytes, List, [], ◌∷◌, ◌++◌, Option, none, some, Bool, true, false, ◌||◌,
  if◌then◌else◌,
}
use expert_octo_doodle.Lfs.Scanner.{WrappedPointer}
use expert_octo_doodle.Commands.Fetch.{oid_of}
use expert_octo_doodle.Progress.{ProgressMeter, new_progress_meter, skip}
use expert_octo_doodle.Tools.StringSet.{StringSet, add_all}

-- The variables of the loop of `prepareUpload`; sizes are the 64 bits of an `int64`.
pub record Sorted : Type 0 where
  pub uploadables : List WrappedPointer
  pub missing : List WrappedPointer
  pub num_objects : ℕ
  pub total_size : ℕ
  pub missing_size : ℕ

-- The queue: its meter, and what was added to it.
pub record UploadQueue : Type 0 where
  pub meter : ProgressMeter
  pub added : List WrappedPointer

-- How an upload ends: with an error of an object, with those of the queue, or well.
pub data Ending : Type 0 where
  exited : Bytes → Ending
  failed : List Bytes → Ending
  uploaded : Ending

-- The end of `upload`, with the error of an object if there is one, and those of the queue.
abbrev pub end_of : Option Bytes → List Bytes → Ending
end_of (some e) errors = exited e
end_of none [] = uploaded
end_of none (e ∷ errors) = failed (e ∷ errors)

module _ (S : StringSet) (exists_of_size : Bytes → ℕ → Bool) where
  -- The loop over what was scanned, with `uniqOids`.
  unfoldable pub sort_pointers : S.Carrier → S.Carrier → List WrappedPointer → Sorted
  sort_pointers done uniq [] = record {
    uploadables = [];
    missing = [];
    num_objects = 0;
    total_size = 0;
    missing_size = 0;
  }
  sort_pointers done uniq (p ∷ ps) =
      let skipped = sort_pointers done uniq ps in
      let rest = sort_pointers done (S.add (oid_of p) uniq) ps in
      if S.contains uniq (oid_of p) || S.contains done (oid_of p)
      then skipped
      else if exists_of_size (oid_of p) p.size
      then record rest {
        uploadables = p ∷ rest.uploadables;
        num_objects = rest.num_objects + 1;
        total_size = (rest.total_size + p.size) % 2 ^ 64;
      }
      else record rest {
        missing = p ∷ rest.missing;
        num_objects = rest.num_objects + 1;
        total_size = (rest.total_size + p.size) % 2 ^ 64;
        missing_size = (rest.missing_size + p.size) % 2 ^ 64;
      }

  -- `checkMissing`, where the watcher of the check is told these oids.
  unfoldable pub check_missing :
      (List WrappedPointer → List Bytes) → List WrappedPointer → S.Carrier → S.Carrier
  unfolding add_all
  check_missing found [] done = done
  check_missing found (p ∷ missing) done = add_all S (found (p ∷ missing)) done

  -- The loop over the missing objects behind the check: the meter, and what is to be uploaded after all.
  unfoldable pub skip_or_add :
      S.Carrier → List WrappedPointer → ProgressMeter → ProgressMeter × List WrappedPointer
  unfolding skip
  skip_or_add done [] meter = (meter, [])
  skip_or_add done (p ∷ missing) meter =
      let has = S.contains done (oid_of p) in
      let rest = skip_or_add done missing (if has then skip p.size meter else meter) in
      (rest.0, if has then rest.1 else p ∷ rest.1)

  -- `prepareUpload`: the set of uploaded oids, the meter of the queue, and the pointers.
  unfoldable pub prepare_upload :
      (List WrappedPointer → List Bytes)
      → S.Carrier
      → List WrappedPointer
      → S.Carrier × ProgressMeter × List WrappedPointer
  unfolding sort_pointers check_missing skip_or_add
  prepare_upload found done unfiltered =
      let s = sort_pointers done S.empty unfiltered in
      let checked = check_missing found s.missing done in
      let rest = skip_or_add checked s.missing (new_progress_meter s.num_objects s.total_size) in
      (checked, rest.0, s.uploadables ++ rest.1)

  -- The loop over the pointers of `upload`, with the error of `NewUploadable` for each if there is one.
  unfoldable pub add_uploadables :
      (WrappedPointer → Option Bytes)
      → List WrappedPointer
      → S.Carrier
      → Option Bytes × S.Carrier × List WrappedPointer
  add_uploadables new_uploadable [] done = (none, done, [])
  add_uploadables new_uploadable (p ∷ ps) done =
      let rest = add_uploadables new_uploadable ps (S.add (oid_of p) done) in
      elim (new_uploadable p) [ some e ↦ (some e, done, []) | none ↦ (rest.0, rest.1, p ∷ rest.2) ]

  -- What a dry run prints, and the oids it has seen.
  unfoldable pub dry_run : List WrappedPointer → S.Carrier → List WrappedPointer × S.Carrier
  dry_run [] done = ([], done)
  dry_run (p ∷ ps) done =
      let rest = dry_run ps (S.add (oid_of p) done) in
      let skipped = dry_run ps done in
      if S.contains done (oid_of p) then skipped else (p ∷ rest.0, rest.1)

  -- `upload` without a dry run, where the queue has these errors.
  unfoldable pub upload :
      (List WrappedPointer → List Bytes)
      → (WrappedPointer → Option Bytes)
      → List Bytes
      → S.Carrier
      → List WrappedPointer
      → Ending × S.Carrier × UploadQueue
  unfolding prepare_upload add_uploadables
  upload found new_uploadable errors done unfiltered =
      let prepared = prepare_upload found done unfiltered in
      let r = add_uploadables new_uploadable prepared.2 prepared.0 in
      let queue : UploadQueue = record { meter = prepared.1; added = r.2 } in
      (end_of r.0 errors, r.1, queue)
