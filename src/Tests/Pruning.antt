-- ===== src/Tests/Pruning.antt =====
-- A prune of three local objects: one at HEAD, one that only the reflog knows, one that is reachable.
use expert_octo_doodle.Common.{
  ℕ, Bytes, codes, equal, List, [], ◌∷◌, none, some, Bool, true, false, ◌≡◌, refl, ap, arith, is_in,
  inr, ℤ, pos,
}
use expert_octo_doodle.Commands.Prune.{
  FetchPruneConfig, scanned, Repository, of_scan, new_commits, retained_at_refs, recent_refs,
  recent_commits, current_and_recent_refs, unpushed, worktree, tasks, reachable_objects,
}
use expert_octo_doodle.Commands.Prune.Complete.{prune-gone}
use expert_octo_doodle.Commands.Prune.Parts.{oids_of}
use expert_octo_doodle.Commands.Prune.Retained.{Needed, at_tip, head}
use expert_octo_doodle.Commands.Prune.Run.{
  Outcome, pruned, missing_on_remote, prunable, finish, delete_files, delete_file, remove_file,
  start_deletion, end_deletion, check_verified, verify_and_delete, prune, prune_command,
}
use expert_octo_doodle.Commands.Prune.Safe.{prune_command-Needed, prune-verified}
use expert_octo_doodle.Lfs.Pointer.Decode.{begins_alnum}
use expert_octo_doodle.LocalStorage.{
  StoredFile, Object, slice, local_object_dir, matches_oid, scan_objects,
}
use expert_octo_doodle.Tests.Storage.{list_set, list_disk}
use expert_octo_doodle.Tools.StringSet.{add_all}

abbrev oid_of : ℕ → Bytes
oid_of c = c ∷ c ∷ codes "00000000000000000000000000000000000000000000000000000000000000"

abbrev stored : ℕ → StoredFile
stored c = record {
  path = record { dir = (c ∷ c ∷ []) ∷ codes "00" ∷ []; name = oid_of c };
  size = 5;
}

abbrev three : List StoredFile
three = stored b'a' ∷ stored b'b' ∷ stored b'c' ∷ []

abbrev small_repository : Repository
small_repository = record {
  Time = ℤ;
  now = pos 100;
  add_date = λ t days. t;
  current_ref = inr (codes "head");
  recent_branches = λ since remotes. inr [];
  commit_date = λ commit. inr (pos 90);
  all_work_tree_heads = inr [];
  scan_ref = λ ref. scanned (oid_of b'a' ∷ []) none;
  scan_previous_versions = λ ref since. scanned [] none;
  scan_unpushed = λ remote. scanned [] none;
  scan_all = scanned (oid_of b'c' ∷ []) none;
}

abbrev usual : FetchPruneConfig
usual = record {
  fetch_recent_refs_days = pos 7;
  fetch_recent_refs_include_remotes = true;
  fetch_recent_commits_days = pos 0;
  prune_offset_days = pos 3;
  prune_verify_remote_always = false;
  prune_remote_name = codes "origin";
}

abbrev empty_remote : Bytes → List Object → List Bytes
empty_remote remote objects = []

abbrev run : Bool → List Bytes → Outcome × List StoredFile
run verify arrived =
    prune list_disk list_set small_repository empty_remote usual verify false arrived three

two_pruned :
    run false (oid_of b'a' ∷ []) ≡ (pruned (oid_of b'b' ∷ oid_of b'c' ∷ []), stored b'a' ∷ [])
unfolding prune tasks current_and_recent_refs recent_refs recent_commits new_commits
    retained_at_refs of_scan unpushed worktree reachable_objects verify_and_delete check_verified
    finish delete_files delete_file remove_file start_deletion end_deletion prunable add_all
    scan_objects matches_oid begins_alnum local_object_dir slice equal
two_pruned = refl

-- The remote lacks an object that is reachable.
refused : run true (oid_of b'a' ∷ []) ≡ (missing_on_remote (oid_of b'c' ∷ []), three)
unfolding prune tasks current_and_recent_refs recent_refs recent_commits new_commits
    retained_at_refs of_scan unpushed worktree reachable_objects verify_and_delete check_verified
    finish delete_files delete_file remove_file start_deletion end_deletion prunable add_all
    scan_objects matches_oid begins_alnum local_object_dir slice equal
refused = refl

head-Needed : Needed small_repository usual (oid_of b'a')
unfolding equal
head-Needed = at_tip (codes "head") (head (codes "head") refl) refl

all_arrives :
    (oid : Bytes)
    → is_in (oid_of b'a' ∷ []) oid ≡ is_in (tasks list_set small_repository usual).retained oid
unfolding tasks current_and_recent_refs recent_refs recent_commits new_commits retained_at_refs
    of_scan unpushed worktree
all_arrives oid = refl

prune_command-Needed_example :
    list_disk.is_there
      (stored b'a').path
      (prune_command list_disk list_set small_repository empty_remote usual false false false
        (oid_of b'a' ∷ [])
        three).1
    ≡ list_disk.is_there (stored b'a').path three
prune_command-Needed_example =
    prune_command-Needed list_disk list_set small_repository empty_remote usual false false false
      (oid_of b'a' ∷ []) (stored b'a').path three all_arrives head-Needed

c_reachable : is_in (oid_of b'c' ∷ []) (oid_of b'c') ≡ true
unfolding equal
c_reachable = refl

prune-verified_example :
    list_disk.is_there (stored b'c').path (run true (oid_of b'a' ∷ [])).1
    ≡ list_disk.is_there (stored b'c').path three
prune-verified_example =
    prune-verified list_disk list_set small_repository empty_remote usual false (oid_of b'a' ∷ [])
      (stored b'c').path three c_reachable (λ os. refl)

two_pruned_outcome : (run false (oid_of b'a' ∷ [])).0 ≡ pruned (oid_of b'b' ∷ oid_of b'c' ∷ [])
two_pruned_outcome = ap (λ r. r.0) two_pruned

b_local : is_in (oids_of (scan_objects three)) (oid_of b'b') ≡ true
unfolding scan_objects matches_oid begins_alnum equal
b_local = refl

b_free : is_in (oid_of b'a' ∷ []) (oid_of b'b') ≡ false
unfolding equal
b_free = refl

b_placed : local_object_dir (oid_of b'b') ≡ some (stored b'b').path.dir
unfolding local_object_dir slice
b_placed = refl

prune-gone_example : list_disk.is_there (stored b'b').path (run false (oid_of b'a' ∷ [])).1 ≡ false
prune-gone_example =
    prune-gone list_disk list_set small_repository empty_remote usual false false (oid_of b'a' ∷ [])
      (oid_of b'b' ∷ oid_of b'c' ∷ []) three (stored b'b').path.dir (oid_of b'b') two_pruned_outcome
      b_local b_free b_placed

twice : (oid : Bytes) → is_in (oid_of b'a' ∷ oid_of b'a' ∷ []) oid ≡ is_in (oid_of b'a' ∷ []) oid
twice oid = ground arith
