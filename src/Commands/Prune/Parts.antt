-- ===== src/Commands/Prune/Parts.antt =====
-- commands/command_prune.go: what can be pruned, and the parts of a prune as changes of the disk.
use expert_octo_doodle.Common.{
  Bytes, List, [], ◌∷◌, map, Bool, true, false, not, ◌&&◌, if◌then◌else◌, ◌≡◌, refl, ap, ◌∙◌, arith,
  Option-cases, List-cases, inl, inr, is_in, equal_iff,
}
use expert_octo_doodle.Commands.Prune.{
  FetchPruneConfig, Repository, Found, nothing, ◌&◌, reachable_objects, tasks,
}
use expert_octo_doodle.Commands.Prune.Deletes.{delete_files-keeps}
use expert_octo_doodle.Commands.Prune.Retained.{IsClean}
use expert_octo_doodle.Commands.Prune.Run.{
  Outcome, panicked, tasks_failed, missing_on_remote, start_deletion, end_deletion, delete_files,
  Deletion, finish, prunable, check_verified, verify_and_delete, prune,
}
use expert_octo_doodle.LocalStorage.{FileSystem, FilePath, Object, scan_objects}
use expert_octo_doodle.Tools.StringSet.{StringSet, add_all, contains-add_all}

-- The ends of a prune that come before the deletion.
abbrev pub is_refusal : Outcome → Bool
is_refusal (panicked e) = true
is_refusal (tasks_failed es) = true
is_refusal (missing_on_remote oids) = true
is_refusal _ = false

abbrev pub oids_of : List Object → List Bytes
oids_of os = map (λ o. o.oid) os

module _ (S : StringSet) where
  pub is_in-prunable :
      (retained : S.Carrier) (os : List Object) (oid : Bytes)
      → is_in (oids_of (prunable S retained os)) oid
        ≡ (is_in (oids_of os) oid && not (S.contains retained oid))
  unfolding prunable
  is_in-prunable retained [] oid = refl
  is_in-prunable retained (o ∷ os) oid =
      ground (arith, equal_iff o.oid oid, is_in-prunable retained os oid)

  -- An object that stands on the list of problems is reachable and not verified.
  check_verified-is_in :
      (reachable verified : S.Carrier) (oids : List Bytes) (oid : Bytes)
      → is_in (check_verified S reachable verified oids) oid
        ≡ (is_in oids oid && (not (S.contains verified oid) && S.contains reachable oid))
  unfolding check_verified
  check_verified-is_in reachable verified [] oid = refl
  check_verified-is_in reachable verified (o ∷ oids) oid =
      ground (arith, equal_iff o oid, check_verified-is_in reachable verified oids oid)

  pub add_all_empty :
      (is : List Bytes) (j : Bytes) → S.contains (add_all S is S.empty) j ≡ is_in is j
  add_all_empty is j = rw (contains-add_all S is S.empty j, S.contains-empty j) (ground arith)

module _ (F : FileSystem) where
  end_deletion-disk : (oids : List Bytes) (d : Deletion F) → (end_deletion F oids d).1 ≡ d.disk
  unfolding end_deletion
  end_deletion-disk oids d = ground arith

  pub finish-keeps :
      (dry_run : Bool) (oids : List Bytes) (q : FilePath) (k : F.Disk)
      → is_in oids q.name ≡ false
      → F.is_there q (finish F dry_run oids k).1 ≡ F.is_there q k
  unfolding finish start_deletion
  finish-keeps dry_run [] q k out = refl
  finish-keeps true (oid ∷ oids) q k out = refl
  finish-keeps false (oid ∷ oids) q k out =
      ap (F.is_there q)
        (end_deletion-disk (oid ∷ oids) (delete_files F (oid ∷ oids) (start_deletion F k)))
      ∙ delete_files-keeps F (oid ∷ oids) q (start_deletion F k) out

  pub finish_dry : (oids : List Bytes) (k : F.Disk) → (finish F true oids k).1 ≡ k
  unfolding finish
  finish_dry [] k = refl
  finish_dry (oid ∷ oids) k = refl

module _ (F : FileSystem) (S : StringSet) (repo : Repository)
    (check_remote : Bytes → List Object → List Bytes) where
  -- The objects that `pruneCheckVerified` finds.
  abbrev pub problems : FetchPruneConfig → List Bytes → List Object → List Bytes
  problems c reachable os =
      check_verified S (add_all S reachable S.empty)
        (add_all S (check_remote c.prune_remote_name os) S.empty) (oids_of os)

  pub is_in-problems :
      (c : FetchPruneConfig) (reachable : List Bytes) (os : List Object) (oid : Bytes)
      → is_in (problems c reachable os) oid ≡ (
          is_in (oids_of os) oid
          && (not (is_in (check_remote c.prune_remote_name os) oid) && is_in reachable oid))
  is_in-problems c reachable os oid = rw (
    check_verified-is_in S (add_all S reachable S.empty)
        (add_all S (check_remote c.prune_remote_name os) S.empty) (oids_of os) oid,
    add_all_empty S reachable oid,
    add_all_empty S (check_remote c.prune_remote_name os) oid,
  )

  -- The local objects that a prune takes for prunable.
  abbrev pub candidates : List Bytes → F.Disk → List Object
  candidates retained k = prunable S (add_all S retained S.empty) (scan_objects (F.walk k))

  pub is_in-candidates :
      (retained : List Bytes) (k : F.Disk) (oid : Bytes)
      → is_in (oids_of (candidates retained k)) oid
        ≡ (is_in (oids_of (scan_objects (F.walk k))) oid && not (is_in retained oid))
  is_in-candidates retained k oid = rw (
    is_in-prunable S (add_all S retained S.empty) (scan_objects (F.walk k)) oid,
    add_all_empty S retained oid,
  )

  abbrev pub reachable_if : Bool → Found
  reachable_if verify = if verify then reachable_objects S repo else nothing

  -- What holds of the ends without a deletion, and of `finish`.
  verify_and_delete-run :
      (P : Outcome × F.Disk → Type 0)
      → (c : FetchPruneConfig) (verify dry_run : Bool) (reachable : List Bytes) (os : List Object)
        (k : F.Disk)
      → ((o : Outcome) → is_refusal o ≡ true → P (o, k))
      → ((verify ≡ true → problems c reachable os ≡ []) → P (finish F dry_run (oids_of os) k))
      → P (verify_and_delete F S repo check_remote c verify dry_run reachable os k)
  unfolding verify_and_delete
  verify_and_delete-run P c false dry_run reachable os k before after = after (λ on. cc)
  verify_and_delete-run P c true dry_run reachable os k before after =
      elim (List-cases (problems c reachable os)) [
        | inl fine ↦ rw (fine, verify_and_delete) (after (λ on. fine))
        | inr (p, ps, bad) ↦ rw (bad, verify_and_delete) (before (missing_on_remote (p ∷ ps)) refl)
      ]

  pub prune-run :
      (P : Outcome × F.Disk → Type 0)
      → (c : FetchPruneConfig) (verify dry_run : Bool) (retained : List Bytes) (k : F.Disk)
      → ((o : Outcome) → is_refusal o ≡ true → P (o, k))
      → (IsClean (tasks S repo c & reachable_if verify)
          → (verify ≡ true → problems c (reachable_if verify).retained (candidates retained k) ≡ [])
          → P (finish F dry_run (oids_of (candidates retained k)) k))
      → P (prune F S repo check_remote c verify dry_run retained k)
  unfolding prune
  prune-run P c verify dry_run retained k before after =
      let found = tasks S repo c & reachable_if verify in
      elim (Option-cases found.panicked) [
        | inr (e, failed) ↦ rw (failed, prune) (before (panicked e) refl)
        | inl calm ↦ elim (List-cases found.errors) [
          | inr (e, es, failed) ↦ rw (calm, failed, prune) (before (tasks_failed (e ∷ es)) refl)
          | inl fine ↦
              rw (calm, fine, prune)
                (verify_and_delete-run P c verify dry_run (reachable_if verify).retained
                  (candidates retained k) k before (after (fine, calm)))
        ]
      ]
