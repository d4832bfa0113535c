-- ===== src/Commands/Prune/Complete.antt =====
-- commands/command_prune.go: what a prune that ends well has removed, and that it never panics on an oid.
use expert_octo_doodle.Common.{
  Bytes, List, [], ◌∷◌, some, Bool, true, false, ◌≡◌, ◌≢◌, ap, ◌∙◌, Bool-cases, List-cases, inl,
  inr, is_in, All,
}
use expert_octo_doodle.Commands.Prune.{FetchPruneConfig, Repository}
use expert_octo_doodle.Commands.Prune.Deletes.{delete_files-gone, delete_files-crashed}
use expert_octo_doodle.Commands.Prune.Parts.{oids_of, candidates, is_in-candidates, prune-run}
use expert_octo_doodle.Commands.Prune.Run.{
  out_of_range, pruned, Deletion, start_deletion, end_deletion, delete_files, finish, prunable,
  prune,
}
use expert_octo_doodle.LocalStorage.{FileSystem, Object, scan_objects, local_object_dir}
use expert_octo_doodle.LocalStorage.Scanned.{IsLong, scan_objects-IsLong}
use expert_octo_doodle.Tools.StringSet.{StringSet, add_all}

prunable-All :
    (S : StringSet) (P : Bytes → Type 0) (retained : S.Carrier) (os : List Object)
    → All (λ o. P o.oid) os
    → All P (oids_of (prunable S retained os))
unfolding prunable
prunable-All S P retained [] h = tt
prunable-All S P retained (o ∷ os) (ho, h) = elim (Bool-cases (S.contains retained o.oid)) [
  | inl kept ↦ rw (kept, prunable) (prunable-All S P retained os h)
  | inr free ↦ rw (free, prunable) (ho, prunable-All S P retained os h)
]

module _ (F : FileSystem) where
  end_deletion-pruned :
      (oids oids' : List Bytes) (d : Deletion F)
      → (end_deletion F oids d).0 ≡ pruned oids'
      → (d.crashed ≡ false) × (d.problems ≡ []) × ((end_deletion F oids d).1 ≡ d.disk)
  unfolding end_deletion
  end_deletion-pruned oids oids' d h = elim (Bool-cases d.crashed) [
    | inl bad ↦ cc (rw (bad, end_deletion) at h)
    | inr safe ↦ elim (List-cases d.problems) [
      | inl fine ↦ (safe, fine, rw (safe, fine, end_deletion))
      | inr (p, ps, bad) ↦ cc (rw (safe, bad, end_deletion) at h)
    ]
  ]

  finish-gone :
      (dry_run : Bool) (oids oids' : List Bytes) (k : F.Disk) (dir : List Bytes) (oid : Bytes)
      → local_object_dir oid ≡ some dir
      → is_in oids oid ≡ true
      → (finish F dry_run oids k).0 ≡ pruned oids'
      → F.is_there (record { dir = dir; name = oid }) (finish F dry_run oids k).1 ≡ false
  unfolding finish
  finish-gone dry_run [] oids' k dir oid placed member h = cc
  finish-gone true (o ∷ oids) oids' k dir oid placed member h = cc
  finish-gone false (o ∷ oids) oids' k dir oid placed member h =
      let d = delete_files F (o ∷ oids) (start_deletion F k) in
      let (safe, fine, disk) = end_deletion-pruned (o ∷ oids) oids' d h in
      ap (F.is_there (record { dir = dir; name = oid })) disk
      ∙ delete_files-gone F (o ∷ oids) dir oid (start_deletion F k) placed member fine safe

  finish-in_range :
      (dry_run : Bool) (oids : List Bytes) (k : F.Disk)
      → All IsLong oids
      → (finish F dry_run oids k).0 ≢ out_of_range
  unfolding finish end_deletion start_deletion
  finish-in_range dry_run [] k long h = cc
  finish-in_range true (o ∷ oids) k long h = cc
  finish-in_range false (o ∷ oids) k long h =
      let d = delete_files F (o ∷ oids) (start_deletion F k) in
      let safe : d.crashed ≡ false = delete_files-crashed F (o ∷ oids) (start_deletion F k) long in
      elim (List-cases d.problems) [
        | inl fine ↦ cc (rw (safe, fine, end_deletion) at h)
        | inr (p, ps, bad) ↦ cc (rw (safe, bad, end_deletion) at h)
      ]

module _ (F : FileSystem) (S : StringSet) (repo : Repository)
    (check_remote : Bytes → List Object → List Bytes) where
  -- Behind a prune that reports no problem, no local object is left in its place that was not retained.
  pub prune-gone :
      (c : FetchPruneConfig) (verify dry_run : Bool) (retained oids : List Bytes) (k : F.Disk)
      (dir : List Bytes) (oid : Bytes)
      → (prune F S repo check_remote c verify dry_run retained k).0 ≡ pruned oids
      → is_in (oids_of (scan_objects (F.walk k))) oid ≡ true
      → is_in retained oid ≡ false
      → local_object_dir oid ≡ some dir
      → F.is_there
          (record { dir = dir; name = oid })
          (prune F S repo check_remote c verify dry_run retained k).1
        ≡ false
  prune-gone c verify dry_run retained oids k dir oid ended local free placed =
      let os = candidates F S repo check_remote retained k in
      let member : is_in (oids_of os) oid ≡ true =
        rw (is_in-candidates F S repo check_remote retained k oid, local, free) in
      prune-run F S repo check_remote
        (λ r. r.0 ≡ pruned oids → F.is_there (record { dir = dir; name = oid }) r.1 ≡ false) c
        verify dry_run retained k (λ o refused same. cc (rw same at refused))
        (λ clean passed. finish-gone F dry_run (oids_of os) oids k dir oid placed member) ended

  -- A prune never cuts an oid out of its range.
  pub prune-in_range :
      (c : FetchPruneConfig) (verify dry_run : Bool) (retained : List Bytes) (k : F.Disk)
      → (prune F S repo check_remote c verify dry_run retained k).0 ≢ out_of_range
  prune-in_range c verify dry_run retained k =
      let os = candidates F S repo check_remote retained k in
      prune-run F S repo check_remote (λ r. r.0 ≢ out_of_range) c verify dry_run retained k
        (λ o refused same. cc (rw same at refused))
        (λ clean passed. finish-in_range F dry_run (oids_of os) k (
          prunable-All S IsLong (add_all S retained S.empty) (scan_objects (F.walk k))
            (scan_objects-IsLong (F.walk k))))
