-- ===== src/Commands/Prune/Deletes.antt =====
-- commands/command_prune.go: what the deletion of objects leaves.
use expert_octo_doodle.Common.{
  Bytes, List, [], ◌∷◌, some, true, false, ◌≡◌, ◌≢◌, refl, sym, ap, ◌∙◌, arith, Option-cases,
  Bool-cases, inl, inr, All, equal, equal_iff, is_in,
}
use mathlib.Core.List.{concat-ne-nil}
use expert_octo_doodle.Commands.Prune.Run.{
  no_media_path, not_removed, Deletion, remove_file, delete_file, delete_files,
}
use expert_octo_doodle.LocalStorage.{FileSystem, FilePath, local_object_dir}
use expert_octo_doodle.LocalStorage.Scanned.{IsLong, has_place}

module _ (F : FileSystem) where
  abbrev At : List Bytes → Bytes → FilePath
  At dir oid = record { dir = dir; name = oid }

  remove_file-keeps :
      (p q : FilePath) (d : Deletion F)
      → p ≢ q
      → F.is_there q (remove_file F p d).disk ≡ F.is_there q d.disk
  unfolding remove_file
  remove_file-keeps p q d ne = elim (Option-cases (F.remove p d.disk).0) [
    | inl done ↦ rw (done, remove_file) (F.there-remove p q d.disk ne)
    | inr (e, failed) ↦ rw (failed, remove_file) (F.there-remove p q d.disk ne)
  ]

  delete_file-keeps :
      (dir : List Bytes) (oid : Bytes) (q : FilePath) (d : Deletion F)
      → equal oid q.name ≡ false
      → F.is_there q (delete_file F dir oid d).disk ≡ F.is_there q d.disk
  unfolding delete_file
  delete_file-keeps dir oid q d ne = elim (Option-cases (F.make_dirs dir d.disk).0) [
    | inl done ↦
        rw (done, delete_file)
          (remove_file-keeps (At dir oid) q (record d { disk = (F.make_dirs dir d.disk).1 })
              (λ same. ground (arith, equal_iff oid q.name, ap (λ p. p.name) same))
            ∙ F.there-make_dirs dir q d.disk)
    | inr (e, failed) ↦ rw (failed, delete_file) (F.there-make_dirs dir q d.disk)
  ]

  -- Files with other names stay.
  pub delete_files-keeps :
      (oids : List Bytes) (q : FilePath) (d : Deletion F)
      → is_in oids q.name ≡ false
      → F.is_there q (delete_files F oids d).disk ≡ F.is_there q d.disk
  unfolding delete_files
  delete_files-keeps [] q d out = refl
  delete_files-keeps (oid ∷ oids) q d out = elim (Option-cases (local_object_dir oid)) [
    | inl short ↦ rw (short, delete_files) refl
    | inr (dir, long) ↦
        rw (long, delete_files)
          (delete_files-keeps oids q (delete_file F dir oid d) (ground (arith, out))
            ∙ delete_file-keeps dir oid q d (ground (arith, out)))
  ]

  remove_file-crashed : (p : FilePath) (d : Deletion F) → (remove_file F p d).crashed ≡ d.crashed
  unfolding remove_file
  remove_file-crashed p d = ground arith

  delete_file-crashed :
      (dir : List Bytes) (oid : Bytes) (d : Deletion F)
      → (delete_file F dir oid d).crashed ≡ d.crashed
  unfolding delete_file
  delete_file-crashed dir oid d =
      ground
        (arith, remove_file-crashed (At dir oid) (record d { disk = (F.make_dirs dir d.disk).1 }))

  pub delete_files-crashed :
      (oids : List Bytes) (d : Deletion F)
      → All IsLong oids
      → (delete_files F oids d).crashed ≡ d.crashed
  unfolding delete_files
  delete_files-crashed [] d long = refl
  delete_files-crashed (oid ∷ oids) d (long, longs) =
      let (dir, placed) = has_place oid long in
      rw (placed, delete_files)
        (delete_files-crashed oids (delete_file F dir oid d) longs ∙ delete_file-crashed dir oid d)

  -- Without a problem the file is gone, and there was no problem before.
  remove_file-gone :
      (p : FilePath) (d : Deletion F)
      → (remove_file F p d).problems ≡ []
      → (d.problems ≡ []) × (F.is_there p (remove_file F p d).disk ≡ false)
  unfolding remove_file
  remove_file-gone p d none_wrong = elim (Option-cases (F.remove p d.disk).0) [
    | inl done ↦
        (rw (done, remove_file) at none_wrong, rw (done, remove_file) (F.gone-remove p d.disk done))
    | inr (e, failed) ↦
        absurd (concat-ne-nil (not_removed p e) d.problems (rw (failed, remove_file) at none_wrong))
  ]

  delete_file-gone :
      (dir : List Bytes) (oid : Bytes) (d : Deletion F)
      → (delete_file F dir oid d).problems ≡ []
      → (d.problems ≡ []) × (F.is_there (At dir oid) (delete_file F dir oid d).disk ≡ false)
  unfolding delete_file
  delete_file-gone dir oid d none_wrong = elim (Option-cases (F.make_dirs dir d.disk).0) [
    | inl done ↦
        let gone =
          remove_file-gone (At dir oid) (record d { disk = (F.make_dirs dir d.disk).1 })
            (rw (done, delete_file) at none_wrong) in
        (gone.0, rw (done, delete_file) gone.1)
    | inr (e, failed) ↦
        absurd
          (concat-ne-nil (no_media_path oid e) d.problems (rw (failed, delete_file) at none_wrong))
  ]

  delete_files-problems :
      (oids : List Bytes) (d : Deletion F) → (delete_files F oids d).problems ≡ [] → d.problems ≡ []
  unfolding delete_files
  delete_files-problems [] d none_wrong = none_wrong
  delete_files-problems (oid ∷ oids) d none_wrong = elim (Option-cases (local_object_dir oid)) [
    | inl short ↦ rw (short, delete_files) at none_wrong
    | inr (dir, long) ↦
        (delete_file-gone dir oid d (
          delete_files-problems oids (delete_file F dir oid d)
            (rw (long, delete_files) at none_wrong))).0
  ]

  -- The place of an object that no round failed on is empty behind them all.
  pub delete_files-gone :
      (oids : List Bytes) (dir : List Bytes) (oid : Bytes) (d : Deletion F)
      → local_object_dir oid ≡ some dir
      → is_in oids oid ≡ true
      → (delete_files F oids d).problems ≡ []
      → (delete_files F oids d).crashed ≡ false
      → F.is_there (At dir oid) (delete_files F oids d).disk ≡ false
  unfolding delete_files
  delete_files-gone [] dir oid d placed out none_wrong safe = cc
  delete_files-gone (o ∷ oids) dir oid d placed found none_wrong safe =
      elim (Option-cases (local_object_dir o)) [
        | inl short ↦ cc (rw (short, delete_files) at safe)
        | inr (dir', long) ↦
            let d' = delete_file F dir' o d in
            let rest = rw (long, delete_files) at none_wrong in
            let safe' = rw (long, delete_files) at safe in
            elim (Bool-cases (is_in oids oid)) [
              | inl again ↦
                  rw (long, delete_files)
                    (delete_files-gone oids dir oid d' placed again rest safe')
              | inr last ↦
                  let same : o ≡ oid = ground (arith, equal_iff o oid) in
                  rw (long, delete_files)
                    (delete_files-keeps oids (At dir oid) d' last
                      ∙ last_gone dir dir' o oid d same placed long
                          (delete_files-problems oids d' rest))
            ]
      ]
    where
      last_gone :
          (dir dir' : List Bytes) (o oid : Bytes) (d : Deletion F)
          → o ≡ oid
          → local_object_dir oid ≡ some dir
          → local_object_dir o ≡ some dir'
          → (delete_file F dir' o d).problems ≡ []
          → F.is_there (At dir oid) (delete_file F dir' o d).disk ≡ false
      last_gone dir dir' o oid d same placed long none_wrong =
          let same_dir : dir ≡ dir' = cc in
          rw (same_dir, sym same) (delete_file-gone dir' o d none_wrong).1
