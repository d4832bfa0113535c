-- ===== src/Tests/Blobs.antt =====
-- A scan of two objects: a tree, and a blob that is a pointer.
use expert_octo_doodle.Common.{Bytes, codes, List, [], ◌∷◌, map, none, ◌≡◌, ◌≢◌, arith}
use expert_octo_doodle.Lfs.Scanner.CatFile.{ended, stuck, cat_file_batch_output}
use expert_octo_doodle.Lfs.Scanner.CatFile.Objects.{
  IsObject, info_line, printed, pointers_of, cat_file_batch_output-printed,
}
use expert_octo_doodle.Lfs.Scanner.CatFile.Total.{cat_file_batch_output-ne-stuck}
use expert_octo_doodle.Lfs.Scanner.Lines.{unlines}
use expert_octo_doodle.Lfs.Scanner.Refs.Names.{rev_line}
use expert_octo_doodle.Lfs.Scanner.Refs.Pipeline.{blob, tree, Stored, to_git, small_blobs}

abbrev text : Bytes
text =
    codes
      "version https://git-lfs.github.com/spec/v1\noid sha256:4d7a214614ab2935c943f9e0ff69d22eadbb8f32b1258daaa5e2ca24d17e2393\nsize 12\n"

abbrev root : Stored
root = record {
  sha1 = codes "aaaaaaaaaaaaaaaaaaaaaaaaaaaaaaaaaaaaaaaa";
  type = tree;
  content = codes "x";
  path = [];
}

abbrev file : Stored
file = record {
  sha1 = codes "bbbbbbbbbbbbbbbbbbbbbbbbbbbbbbbbbbbbbbbb";
  type = blob;
  content = text;
  path = codes "a b.bin";
}

abbrev objects : List Stored
objects = root ∷ file ∷ []

root-IsObject : IsObject (to_git root)
root-IsObject = record {
  sha1_ok = (omega arith, λ h. cc);
  kind_ok = (omega arith, λ h. cc);
  size_lt = omega arith;
}

file-IsObject : IsObject (to_git file)
file-IsObject = record {
  sha1_ok = (omega arith, λ h. cc);
  kind_ok = (omega arith, λ h. cc);
  size_lt = omega arith;
}

cat_file_batch_output-printed_example :
    cat_file_batch_output none (printed (to_git root ∷ to_git file ∷ []))
    ≡ record { pointers = pointers_of (to_git root ∷ to_git file ∷ []); outcome = ended none }
cat_file_batch_output-printed_example =
    cat_file_batch_output-printed none (to_git root ∷ to_git file ∷ [])
      (root-IsObject, (file-IsObject, tt))

cat_file_batch_output-ne-stuck_example :
    (cat_file_batch_output none (codes "a missing\n")).outcome ≢ stuck
cat_file_batch_output-ne-stuck_example = cat_file_batch_output-ne-stuck none (codes "a missing\n")

abbrev listed : Bytes
listed = unlines (map rev_line objects)

abbrev checked : List Bytes → Bytes
checked shas = unlines (map (λ o. info_line (to_git o)) objects)

abbrev shown : List Bytes → Bytes
shown shas = printed (map to_git (small_blobs objects))
