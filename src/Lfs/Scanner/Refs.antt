-- ===== src/Lfs/Scanner/Refs.antt =====
-- lfs/scanner.go and lfs/gitscanner_catfilebatchcheck.go: the scan of refs, from the output of `git rev-list`
-- over that of `git cat-file --batch-check` and of `git cat-file --batch`. What git prints for the names
-- that it is sent is a parameter. git lists an object once, so that a pointer meets its name in the map.
pub mod Pipeline
pub mod Names
pub mod Whole
use expert_octo_doodle.Common.{
  ℕ, List, [], ◌∷◌, ◌++◌, Option, none, some, Bool, true, false, ◌&&◌, if◌then◌else◌, ltb, leb,
  Bytes, codes, equal, trim_space, take, drop, length, ℤ, pos, negsuc, parse_int, Map, lookup,
  insert,
}
use expert_octo_doodle.Errors.{Fault}
use expert_octo_doodle.Lfs.Pointer.Decode.{blob_size_cutoff}
use expert_octo_doodle.Lfs.Scanner.{WrappedPointer, scanned_lines}
use expert_octo_doodle.Lfs.Scanner.CatFile.{Found, Batch, cat_file_batch_output}

-- `size < blobSizeCutoff`, where the text is a number.
abbrev is_small : Option ℤ → Bool
is_small none = false
is_small (some (pos n)) = ltb n blob_size_cutoff
is_small (some (negsuc n)) = true

-- A line in `scanBlobOID`: the name of a small blob.
unfoldable pub blob_oid : Bytes → Option Bytes
blob_oid line =
    if leb 46 (length line)
      && (equal (take 4 (drop 41 line)) (codes "blob") && is_small (parse_int 10 (drop 46 line)))
    then some (take 40 line)
    else none

-- What `catFileBatchCheckOutput` sends.
unfoldable pub blob_oids : List Bytes → List Bytes
unfolding blob_oid
blob_oids [] = []
blob_oids (line ∷ lines) = elim (blob_oid line) [
  | some oid ↦ oid ∷ blob_oids lines
  | none ↦ blob_oids lines
]

unfoldable pub cat_file_batch_check_output : Bytes → List Bytes
unfolding blob_oids scanned_lines
cat_file_batch_check_output stdout = blob_oids (scanned_lines stdout)

-- What the loop of `revListShas` sends, and the names that it sets.
pub record Revs : Type 0 where
  pub shas : List Bytes
  pub names : Map Bytes

-- One round, over the line.
unfoldable pub rev_list_line : Bytes → Revs → Revs
rev_list_line text r =
    let line = trim_space text in
    if leb 40 (length line)
    then record {
      shas = r.shas ++ take 40 line ∷ [];
      names =
          if leb 41 (length line) then insert (take 40 line) (drop 41 line) r.names else r.names;
    }
    else r

unfoldable pub rev_list_lines : List Bytes → Revs → Revs
unfolding rev_list_line
rev_list_lines [] r = r
rev_list_lines (l ∷ ls) r = rev_list_lines ls (rev_list_line l r)

unfoldable pub rev_list_shas : Bytes → Revs
unfolding rev_list_lines scanned_lines
rev_list_shas stdout = rev_list_lines (scanned_lines stdout) (record { shas = []; names = [] })

-- The loop of `ScanRefsToChan`, which names the pointers.
unfoldable pub set_names : Map Bytes → List WrappedPointer → List WrappedPointer
set_names names [] = []
set_names names (p ∷ ps) = elim (lookup p.sha1 names) [
  | some name ↦ record p { name = name } ∷ set_names names ps
  | none ↦ p ∷ set_names names ps
]

-- `ScanRefsToChan` over the output of git: of rev-list, and of each cat-file for the names it is sent.
unfoldable pub scan_refs :
    Option Fault → Bytes → (List Bytes → Bytes) → (List Bytes → Bytes) → List WrappedPointer × Found
unfolding rev_list_shas cat_file_batch_check_output cat_file_batch_output set_names
scan_refs ending stdout check batch =
    let revs = rev_list_shas stdout in
    let b = cat_file_batch_output ending (batch (cat_file_batch_check_output (check revs.shas))) in
    (set_names revs.names b.pointers, b.outcome)
