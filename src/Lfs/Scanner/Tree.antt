-- ===== src/Lfs/Scanner/Tree.antt =====
-- lfs/scanner.go: `parseLsTree`, over the output of `git ls-tree -r -l -z`.
pub mod Entries
use expert_octo_doodle.Common.{
  ℕ, List, [], ◌∷◌, Option, none, some, Bool, true, false, ◌&&◌, if◌then◌else◌, ltb, Bytes, codes,
  equal, split_once, trim_space, ℤ, pos, negsuc, parse_int,
}
use expert_octo_doodle.Lfs.Pointer.Decode.{blob_size_cutoff}
use expert_octo_doodle.Lfs.Scanner.{scanned_null_lines}

-- `TreeBlob`
pub record TreeBlob : Type 0 where
  pub sha1 : Bytes
  pub filename : Bytes

-- The attributes behind `strings.SplitN(parts[0], " ", 4)`.
abbrev pub blob_of : Bytes → Bytes → Bytes → Bytes → Option TreeBlob
blob_of kind sha1 size filename =
    let small : Bool = elim (parse_int 10 (trim_space size)) [
      | none ↦ false
      | some (pos n) ↦ ltb n blob_size_cutoff
      | some (negsuc n) ↦ true
    ] in
    if equal kind (codes "blob") && small
    then some (record { sha1 = sha1; filename = filename })
    else none

-- The line of an entry.
unfoldable pub tree_blob : Bytes → Option TreeBlob
tree_blob line = elim (split_once b'\t' line) [
  | none ↦ none
  | some parts ↦ elim (split_once b' ' parts.0) [
    | none ↦ none
    | some mode ↦ elim (split_once b' ' mode.1) [
      | none ↦ none
      | some kind ↦ elim (split_once b' ' kind.1) [
        | none ↦ none
        | some sha1 ↦ blob_of kind.0 sha1.0 sha1.1 parts.1
      ]
    ]
  ]
]

unfoldable pub tree_blobs : List Bytes → List TreeBlob
unfolding tree_blob
tree_blobs [] = []
tree_blobs (line ∷ lines) = elim (tree_blob line) [
  | some b ↦ b ∷ tree_blobs lines
  | none ↦ tree_blobs lines
]

-- What `parseLsTree` sends.
unfoldable pub parse_ls_tree : Bytes → List TreeBlob
unfolding tree_blobs scanned_null_lines
parse_ls_tree stdout = tree_blobs (scanned_null_lines stdout)
