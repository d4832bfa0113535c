-- ===== src/Tests/Trees.antt =====
-- lfs/scanner.go: `parseLsTree` on a tree with a small blob and a large one.
use expert_octo_doodle.Common.{[], ◌∷◌, codes, equal, decimal, ◌≡◌, arith}
use expert_octo_doodle.Lfs.Scanner.Tree.{parse_ls_tree}
use expert_octo_doodle.Lfs.Scanner.Tree.Entries.{
  Entry, IsEntry, entries_text, parse_ls_tree-entries_text,
}

abbrev small_file : Entry
small_file = record {
  mode = codes "100644";
  kind = codes "blob";
  sha1 = codes "a1";
  padding = 4;
  size = 130;
  filename = codes "a dir/b.bin";
}

abbrev large_file : Entry
large_file = record {
  mode = codes "100644";
  kind = codes "blob";
  sha1 = codes "b2";
  padding = 0;
  size = 1024;
  filename = codes "c.bin";
}

small_file-IsEntry : IsEntry small_file
small_file-IsEntry = record {
  mode_ok = ground arith;
  kind_ok = ground arith;
  sha1_ok = ground arith;
  size_lt = ground arith;
  filename_ok = ground arith;
  fits = unfold decimal in omega arith;
}

large_file-IsEntry : IsEntry large_file
large_file-IsEntry = record {
  mode_ok = ground arith;
  kind_ok = ground arith;
  sha1_ok = ground arith;
  size_lt = ground arith;
  filename_ok = ground arith;
  fits = unfold decimal in omega arith;
}

parse_ls_tree-entries_text_example :
    parse_ls_tree (entries_text (small_file ∷ large_file ∷ []))
    ≡ record { sha1 = codes "a1"; filename = codes "a dir/b.bin" } ∷ []
unfolding equal
parse_ls_tree-entries_text_example =
    parse_ls_tree-entries_text (small_file ∷ large_file ∷ [])
      (small_file-IsEntry, (large_file-IsEntry, tt))
