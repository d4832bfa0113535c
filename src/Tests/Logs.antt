-- ===== src/Tests/Logs.antt =====
-- A git log of one commit that changes two files.
use expert_octo_doodle.Common.{
  ℕ, zero, suc, ◌≤◌, decimal, ◌++◌, Bytes, codes, [], ◌∷◌, none, some, Bool, true, ◌≡◌, refl, inl,
  inr, arith, All, has_prefix, equal, length, Lacks,
}
use expert_octo_doodle.Lfs.Pointer.{new_pointer, encoded, Pointer}
use expert_octo_doodle.Lfs.Pointer.Decode.{ok, begins_alnum, blob_size_cutoff}
use expert_octo_doodle.Lfs.Pointer.WellFormed.{IsPointer}
use expert_octo_doodle.Lfs.Scanner.{max_scan_token_size}
use expert_octo_doodle.Lfs.Scanner.Lines.{unlines, IsLine}
use expert_octo_doodle.Lfs.Scanner.Log.{
  additions, deletions, commit_header, file_header, merge_header, pointer_data, name_pair,
  begins_hex, second_name, parse_log_output_to_pointers,
}
use expert_octo_doodle.Lfs.Scanner.Log.RoundTrip.{parse-changes_lines, parse-long_line}
use expert_octo_doodle.Lfs.Scanner.Log.Shown.{Change, IsChange, changes_lines, sent}

abbrev commit_line : Bytes
commit_line = codes "lfs-commit-sha: 60fde3d23553e10a55e2a32ed18c20f65edd91e7"

is_commit : commit_header commit_line ≡ true
unfolding commit_header has_prefix begins_hex
is_commit = refl

merge_found : merge_header (codes "diff --cc a.bin") ≡ some (codes "a.bin")
unfolding merge_header has_prefix
merge_found = refl

-- A name with white space is cut where the second name begins.
spaced :
    file_header (codes "diff --git a/x y.bin b/x y.bin") ≡ some (codes "x y.bin", codes "x y.bin")
unfolding file_header name_pair second_name has_prefix
spaced = refl

-- A directory named `b` behind a space is taken for the second name.
misread : file_header (codes "diff --git a/x b/y b/x b/y") ≡ some (codes "x", codes "y b/x b/y")
unfolding file_header name_pair second_name has_prefix
misread = refl

-- A header with quoted names is not seen.
quoted_missed :
    file_header (codes "diff --git \"a/caf\\303\\251.bin\" \"b/caf\\303\\251.bin\"") ≡ none
unfolding file_header has_prefix
quoted_missed = refl

abbrev small_oid : Bytes
small_oid = codes "4d7a214614ab2935c943f9e0ff69d22eadbb8f32b1258daaa5e2ca24d17e2393"

abbrev small_pointer : Pointer
small_pointer = new_pointer small_oid 1289 []

small_pointer-IsPointer : IsPointer small_pointer
small_pointer-IsPointer = record {
  version_is = refl;
  oid_ok = (unfold begins_alnum in refl, omega arith);
  oid_type_is = refl;
  size_pos = omega arith;
  size_lt = omega arith;
  are_extensions = tt;
  increasing = tt;
}

small_fits : length (encoded small_pointer) ≤ blob_size_cutoff
small_fits = unfold encoded decimal in omega arith

abbrev first_change : Change
first_change = record {
  before = commit_line ∷ [] ∷ [];
  old_name = codes "1D_Noise.png";
  new_name = codes "1D_Noise.png";
  notes =
      codes "new file mode 100644"
      ∷ codes "index 0000000..2622b4a"
      ∷ codes "--- /dev/null"
      ∷ codes "+++ b/1D_Noise.png"
      ∷ codes "@@ -0,0 +1,3 @@"
      ∷ [];
  pointer = small_pointer;
}

abbrev second_change : Change
second_change = record first_change {
  before = [];
  old_name = codes "a.bin";
  new_name = codes "b.bin";
  notes = [];
}

first_change-IsChange : IsChange first_change
unfolding commit_header file_header merge_header pointer_data has_prefix begins_hex
first_change-IsChange = record {
  are_between = (inr refl, (inl (refl, refl, refl, refl), tt));
  old_dense = ground arith;
  old_some = λ h. cc;
  new_some = λ h. cc;
  are_notes = (
    (refl, refl, refl, refl),
    (
      (refl, refl, refl, refl),
      ((refl, refl, refl, refl), ((refl, refl, refl, refl), ((refl, refl, refl, refl), tt))),
    ),
  );
  pointer_ok = small_pointer-IsPointer;
  fits = small_fits;
}

second_change-IsChange : IsChange second_change
unfolding commit_header file_header merge_header pointer_data has_prefix begins_hex
second_change-IsChange = record {
  are_between = tt;
  old_dense = ground arith;
  old_some = λ h. cc;
  new_some = λ h. cc;
  are_notes = tt;
  pointer_ok = small_pointer-IsPointer;
  fits = small_fits;
}

abbrev only_bin : Bytes → Bool
only_bin name = equal name (codes "a.bin")

lines_fit : All IsLine (changes_lines deletions (first_change ∷ second_change ∷ []))
lines_fit = unfold decimal in omega arith

parse-changes_lines_example :
    parse_log_output_to_pointers only_bin deletions
      (unlines (changes_lines deletions (first_change ∷ second_change ∷ [])))
    ≡ ok (sent only_bin deletions (first_change ∷ second_change ∷ []))
parse-changes_lines_example =
    parse-changes_lines only_bin deletions (first_change ∷ second_change ∷ [])
      (first_change-IsChange, (second_change-IsChange, tt)) lines_fit

-- A line of `n` letters.
unfoldable long_line : ℕ → Bytes
long_line zero = []
long_line (suc n) = b'x' ∷ long_line n

length-long_line : (n : ℕ) → length (long_line n) ≡ n
unfolding long_line
length-long_line zero = refl
length-long_line (suc n) = omega (arith, length-long_line n)

long_line-Lacks : (n : ℕ) → Lacks b'\n' (long_line n)
unfolding long_line
long_line-Lacks zero = tt
long_line-Lacks (suc n) = (omega arith, long_line-Lacks n)

long_enough : max_scan_token_size ≤ length (long_line max_scan_token_size)
long_enough = omega (arith, length-long_line max_scan_token_size)

parse-long_line_example :
    parse_log_output_to_pointers
      (λ name. true)
      additions
      (unlines (commit_line ∷ []) ++ (long_line max_scan_token_size ++ codes "\n+oid sha256:4d7a"))
    ≡ parse_log_output_to_pointers (λ name. true) additions (unlines (commit_line ∷ []))
parse-long_line_example =
    parse-long_line (λ name. true) additions (commit_line ∷ []) (long_line max_scan_token_size)
      (codes "\n+oid sha256:4d7a") (omega arith) (long_line-Lacks max_scan_token_size) long_enough
