-- ===== src/Lfs/Scanner/Log.antt =====
-- lfs/scanner.go: `parseLogOutputToPointers`, with its regular expressions as functions. The filter by
-- file names is a parameter; the channel of results is a list.
pub mod Headers
pub mod Shown
pub mod Rounds
pub mod RoundTrip
use expert_octo_doodle.Common.{
  ℕ, zero, suc, List, [], ◌∷◌, ◌++◌, Option, none, some, Bool, true, false, ◌&&◌, ◌||◌,
  if◌then◌else◌, leb, ◌==◌, Bytes, codes, has_prefix, length, drop,
}
use expert_octo_doodle.Lfs.Pointer.Decode.{Decoded, ok, err, panic, ◌>>=◌, decode_pointer}
use expert_octo_doodle.Lfs.Scanner.{WrappedPointer, scanned_lines}

-- `LogDiffAdditions` and `LogDiffDeletions`: the sign of the lines that are read.
pub data LogDiffDirection : Type 0 where
  additions : LogDiffDirection
  deletions : LogDiffDirection

abbrev pub sign_of : LogDiffDirection → ℕ
sign_of additions = b'+'
sign_of deletions = b'-'

-- The name that a header gives to the file: the new one for additions.
abbrev pub side : LogDiffDirection → Bytes × Bytes → Bytes
side additions names = names.1
side deletions names = names.0

-- `[A-Fa-f0-9]{n}` at the start of a text.
abbrev pub is_hex : ℕ → Bool
is_hex c = (leb b'0' c && leb c b'9') || (leb b'a' c && leb c b'f') || (leb b'A' c && leb c b'F')

unfoldable pub begins_hex : ℕ → Bytes → Bool
begins_hex zero s = true
begins_hex (suc n) [] = false
begins_hex (suc n) (c ∷ s) = is_hex c && begins_hex n s

-- `commitHeaderRegex`, of which only the match is used.
unfoldable pub commit_header : Bytes → Bool
unfolding begins_hex has_prefix
commit_header line = has_prefix line (codes "lfs-commit-sha: ") && begins_hex 40 (drop 16 line)

-- `\s`
abbrev pub is_blank : ℕ → Bool
is_blank c = c == b' ' || c == 9 || c == 10 || c == 12 || c == 13

-- What `.+` takes: the rest of the line, which is not empty.
abbrev pub some_text : Bytes → Option Bytes
some_text [] = none
some_text (c ∷ s) = some (c ∷ s)

-- `\s+b\/(.+)`; white space cannot begin what follows it.
unfoldable pub second_name : Bool → Bytes → Option Bytes
unfolding has_prefix
second_name seen [] = none
second_name seen (c ∷ s) =
    if is_blank c
    then second_name true s
    else if seen && has_prefix (c ∷ s) (codes "b/")
    then some_text (drop 2 (c ∷ s))
    else none

-- `(.+?)\s+b\/(.+)`: the shortest first name.
unfoldable pub name_pair : Bytes → Option (Bytes × Bytes)
unfolding second_name
name_pair [] = none
name_pair (c ∷ s) = elim (second_name false s) [
  | some b ↦ some (c ∷ [], b)
  | none ↦ elim (name_pair s) [ none ↦ none | some p ↦ some (c ∷ p.0, p.1) ]
]

-- `fileHeaderRegex`, at its first match in the line.
unfoldable pub file_header : Bytes → Option (Bytes × Bytes)
unfolding name_pair has_prefix
file_header [] = none
file_header (c ∷ s) =
    elim (if has_prefix (c ∷ s) (codes "diff --git a/")
      then name_pair (drop 13 (c ∷ s))
      else none) [ some names ↦ some names | none ↦ file_header s ]

-- `fileMergeHeaderRegex`
unfoldable pub merge_header : Bytes → Option Bytes
unfolding has_prefix
merge_header [] = none
merge_header (c ∷ s) =
    elim (if has_prefix (c ∷ s) (codes "diff --cc ") then some_text (drop 10 (c ∷ s)) else none) [
      | some name ↦ some name
      | none ↦ merge_header s
    ]

abbrev pub is_pointer_key : Bytes → Bool
is_pointer_key s =
    has_prefix s (codes "version https://git-lfs")
    || has_prefix s (codes "oid sha256")
    || has_prefix s (codes "size")
    || has_prefix s (codes "ext-")

-- `pointerDataRegex`: the sign of the line, and the line behind it.
unfoldable pub pointer_data : Bytes → Option (ℕ × Bytes)
unfolding has_prefix
pointer_data [] = none
pointer_data (c ∷ s) =
    if (c == b'+' || c == b'-' || c == b' ') && is_pointer_key s then some (c, s) else none

-- The variables of the function, and what it has sent.
pub record LogState : Type 0 where
  pub pointer_text : Bytes
  pub current_filename : Bytes
  pub current_file_included : Bool
  pub results : List WrappedPointer

abbrev pub start_log : LogState
start_log = record {
  pointer_text = [];
  current_filename = [];
  current_file_included = true;
  results = [];
}

-- What `finishLastPointer` makes of the parsed pointer.
unfoldable pub send_pointer : LogState → Decoded LogState
send_pointer s = elim (decode_pointer s.pointer_text) [
  | ok p ↦ ok (record s {
    pointer_text = [];
    results =
        s.results
        ++ record {
          sha1 = [];
          name = s.current_filename;
          src_name = [];
          size = p.size;
          status = [];
          pointer = p;
        }
          ∷ [];
  })
  | err e ↦ ok (record s { pointer_text = [] })
  | panic ↦ panic
]

-- `finishLastPointer`
unfoldable pub finish_last_pointer : LogState → Decoded LogState
unfolding send_pointer
finish_last_pointer s = elim s.pointer_text [
  | [] ↦ ok s
  | c ∷ text ↦
      if s.current_file_included then send_pointer s else ok (record s { pointer_text = [] })
]

-- The branch for a line of a pointer.
unfoldable pub add_pointer_data : LogDiffDirection → Bytes → LogState → LogState
unfolding pointer_data
add_pointer_data dir line s = elim (pointer_data line) [
  | none ↦ s
  | some (sign, text) ↦
      if sign == sign_of dir || sign == b' '
      then record s { pointer_text = s.pointer_text ++ (text ++ b'\n' ∷ []) }
      else s
]

module _ (allows : Bytes → Bool) (dir : LogDiffDirection) where
  -- A header of a file ends the last pointer and starts a file.
  unfoldable pub start_file : Bytes → LogState → Decoded LogState
  unfolding finish_last_pointer
  start_file name s = do
    t ← finish_last_pointer s
    ok (record t { current_filename = name; current_file_included = allows name })

  -- One round of the loop.
  unfoldable pub log_line : Bytes → LogState → Decoded LogState
  unfolding start_file add_pointer_data commit_header file_header merge_header
  log_line line s = if commit_header line then finish_last_pointer s else elim (file_header line) [
    | some names ↦ start_file (side dir names) s
    | none ↦ elim (merge_header line) [
      | some name ↦ start_file name s
      | none ↦ ok (if s.current_file_included then add_pointer_data dir line s else s)
    ]
  ]

  unfoldable pub log_lines : List Bytes → LogState → Decoded LogState
  unfolding log_line
  log_lines [] s = ok s
  log_lines (l ∷ ls) s = do t ← log_line l s; log_lines ls t

  -- `parseLogOutputToPointers`
  unfoldable pub parse_log_output_to_pointers : Bytes → Decoded (List WrappedPointer)
  unfolding log_lines finish_last_pointer scanned_lines
  parse_log_output_to_pointers log = do
    s ← log_lines (scanned_lines log) start_log
    t ← finish_last_pointer s
    ok t.results
