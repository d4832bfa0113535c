-- ===== src/Lfs/Scanner.antt =====
-- lfs/scanner.go: how the output of git is cut into lines and read. Starting the commands is left out.
pub mod Log
pub mod CatFile
pub mod Tree
pub mod Refs
pub mod Lines
use expert_octo_doodle.Common.{
  ℕ, List, [], ◌∷◌, ◌++◌, Bool, true, false, if◌then◌else◌, ltb, ◌==◌, Bytes, drop_cr, length,
}
use expert_octo_doodle.Lfs.Pointer.{Pointer}

pub record WrappedPointer : Type 0 where
  pub sha1 : Bytes
  pub name : Bytes
  pub src_name : Bytes
  pub size : ℕ
  pub status : Bytes
  pub pointer : Pointer

-- `bufio.MaxScanTokenSize`
abbrev pub max_scan_token_size : ℕ
max_scan_token_size = 65536

-- The text up to each byte that ends a line, with the bytes of the line read so far; what follows the last of them is
-- a line unless it is empty.
unfoldable pub raw_lines_from : ℕ → Bytes → Bytes → List Bytes
raw_lines_from end line [] = elim line [ [] ↦ [] | c ∷ s ↦ (c ∷ s) ∷ [] ]
raw_lines_from end line (c ∷ s) = elim (c == end) [
  | true ↦ line ∷ raw_lines_from end [] s
  | false ↦ raw_lines_from end (line ++ c ∷ []) s
]

-- A `bufio.Scanner` stops at a line that does not fit its buffer; of the others, the tokens.
unfoldable pub within_limit : (Bytes → Bytes) → List Bytes → List Bytes
within_limit clean [] = []
within_limit clean (l ∷ ls) =
    let rest = within_limit clean ls in
    if ltb (length l) max_scan_token_size then clean l ∷ rest else []

-- The tokens of `bufio.NewScanner`.
unfoldable pub scanned_lines : Bytes → List Bytes
unfolding raw_lines_from within_limit drop_cr
scanned_lines s = within_limit drop_cr (raw_lines_from b'\n' [] s)

-- The tokens of a scanner that is split by `scanNullLines`.
unfoldable pub scanned_null_lines : Bytes → List Bytes
unfolding raw_lines_from within_limit
scanned_null_lines s = within_limit (λ l. l) (raw_lines_from 0 [] s)
