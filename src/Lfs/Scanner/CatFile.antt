-- ===== src/Lfs/Scanner/CatFile.antt =====
-- lfs/gitscanner_catfilebatch.go: the output of `git cat-file --batch`, read into pointers. `ending` is the
-- error of the reader behind the last byte, where none is `io.EOF`.
pub mod Objects
pub mod Total
use expert_octo_doodle.Common.{
  ℕ, zero, suc, ◌+◌, List, [], ◌∷◌, ◌++◌, Option, none, some, Bool, true, false, ◌||◌,
  if◌then◌else◌, leb, ◌==◌, Bytes, codes, split_once, is_space, take, drop, length, ℤ, pos, negsuc,
  parse_int, parse_uint,
}
use expert_octo_doodle.Errors.{Fault, plain, formatted, wrap}
use expert_octo_doodle.Lfs.Pointer.{Pointer}
use expert_octo_doodle.Lfs.Pointer.Decode.{Decoded, ok, err, panic, decode_pointer}
use expert_octo_doodle.Lfs.Scanner.{WrappedPointer}

abbrev pub emit : Bytes → List Bytes → List Bytes
emit [] rest = rest
emit (c ∷ word) rest = (c ∷ word) ∷ rest

-- `bytes.Fields`, with the bytes of the word read so far.
unfoldable pub fields_from : Bytes → Bytes → List Bytes
fields_from word [] = emit word []
fields_from word (c ∷ s) = elim (is_space c) [
  | true ↦ emit word (fields_from [] s)
  | false ↦ fields_from (word ++ c ∷ []) s
]

unfoldable pub fields : Bytes → List Bytes
unfolding fields_from
fields s = fields_from [] s

abbrev pub unsigned : Bytes → Bytes
unsigned [] = []
unsigned (c ∷ s) = if c == b'-' || c == b'+' then s else c ∷ s

-- `size, _ := strconv.Atoi(s)` and `make([]byte, size)`: a text that is no number counts as 0, and a number
-- below 0 or out of range makes `make` panic, which is `none`.
unfoldable pub buffer_size : Bytes → Option ℕ
buffer_size s = elim (parse_int 10 s) [
  | some (pos n) ↦ some n
  | some (negsuc n) ↦ none
  | none ↦ elim (parse_uint 10 (unsigned s)) [ none ↦ some 0 | some n ↦ none ]
]

-- What a call of `scanPointer` gives: a pointer and the bytes behind it, or its error, where none is
-- `io.EOF`. `stuck` is no end of the code: the loop ran out of fuel.
pub data Found : Type 0 where
  found : WrappedPointer → Bytes → Found
  ended : Option Fault → Found
  panicked : Found
  stuck : Found

-- What a round makes of an object: a pointer ends the loop.
abbrev pub after : (Bytes → Found) → Bytes → Decoded WrappedPointer → Found
after next rest (ok p) = found p rest
after next rest (err e) = next rest
after next rest panic = panicked

-- The pointer of a content, with the name of its object.
abbrev pub wrapped : Bytes → Pointer → WrappedPointer
wrapped sha1 p = record {
  sha1 = sha1;
  name = [];
  src_name = [];
  size = p.size;
  status = [];
  pointer = p;
}

abbrev pub wrap_pointer : Bytes → Bytes → Decoded WrappedPointer
wrap_pointer sha1 content = elim (decode_pointer content) [
  | ok p ↦ ok (wrapped sha1 p)
  | err e ↦ err e
  | panic ↦ panic
]

module _ (ending : Option Fault) where
  -- The error of `io.ReadFull`, of which `io.EOF` tells that nothing was read.
  abbrev pub short_read : Bytes → Option Fault
  short_read [] = ending
  short_read (c ∷ s) = elim ending [
    | none ↦ some (plain (codes "unexpected EOF"))
    | some e ↦ some e
  ]

  -- The newline behind the object, and the end of the round: the pointer is given only behind it.
  unfoldable pub end_round : (Bytes → Found) → Bytes → Decoded WrappedPointer → Found
  end_round next s p = elim (split_once b'\n' s) [
    | none ↦ ended ending
    | some cut ↦ after next cut.1 p
  ]

  -- The content of an object. A buffer of any size is given, where Go panics on one that is too large.
  unfoldable pub read_object : (Bytes → Found) → Bytes → Bytes → Bytes → Found
  unfolding end_round buffer_size
  read_object next sha1 size s = elim (buffer_size size) [
    | none ↦ panicked
    | some n ↦
        if leb n (length s)
        then end_round next (drop n s) (wrap_pointer sha1 (take n s))
        else ended (short_read s)
  ]

  -- The round behind the fields of the line.
  unfoldable pub read_fields : (Bytes → Found) → List Bytes → Bytes → Bytes → Found
  unfolding read_object
  read_fields next (sha1 ∷ kind ∷ size ∷ more) line s = read_object next sha1 size s
  read_fields next _ line s = ended (
      some (
        wrap (some (formatted (codes "Invalid: %q") ((line ++ b'\n' ∷ []) ∷ [])))
          (codes "git cat-file --batch:")))

  -- `scanPointer`
  unfoldable pub scan_pointer : ℕ → Bytes → Found
  unfolding read_fields fields
  scan_pointer zero s = stuck
  scan_pointer (suc fuel) s = elim (split_once b'\n' s) [
    | none ↦ ended ending
    | some cut ↦ read_fields (scan_pointer fuel) (fields cut.0) cut.0 cut.1
  ]

  -- The pointers that were sent, and how the loop ended.
  pub record Batch : Type 0 where
    pub pointers : List WrappedPointer
    pub outcome : Found

  -- One round of the loop of `catFileBatchOutput`.
  abbrev pub next_batch : (Bytes → Batch) → Found → Batch
  next_batch next (found p rest) =
      let b = next rest in record { pointers = p ∷ b.pointers; outcome = b.outcome }
  next_batch next (ended e) = record { pointers = []; outcome = ended e }
  next_batch next panicked = record { pointers = []; outcome = panicked }
  next_batch next stuck = record { pointers = []; outcome = stuck }

  unfoldable pub batch_output : ℕ → Bytes → Batch
  unfolding scan_pointer
  batch_output zero s = record { pointers = []; outcome = stuck }
  batch_output (suc fuel) s = next_batch (batch_output fuel) (scan_pointer (length s + 1) s)

  -- `catFileBatchOutput`; a pointer takes two bytes at least.
  unfoldable pub cat_file_batch_output : Bytes → Batch
  unfolding batch_output
  cat_file_batch_output s = batch_output (length s + 1) s
