-- ===== src/Lfs/Scanner/Log/Shown.antt =====
-- lfs/scanner.go: the lines of a git log that shows whole pointers, and each of them in the parser.
use expert_octo_doodle.Common.{
  ◌⊎◌, ℕ, ◌+◌, ◌≤◌, ◌<◌, List, [], ◌∷◌, ◌++◌, map, none, Bool, true, false, if◌then◌else◌, ◌==◌,
  Bytes, has_prefix, length, Lacks, ◌≡◌, ◌≢◌, refl, sym, ap, ◌∙◌, arith, All, append_assoc, decimal,
}
use expert_octo_doodle.Lfs.Pointer.{
  Pointer, PointerExtension, extension_line, encoded, extension_lines,
}
use expert_octo_doodle.Lfs.Pointer.Decode.{blob_size_cutoff}
use expert_octo_doodle.Lfs.Pointer.Layout.{
  oid_value-Lacks, first_line, oid_line, size_line, extension_line-ext_text,
}
use expert_octo_doodle.Common.Decimal.{decimal-IsDigit}
use expert_octo_doodle.Common.TextLaws.{Lacks-of_Visible}
use expert_octo_doodle.Lfs.Pointer.ExtensionLines.{ext_key-Lacks}
use expert_octo_doodle.Lfs.Pointer.WellFormed.{
  Visible_of_digits, ext_key, oid_value, IsPointer, IsExtension, ext_texts, ext_text,
}
use expert_octo_doodle.Lfs.Scanner.{WrappedPointer}
use expert_octo_doodle.Lfs.Scanner.Lines.{unlines}
use expert_octo_doodle.Lfs.Scanner.Log.{
  side, is_pointer_key, LogDiffDirection, sign_of, commit_header, file_header, merge_header,
  pointer_data,
}
use expert_octo_doodle.Lfs.Scanner.Log.Headers.{spaces, IsDense, header_line}

-- A file of a commit, with its names, the pointer on the side of the diff that is read, the lines between
-- the header and the pointer, and those in front of the header, such as the header of the commit.
pub record Change : Type 0 where
  pub before : List Bytes
  pub old_name : Bytes
  pub new_name : Bytes
  pub notes : List Bytes
  pub pointer : Pointer

-- A line that none of the expressions matches.
abbrev pub IsNote : Bytes → Type 0
IsNote l =
    (commit_header l ≡ false)
    × (file_header l ≡ none)
    × (merge_header l ≡ none)
    × (pointer_data l ≡ none)

-- A line of no file.
abbrev pub IsBetween : Bytes → Type 0
IsBetween l = IsNote l ⊎ (commit_header l ≡ true)

pub record IsChange (c : Change) : Type 0 where
  pub are_between : All IsBetween c.before
  pub old_dense : IsDense c.old_name
  pub old_some : c.old_name ≢ []
  pub new_some : c.new_name ≢ []
  pub are_notes : All IsNote c.notes
  pub pointer_ok : IsPointer c.pointer
  pub fits : length (encoded c.pointer) ≤ blob_size_cutoff

abbrev pub pointer_lines : Pointer → List Bytes
pointer_lines p = first_line ∷ ext_texts p.extensions (oid_line p ∷ size_line p ∷ [])

abbrev pub marked : ℕ → List Bytes → List Bytes
marked sign ls = map (λ l. sign ∷ l) ls

abbrev pub file_lines : LogDiffDirection → Change → List Bytes
file_lines dir c =
    header_line c.old_name c.new_name ∷ (c.notes ++ marked (sign_of dir) (pointer_lines c.pointer))

abbrev pub change_lines : LogDiffDirection → Change → List Bytes
change_lines dir c = c.before ++ file_lines dir c

abbrev pub changes_lines : LogDiffDirection → List Change → List Bytes
changes_lines dir [] = []
changes_lines dir (c ∷ cs) = change_lines dir c ++ changes_lines dir cs

abbrev pub name_of : LogDiffDirection → Change → Bytes
name_of dir c = side dir (c.old_name, c.new_name)

abbrev pub found : Bytes → Pointer → WrappedPointer
found name p = record {
  sha1 = [];
  name = name;
  src_name = [];
  size = p.size;
  status = [];
  pointer = p;
}

-- What is sent for a file: its pointer, if the filter allows the name.
abbrev pub sent_one : (Bytes → Bool) → LogDiffDirection → Change → List WrappedPointer
sent_one allows dir c = if allows (name_of dir c) then found (name_of dir c) c.pointer ∷ [] else []

abbrev pub sent : (Bytes → Bool) → LogDiffDirection → List Change → List WrappedPointer
sent allows dir [] = []
sent allows dir (c ∷ cs) = sent_one allows dir c ++ sent allows dir cs

-- A line of a pointer has its key, and one space at most.
abbrev pub IsPointerLine : Bytes → Type 0
IsPointerLine l = (is_pointer_key l ≡ true) × (spaces l < 2)

Lacks-spaces : (s : Bytes) → Lacks b' ' s → spaces s ≡ 0
Lacks-spaces [] h = refl
Lacks-spaces (c ∷ s) (hc, h) = ground (arith, Lacks-spaces s h)

spaces-append : (s t : Bytes) → spaces (s ++ t) ≡ spaces s + spaces t
spaces-append [] t = omega arith
spaces-append (c ∷ s) t = ground (arith, spaces-append s t)

ext_text-IsPointerLine : (e : PointerExtension) → IsExtension e → IsPointerLine (ext_text e)
unfolding has_prefix
ext_text-IsPointerLine e h =
    let key = Lacks-spaces (ext_key e) (ext_key-Lacks e b' ' (omega arith) h) in
    let value =
      Lacks-spaces (oid_value e.oid) (oid_value-Lacks b' ' e.oid (omega arith) h.oid_ok) in
    (refl, omega (arith, spaces-append (ext_key e) (b' ' ∷ oid_value e.oid), key, value))

oid_line-IsPointerLine : (p : Pointer) → IsPointer p → IsPointerLine (oid_line p)
unfolding has_prefix
oid_line-IsPointerLine p h =
    let value =
      Lacks-spaces (oid_value p.oid) (oid_value-Lacks b' ' p.oid (omega arith) h.oid_ok) in
    (refl, omega (arith, value))

size_line-IsPointerLine : (p : Pointer) → IsPointerLine (size_line p)
unfolding has_prefix
size_line-IsPointerLine p =
    let value = Lacks-spaces (decimal p.size) (
      Lacks-of_Visible b' ' (decimal p.size) (omega arith)
        (Visible_of_digits (decimal p.size) (decimal-IsDigit p.size))) in
    (refl, omega (arith, value))

first_line-IsPointerLine : IsPointerLine first_line
unfolding has_prefix
first_line-IsPointerLine = (refl, omega arith)

exts-IsPointerLine :
    (es : List PointerExtension) (more : List Bytes)
    → All IsExtension es
    → All IsPointerLine more
    → All IsPointerLine (ext_texts es more)
exts-IsPointerLine [] more h hm = hm
exts-IsPointerLine (e ∷ es) more (he, h) hm =
    (ext_text-IsPointerLine e he, exts-IsPointerLine es more h hm)

pub pointer_lines-IsPointerLine : (p : Pointer) → IsPointer p → All IsPointerLine (pointer_lines p)
pointer_lines-IsPointerLine p h = (
  first_line-IsPointerLine,
  exts-IsPointerLine p.extensions (oid_line p ∷ size_line p ∷ []) h.are_extensions
      (oid_line-IsPointerLine p h, (size_line-IsPointerLine p, tt)),
)

unlines-ext_texts :
    (es : List PointerExtension) (more : List Bytes)
    → All IsExtension es
    → unlines (ext_texts es more) ≡ extension_lines es ++ unlines more
unlines-ext_texts [] more h = refl
unlines-ext_texts (e ∷ es) more (he, h) =
    ap (λ t. ext_text e ++ (b'\n' ∷ t)) (unlines-ext_texts es more h)
    ∙ sym (extension_line-ext_text e (extension_lines es ++ unlines more) he)
    ∙ sym (append_assoc (extension_line e) (extension_lines es) (unlines more))

-- The lines of a pointer are its file.
pub unlines-pointer_lines : (p : Pointer) → IsPointer p → unlines (pointer_lines p) ≡ encoded p
unfolding encoded
unlines-pointer_lines p h =
    let some_size : (p.size == 0) ≡ false = let pos_size = h.size_pos in ground arith in
    rw (unlines-ext_texts p.extensions (oid_line p ∷ size_line p ∷ []) h.are_extensions)
      (simp (some_size, append_assoc, h.oid_type_is))
