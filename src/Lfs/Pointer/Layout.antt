-- ===== src/Lfs/Pointer/Layout.antt =====
-- A pointer file as it is read: trimmed of white space, and cut into lines.
use expert_octo_doodle.Common.{
  ℕ, ◌≤◌, ◌<◌, List, [], ◌∷◌, ◌++◌, false, ◌==◌, Bytes, codes, Lacks, trim_space, scan_lines,
  decimal, ◌≡◌, refl, ap, ◌∙◌, arith, All, append_assoc,
}
use expert_octo_doodle.Common.Decimal.{decimal-IsDigit, decimal-ne-nil}
use expert_octo_doodle.Common.TextLaws.{
  Lacks-of_Visible, Lacks-append, trim_space_newline, scan_lines-line, scan_lines_end,
}
use expert_octo_doodle.Lfs.Pointer.{
  Pointer, PointerExtension, latest, oid_type_sha256, extension_line, extension_lines, encoded,
}
use expert_octo_doodle.Lfs.Pointer.WellFormed.{
  IsExtension, IsOid, IsPointer, Visible_of_digits, ext_key, ext_text, ext_texts, oid_value,
}
use expert_octo_doodle.Lfs.Pointer.ExtensionLines.{ext_key-Lacks}

-- The file as it is read: its lines, with no newline behind the last.
abbrev pub first_line : Bytes
first_line = codes "version " ++ latest

abbrev pub oid_line : Pointer → Bytes
oid_line p = codes "oid " ++ oid_value p.oid

abbrev pub size_line : Pointer → Bytes
size_line p = codes "size " ++ decimal p.size

abbrev pub trimmed : Pointer → Bytes
trimmed p =
    first_line ++ (b'\n' ∷ (extension_lines p.extensions ++ (oid_line p ++ (b'\n' ∷ size_line p))))

abbrev pub behind_v : Pointer → Bytes
behind_v p =
    codes "ersion "
    ++ (latest
        ++ (b'\n' ∷ (extension_lines p.extensions ++ (oid_line p ++ (b'\n' ∷ codes "size ")))))

pub before_size : Pointer → Bytes
before_size p = b'v' ∷ behind_v p

pub encoded-before_size :
    (p : Pointer) → IsPointer p → encoded p ≡ before_size p ++ (decimal p.size ++ b'\n' ∷ [])
unfolding before_size encoded
encoded-before_size p h =
    let some_size : (p.size == 0) ≡ false = let pos_size = h.size_pos in ground arith in
    simp (some_size, append_assoc, h.oid_type_is)

pub before_size-trimmed : (p : Pointer) → before_size p ++ decimal p.size ≡ trimmed p
unfolding before_size
before_size-trimmed p = simp append_assoc

pub trim_space-encoded : (p : Pointer) → IsPointer p → trim_space (encoded p) ≡ trimmed p
unfolding before_size
trim_space-encoded p h = rw (encoded-before_size p h) (
    trim_space_newline b'v' (behind_v p) (decimal p.size) (omega arith)
      (Visible_of_digits _ (decimal-IsDigit p.size)) (decimal-ne-nil p.size)
    ∙ before_size-trimmed p)

pub oid_value-Lacks : (b : ℕ) (oid : Bytes) → b ≤ 32 → IsOid oid → Lacks b (oid_value oid)
oid_value-Lacks b oid le h =
    Lacks-append b oid_type_sha256 (b':' ∷ oid) (omega arith)
      (omega arith, Lacks-of_Visible b oid le h.1)

pub ext_text-Lacks : (e : PointerExtension) (b : ℕ) → b < 32 → IsExtension e → Lacks b (ext_text e)
ext_text-Lacks e b lt h =
    Lacks-append b (ext_key e) (b' ' ∷ oid_value e.oid) (ext_key-Lacks e b (omega arith) h)
      (omega arith, oid_value-Lacks b e.oid (omega arith) h.oid_ok)

pub extension_line-ext_text :
    (e : PointerExtension) (rest : Bytes)
    → IsExtension e
    → extension_line e ++ rest ≡ ext_text e ++ (b'\n' ∷ rest)
extension_line-ext_text e rest h = simp (append_assoc, h.oid_type_is)

pub scan_lines-exts :
    (es : List PointerExtension) (rest : Bytes)
    → All IsExtension es
    → scan_lines (extension_lines es ++ rest) ≡ ext_texts es (scan_lines rest)
scan_lines-exts [] rest h = refl
scan_lines-exts (e ∷ es) rest (he, h) =
    ap scan_lines (
      append_assoc (extension_line e) (extension_lines es) rest
      ∙ extension_line-ext_text e (extension_lines es ++ rest) he)
    ∙ scan_lines-line (ext_text e) (extension_lines es ++ rest)
        (ext_text-Lacks e b'\n' (omega arith) he) (ext_text-Lacks e b'\r' (omega arith) he)
    ∙ ap (λ ls. ext_text e ∷ ls) (scan_lines-exts es rest h)

pub scan_lines-trimmed :
    (p : Pointer)
    → IsPointer p
    → scan_lines (trimmed p) ≡ first_line ∷ ext_texts p.extensions (oid_line p ∷ size_line p ∷ [])
scan_lines-trimmed p h =
    scan_lines-line first_line _ (omega arith) (omega arith)
    ∙ ap (λ ls. first_line ∷ ls)
        (scan_lines-exts p.extensions _ h.are_extensions
          ∙ ap (ext_texts p.extensions) (
              scan_lines-line (oid_line p) (size_line p) (oid_line-Lacks b'\n' (omega arith))
                (oid_line-Lacks b'\r' (omega arith))
              ∙ ap (λ ls. oid_line p ∷ ls)
                  (scan_lines_end (size_line p) (size_line-Lacks b'\n' (omega arith))
                    (size_line-Lacks b'\r' (omega arith)) (λ x. cc))))
  where
    oid_line-Lacks : (b : ℕ) → b < 32 → Lacks b (oid_line p)
    oid_line-Lacks b lt =
        Lacks-append b (codes "oid ") (oid_value p.oid) (omega arith)
          (oid_value-Lacks b p.oid (omega arith) h.oid_ok)

    size_line-Lacks : (b : ℕ) → b < 32 → Lacks b (size_line p)
    size_line-Lacks b lt =
        Lacks-append b (codes "size ") (decimal p.size) (omega arith)
          (Lacks-of_Visible b _ (omega arith) (Visible_of_digits _ (decimal-IsDigit p.size)))
