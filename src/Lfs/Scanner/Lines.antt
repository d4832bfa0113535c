-- ===== src/Lfs/Scanner/Lines.antt =====
-- The lines that a `bufio.Scanner` gives: all of them if each fits, and those in front of the first that
-- does not.
use expert_octo_doodle.Common.{
  ℕ, drop_cr, ◌≤◌, ◌<◌, List, [], ◌∷◌, ◌++◌, true, false, ltb, ◌==◌, Bytes, Lacks, length,
  length-append, ◌≡◌, refl, sym, ap, ◌∙◌, arith, All, Bool-cases, inl, inr, append-nil,
  append_assoc,
}
use expert_octo_doodle.Common.TextLaws.{drop_cr_self}
use expert_octo_doodle.Lfs.Scanner.{
  max_scan_token_size, raw_lines_from, within_limit, scanned_lines,
}

abbrev pub unlines : List Bytes → Bytes
unlines [] = []
unlines (l ∷ ls) = l ++ (b'\n' ∷ unlines ls)

-- A line that fits, with no end of a line inside.
abbrev pub IsLine : Bytes → Type 0
IsLine l = Lacks b'\n' l × Lacks b'\r' l × (length l < max_scan_token_size)

module _ (end : ℕ) where
  pub raw_lines_from-append :
      (pre line rest : Bytes)
      → Lacks end line
      → raw_lines_from end pre (line ++ rest) ≡ raw_lines_from end (pre ++ line) rest
  unfolding raw_lines_from
  raw_lines_from-append pre [] rest h = ap (λ p. raw_lines_from end p rest) (sym (append-nil pre))
  raw_lines_from-append pre (c ∷ line) rest (hc, h) =
      let other : (c == end) ≡ false = ground arith in
      rw (other, raw_lines_from)
        (raw_lines_from-append (pre ++ c ∷ []) line rest h
          ∙ ap (λ p. raw_lines_from end p rest) (append_assoc pre (c ∷ []) line))

  pub raw_lines_from-line :
      (line rest : Bytes)
      → Lacks end line
      → raw_lines_from end [] (line ++ (end ∷ rest)) ≡ line ∷ raw_lines_from end [] rest
  unfolding raw_lines_from
  raw_lines_from-line line rest h =
      let same : (end == end) ≡ true = ground arith in
      raw_lines_from-append [] line (end ∷ rest) h ∙ rw (same, raw_lines_from)

within_limit-IsLine :
    (l : Bytes) (ls : List Bytes)
    → IsLine l
    → within_limit drop_cr (l ∷ ls) ≡ l ∷ within_limit drop_cr ls
unfolding within_limit
within_limit-IsLine l ls (newline, cr, short) =
    let fits : ltb (length l) max_scan_token_size ≡ true = ground arith in
    rw (fits, drop_cr_self l cr)

-- A line that has outgrown the buffer ends the scan, whatever follows.
within_limit-long :
    (pre rest : Bytes)
    → max_scan_token_size ≤ length pre
    → within_limit drop_cr (raw_lines_from b'\n' pre rest) ≡ []
unfolding within_limit raw_lines_from
within_limit-long [] rest h = absurd (omega arith)
within_limit-long (d ∷ pre) [] h =
    let long : ltb (length (d ∷ pre)) max_scan_token_size ≡ false = ground arith in rw long
within_limit-long (d ∷ pre) (c ∷ rest) h = elim (Bool-cases (c == b'\n')) [
  | inl last ↦
      let long : ltb (length (d ∷ pre)) max_scan_token_size ≡ false = ground arith in
      rw (last, raw_lines_from, within_limit, long)
  | inr more ↦
      rw (more, raw_lines_from)
        (within_limit-long (d ∷ pre ++ c ∷ []) rest
          (omega (arith, length-append (d ∷ pre) (c ∷ []))))
]

pub scanned_lines-append :
    (ls : List Bytes) (rest : Bytes)
    → All IsLine ls
    → scanned_lines (unlines ls ++ rest) ≡ ls ++ scanned_lines rest
unfolding scanned_lines
scanned_lines-append [] rest h = refl
scanned_lines-append (l ∷ ls) rest (hl, h) =
    ap scanned_lines (append_assoc l (b'\n' ∷ unlines ls) rest)
    ∙ ap (within_limit drop_cr) (raw_lines_from-line b'\n' l (unlines ls ++ rest) hl.0)
    ∙ within_limit-IsLine l (raw_lines_from b'\n' [] (unlines ls ++ rest)) hl
    ∙ ap (λ t. l ∷ t) (scanned_lines-append ls rest h)

pub scanned_lines-long :
    (long rest : Bytes)
    → Lacks b'\n' long
    → max_scan_token_size ≤ length long
    → scanned_lines (long ++ rest) ≡ []
unfolding scanned_lines
scanned_lines-long long rest lacks h =
    ap (within_limit drop_cr) (raw_lines_from-append b'\n' [] long rest lacks)
    ∙ within_limit-long long rest h
