-- ===== src/Lfs/Scanner/Log/RoundTrip.antt =====
-- lfs/scanner.go: `parseLogOutputToPointers` on the output of a git log that shows whole pointers.
use expert_octo_doodle.Common.{
  ◌≤◌, List, [], ◌∷◌, ◌++◌, Bool, true, false, if◌then◌else◌, Bytes, length, Lacks, ◌≡◌, ◌≢◌, refl,
  sym, ap, ◌∙◌, All, append-nil, append_assoc,
}
use expert_octo_doodle.Lfs.Pointer.{Pointer, encoded}
use expert_octo_doodle.Lfs.Pointer.Decode.{ok, ◌>>=◌, decode_pointer, Decoded}
use expert_octo_doodle.Lfs.Pointer.RoundTrip.{decode_pointer-encoded}
use expert_octo_doodle.Lfs.Pointer.WellFormed.{IsPointer}
use expert_octo_doodle.Lfs.Scanner.{WrappedPointer, max_scan_token_size, scanned_lines}
use expert_octo_doodle.Lfs.Scanner.Lines.{unlines, IsLine, scanned_lines-append, scanned_lines-long}
use expert_octo_doodle.Lfs.Scanner.Log.{
  LogDiffDirection, LogState, start_log, send_pointer, finish_last_pointer, log_lines,
  parse_log_output_to_pointers,
}
use expert_octo_doodle.Lfs.Scanner.Log.Shown.{
  Change, IsChange, change_lines, changes_lines, name_of, found, sent_one, sent,
  unlines-pointer_lines,
}
use expert_octo_doodle.Lfs.Scanner.Log.Rounds.{
  log_state, shown_state, log_lines-append, change-log_lines,
}

-- The end of a file with a pointer, where the filter allows the file.
finish_if :
    (i : Bool) (text name : Bytes) (p : Pointer) (results : List WrappedPointer)
    → text ≢ []
    → decode_pointer text ≡ ok p
    → finish_last_pointer (log_state (if i then text else []) name i results)
      ≡ ok (log_state [] name i (results ++ (if i then found name p ∷ [] else [])))
unfolding finish_last_pointer send_pointer
finish_if true [] name p results ne dec = absurd (ne refl)
finish_if true (d ∷ text) name p results ne dec = rw (dec, send_pointer)
finish_if false text name p results ne dec =
    ap (λ r. ok (log_state [] name false r)) (sym (append-nil results))

encoded-ne-nil : (p : Pointer) → IsPointer p → encoded p ≢ []
encoded-ne-nil p h empty = cc (unlines-pointer_lines p h ∙ empty)

module _ (allows : Bytes → Bool) (dir : LogDiffDirection) where
  -- What the end of the file, or the next header, makes of the state behind a change.
  abbrev ended_state : Change → List WrappedPointer → LogState
  ended_state c results = record (shown_state allows dir c results) {
    pointer_text = [];
    results = results ++ sent_one allows dir c;
  }

  finish-shown_state :
      (c : Change) (results : List WrappedPointer)
      → IsChange c
      → finish_last_pointer (shown_state allows dir c results) ≡ ok (ended_state c results)
  finish-shown_state c results h =
      finish_if (allows (name_of dir c)) (encoded c.pointer) (name_of dir c) c.pointer results
        (encoded-ne-nil c.pointer h.pointer_ok)
        (decode_pointer-encoded c.pointer h.pointer_ok h.fits)

  -- The loop over the lines and the last `finishLastPointer`.
  abbrev results_of : Decoded LogState → Decoded (List WrappedPointer)
  results_of d = d >>= λ s. finish_last_pointer s >>= λ t. ok t.results

  changes-results_of :
      (cs : List Change) (s t : LogState)
      → All IsChange cs
      → finish_last_pointer s ≡ ok t
      → t.pointer_text ≡ []
      → results_of (log_lines allows dir (changes_lines dir cs) s)
        ≡ ok (t.results ++ sent allows dir cs)
  unfolding log_lines
  changes-results_of [] s t h done empty = rw done (ap ok (sym (append-nil t.results)))
  changes-results_of (c ∷ cs) s t (hc, h) done empty =
      let s' = shown_state allows dir c t.results in
      let rest = changes_lines dir cs in
      ap results_of (log_lines-append allows dir (change_lines dir c) rest s)
      ∙ ap (λ d. results_of (d >>= log_lines allows dir rest))
          (change-log_lines allows dir c s t hc done empty)
      ∙ changes-results_of cs s' (ended_state c t.results) h (finish-shown_state c t.results hc)
          refl
      ∙ ap ok (append_assoc t.results (sent_one allows dir c) (sent allows dir cs))

  -- The output of a git log that shows the pointers of files whole, each line with the sign that is read,
  -- gives these pointers in order, with the names of the files that the filter allows. The pointers are
  -- well formed and have files of at most 1024 bytes, the lines fit the scanner and hold no end of a
  -- line, the old names have no white space, and no other line is like a header or a pointer's.
  pub parse-changes_lines :
      (cs : List Change)
      → All IsChange cs
      → All IsLine (changes_lines dir cs)
      → parse_log_output_to_pointers allows dir (unlines (changes_lines dir cs))
        ≡ ok (sent allows dir cs)
  unfolding parse_log_output_to_pointers finish_last_pointer
  parse-changes_lines cs h lines =
      let all : scanned_lines (unlines (changes_lines dir cs)) ≡ changes_lines dir cs =
        ap scanned_lines (sym (append-nil (unlines (changes_lines dir cs))))
        ∙ scanned_lines-append (changes_lines dir cs) [] lines
        ∙ append-nil (changes_lines dir cs) in
      ap (λ ls. results_of (log_lines allows dir ls start_log)) all
      ∙ changes-results_of cs start_log start_log h refl refl

  -- A line of 64 KiB or more ends the scan: what stands behind the lines in front of it is not read.
  pub parse-long_line :
      (ls : List Bytes) (long rest : Bytes)
      → All IsLine ls
      → Lacks b'\n' long
      → max_scan_token_size ≤ length long
      → parse_log_output_to_pointers allows dir (unlines ls ++ (long ++ rest))
        ≡ parse_log_output_to_pointers allows dir (unlines ls)
  unfolding parse_log_output_to_pointers
  parse-long_line ls long rest h lacks large =
      let cut : scanned_lines (unlines ls ++ (long ++ rest)) ≡ scanned_lines (unlines ls) =
        scanned_lines-append ls (long ++ rest) h
        ∙ ap (λ t. ls ++ t) (scanned_lines-long long rest lacks large)
        ∙ sym (scanned_lines-append ls [] h)
        ∙ ap scanned_lines (append-nil (unlines ls)) in
      ap (λ t. results_of (log_lines allows dir t start_log)) cut
