-- ===== src/Lfs/Scanner/Log/Rounds.antt =====
-- lfs/scanner.go: the loop of `parseLogOutputToPointers` over the lines of one file.
use expert_octo_doodle.Common.{
  if_same, if_true, if_false, ◌<◌, List, [], ◌∷◌, ◌++◌, some, Bool, true, false, if◌then◌else◌,
  ◌==◌, Bytes, has_prefix, Bool-cases, inl, inr, ◌≡◌, refl, sym, ap, ◌∙◌, arith, All, append-nil,
  append_assoc,
}
use expert_octo_doodle.Lfs.Pointer.{encoded}
use expert_octo_doodle.Lfs.Pointer.Decode.{ok, err, panic, ◌>>=◌, Decoded}
use expert_octo_doodle.Lfs.Scanner.{WrappedPointer}
use expert_octo_doodle.Lfs.Scanner.Lines.{unlines}
use expert_octo_doodle.Lfs.Scanner.Log.{
  is_pointer_key, LogDiffDirection, sign_of, commit_header, pointer_data, LogState,
  finish_last_pointer, add_pointer_data, start_file, log_line, log_lines,
}
use expert_octo_doodle.Lfs.Scanner.Log.Headers.{
  spaces, file_header-none, merge_header-none, header_line, file_header-header_line,
}
use expert_octo_doodle.Lfs.Scanner.Log.Shown.{
  Change, IsChange, IsNote, IsBetween, file_lines, IsPointerLine, pointer_lines, marked,
  change_lines, name_of, pointer_lines-IsPointerLine, unlines-pointer_lines,
}

abbrev pub log_state : Bytes → Bytes → Bool → List WrappedPointer → LogState
log_state text name included results = record {
  pointer_text = text;
  current_filename = name;
  current_file_included = included;
  results = results;
}

-- States with equal fields.
same_state :
    (a a' b b' : Bytes) (i i' : Bool) (results : List WrappedPointer)
    → a ≡ a'
    → b ≡ b'
    → i ≡ i'
    → ok (log_state a b i results) ≡ ok (log_state a' b' i' results)
same_state a a' b b' i i' results ha hb hi = rw (ha, hb, hi)

bind_assoc :
    {A B C : Type 0} (d : Decoded A) (f : A → Decoded C) (g : A → Decoded B) (k : B → Decoded C)
    → ((a : A) → f a ≡ (g a >>= k))
    → (d >>= f) ≡ ((d >>= g) >>= k)
bind_assoc (ok a) f g k h = h a
bind_assoc (err e) f g k h = refl
bind_assoc panic f g k h = refl

module _ (allows : Bytes → Bool) (dir : LogDiffDirection) where
  pub log_lines-append :
      (xs ys : List Bytes) (s : LogState)
      → log_lines allows dir (xs ++ ys) s ≡ (log_lines allows dir xs s >>= log_lines allows dir ys)
  unfolding log_lines
  log_lines-append [] ys s = refl
  log_lines-append (x ∷ xs) ys s =
      bind_assoc (log_line allows dir x s) (log_lines allows dir (xs ++ ys))
        (log_lines allows dir xs) (log_lines allows dir ys) (λ t. log_lines-append xs ys t)

  note-log_line : (l : Bytes) (s : LogState) → IsNote l → log_line allows dir l s ≡ ok s
  unfolding log_line add_pointer_data
  note-log_line l s (a, b, c, d) =
      rw (a, b, c, d, log_line, add_pointer_data) (ap ok (if_same s.current_file_included s))

  notes-log_lines :
      (ls : List Bytes) (s : LogState) → All IsNote ls → log_lines allows dir ls s ≡ ok s
  unfolding log_lines
  notes-log_lines [] s h = refl
  notes-log_lines (l ∷ ls) s (hl, h) = rw (note-log_line l s hl, log_lines) (notes-log_lines ls s h)

  signed_no_commit : (l : Bytes) → commit_header (sign_of dir ∷ l) ≡ false
  unfolding commit_header has_prefix
  signed_no_commit l = ground arith

  signed_spaces : (l : Bytes) → spaces (sign_of dir ∷ l) ≡ spaces l
  signed_spaces l = ground arith

  pointer_data-signed :
      (l : Bytes) → is_pointer_key l ≡ true → pointer_data (sign_of dir ∷ l) ≡ some (sign_of dir, l)
  unfolding pointer_data
  pointer_data-signed l key = ground arith

  add_signed :
      (l : Bytes) (s : LogState)
      → is_pointer_key l ≡ true
      → add_pointer_data dir (sign_of dir ∷ l) s
        ≡ record s { pointer_text = s.pointer_text ++ (l ++ b'\n' ∷ []) }
  unfolding add_pointer_data
  add_signed l s key =
      let own : (sign_of dir == sign_of dir) ≡ true = ground arith in
      rw (pointer_data-signed l key, own, add_pointer_data)

  -- A line of a pointer is no header.
  plain_line :
      (l : Bytes) (s : LogState)
      → IsPointerLine l
      → log_line allows dir (sign_of dir ∷ l) s
        ≡ ok (if s.current_file_included then add_pointer_data dir (sign_of dir ∷ l) s else s)
  unfolding log_line
  plain_line l s (key, few) =
      let few' : spaces (sign_of dir ∷ l) < 2 = omega (arith, signed_spaces l) in
      rw (
        signed_no_commit l,
        file_header-none (sign_of dir ∷ l) few',
        merge_header-none (sign_of dir ∷ l) few',
        log_line,
      )

  pointer_line :
      (l : Bytes) (s : LogState)
      → IsPointerLine l
      → s.current_file_included ≡ true
      → log_line allows dir (sign_of dir ∷ l) s
        ≡ ok (record s { pointer_text = s.pointer_text ++ (l ++ b'\n' ∷ []) })
  pointer_line l s h on =
      plain_line l s h ∙ ap ok (if_true s.current_file_included _ s on ∙ add_signed l s h.0)

  pointer_log_lines :
      (ls : List Bytes) (s : LogState)
      → All IsPointerLine ls
      → s.current_file_included ≡ true
      → log_lines allows dir (marked (sign_of dir) ls) s
        ≡ ok (record s { pointer_text = s.pointer_text ++ unlines ls })
  unfolding log_lines
  pointer_log_lines [] s h on =
      ap (λ t. ok (record s { pointer_text = t })) (sym (append-nil s.pointer_text))
  pointer_log_lines (l ∷ ls) s (hl, h) on =
      let s' : LogState = record s { pointer_text = s.pointer_text ++ (l ++ b'\n' ∷ []) } in
      rw (pointer_line l s hl on, log_lines)
        (pointer_log_lines ls s' h on
          ∙ ap (λ t. ok (record s { pointer_text = t }))
              (append_assoc s.pointer_text (l ++ b'\n' ∷ []) (unlines ls)
                ∙ ap (λ t. s.pointer_text ++ t) (append_assoc l (b'\n' ∷ []) (unlines ls))))

  -- A line of a pointer of a file that the filter refuses.
  refused_line :
      (l : Bytes) (s : LogState)
      → IsPointerLine l
      → s.current_file_included ≡ false
      → log_line allows dir (sign_of dir ∷ l) s ≡ ok s
  refused_line l s h off = plain_line l s h ∙ ap ok (if_false s.current_file_included _ s off)

  refused_log_lines :
      (ls : List Bytes) (s : LogState)
      → All IsPointerLine ls
      → s.current_file_included ≡ false
      → log_lines allows dir (marked (sign_of dir) ls) s ≡ ok s
  unfolding log_lines
  refused_log_lines [] s h off = refl
  refused_log_lines (l ∷ ls) s (hl, h) off =
      rw (refused_line l s hl off, log_lines) (refused_log_lines ls s h off)

  -- The state behind the lines of a change.
  abbrev pub text_of : Change → Bytes
  text_of c = if allows (name_of dir c) then encoded c.pointer else []

  abbrev pub shown_state : Change → List WrappedPointer → LogState
  shown_state c results = record {
    pointer_text = text_of c;
    current_filename = name_of dir c;
    current_file_included = allows (name_of dir c);
    results = results;
  }

  header_log_line :
      (c : Change) (s t : LogState)
      → IsChange c
      → finish_last_pointer s ≡ ok t
      → log_line allows dir (header_line c.old_name c.new_name) s
        ≡ ok (record t {
          current_filename = name_of dir c;
          current_file_included = allows (name_of dir c);
        })
  unfolding log_line start_file commit_header has_prefix
  header_log_line c s t h done = rw (
    file_header-header_line c.old_name c.new_name h.old_dense h.old_some h.new_some,
    done,
    log_line,
    start_file,
  )

  pointer-log_lines :
      (c : Change) (s : LogState)
      → IsChange c
      → s.pointer_text ≡ []
      → s.current_filename ≡ name_of dir c
      → s.current_file_included ≡ allows (name_of dir c)
      → log_lines allows dir (marked (sign_of dir) (pointer_lines c.pointer)) s
        ≡ ok (shown_state c s.results)
  pointer-log_lines c s h empty named included = elim (Bool-cases (allows (name_of dir c))) [
    | inl on ↦
        pointer_log_lines (pointer_lines c.pointer) s
          (pointer_lines-IsPointerLine c.pointer h.pointer_ok) (included ∙ on)
        ∙ same_state (s.pointer_text ++ unlines (pointer_lines c.pointer)) (text_of c)
            s.current_filename (name_of dir c) s.current_file_included (allows (name_of dir c))
            s.results
            (ap (λ t. t ++ unlines (pointer_lines c.pointer)) empty
              ∙ unlines-pointer_lines c.pointer h.pointer_ok
              ∙ sym (if_true (allows (name_of dir c)) (encoded c.pointer) [] on))
            named included
    | inr off ↦
        refused_log_lines (pointer_lines c.pointer) s
          (pointer_lines-IsPointerLine c.pointer h.pointer_ok) (included ∙ off)
        ∙ same_state s.pointer_text (text_of c) s.current_filename (name_of dir c)
            s.current_file_included (allows (name_of dir c)) s.results
            (empty ∙ sym (if_false (allows (name_of dir c)) (encoded c.pointer) [] off)) named
            included
  ]

  file-log_lines :
      (c : Change) (s t : LogState)
      → IsChange c
      → finish_last_pointer s ≡ ok t
      → t.pointer_text ≡ []
      → log_lines allows dir (file_lines dir c) s ≡ ok (shown_state c t.results)
  unfolding log_lines
  file-log_lines c s t h done empty =
      let marks = marked (sign_of dir) (pointer_lines c.pointer) in
      let s' : LogState = record t {
        current_filename = name_of dir c;
        current_file_included = allows (name_of dir c);
      } in
      ap (λ d. d >>= log_lines allows dir (c.notes ++ marks)) (header_log_line c s t h done)
      ∙ log_lines-append c.notes marks s'
      ∙ ap (λ d. d >>= log_lines allows dir marks) (notes-log_lines c.notes s' h.are_notes)
      ∙ pointer-log_lines c s' h empty refl refl

  finish_empty : (t : LogState) → t.pointer_text ≡ [] → finish_last_pointer t ≡ ok t
  unfolding finish_last_pointer
  finish_empty t empty =
      rw (empty, finish_last_pointer) (ap (λ x. ok (record t { pointer_text = x })) empty)

  -- Lines of no file end the last pointer now or later.
  between-log_lines :
      (ls : List Bytes) (s t : LogState)
      → All IsBetween ls
      → finish_last_pointer s ≡ ok t
      → t.pointer_text ≡ []
      → (s' : LogState) × (log_lines allows dir ls s ≡ ok s') × (finish_last_pointer s' ≡ ok t)
  unfolding log_lines log_line
  between-log_lines [] s t h done empty = (s, refl, done)
  between-log_lines (l ∷ ls) s t (inl note, h) done empty =
      let (s', ran, done') = between-log_lines ls s t h done empty in
      (s', rw (note-log_line l s note, log_lines) ran, done')
  between-log_lines (l ∷ ls) s t (inr commit, h) done empty =
      let (s', ran, done') = between-log_lines ls t t h (finish_empty t empty) empty in
      (s', rw (commit, done, log_lines, log_line) ran, done')

  pub change-log_lines :
      (c : Change) (s t : LogState)
      → IsChange c
      → finish_last_pointer s ≡ ok t
      → t.pointer_text ≡ []
      → log_lines allows dir (change_lines dir c) s ≡ ok (shown_state c t.results)
  change-log_lines c s t h done empty =
      let (s', ran, done') = between-log_lines c.before s t h.are_between done empty in
      log_lines-append c.before (file_lines dir c) s
      ∙ ap (λ d. d >>= log_lines allows dir (file_lines dir c)) ran
      ∙ file-log_lines c s' t h done' empty
