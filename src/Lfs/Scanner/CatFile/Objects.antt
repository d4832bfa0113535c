-- ===== src/Lfs/Scanner/CatFile/Objects.antt =====
-- lfs/gitscanner_catfilebatch.go: the output of `git cat-file --batch` for objects gives their pointers.
use expert_octo_doodle.Common.{
  ℕ, zero, suc, ◌+◌, ◌≤◌, ◌<◌, ◌^◌, List, [], ◌∷◌, ◌++◌, Option, true, false, leb, Bytes,
  split_once, split_once-append, Lacks, is_space, length, length-append, take-append_self,
  drop-append_self, decimal, ◌≡◌, ◌≢◌, refl, sym, ap, ◌∙◌, arith, All, append_assoc, append-nil,
}
use expert_octo_doodle.Common.Decimal.{decimal-IsDigit, decimal-ne-nil, parse_int-decimal}
use expert_octo_doodle.Common.TextLaws.{IsVisible, Lacks-of_Visible, Lacks-append}
use expert_octo_doodle.Errors.{Fault}
use expert_octo_doodle.Lfs.Pointer.{Pointer}
use expert_octo_doodle.Lfs.Pointer.Decode.{Decoded, ok, err, panic, decode_pointer}
use expert_octo_doodle.Lfs.Pointer.Panics.{returns, decode_pointer-returns}
use expert_octo_doodle.Lfs.Pointer.WellFormed.{Visible_of_digits}
use expert_octo_doodle.Lfs.Scanner.{WrappedPointer}
use expert_octo_doodle.Lfs.Scanner.CatFile.{
  fields_from, fields, buffer_size, after, Found, found, ended, wrapped, wrap_pointer, end_round,
  read_object, read_fields, scan_pointer, Batch, next_batch, batch_output, cat_file_batch_output,
}

-- An object as git prints it.
pub record GitObject : Type 0 where
  pub sha1 : Bytes
  pub kind : Bytes
  pub content : Bytes

abbrev pub IsWord : Bytes → Type 0
IsWord s = All IsVisible s × (s ≢ [])

pub record IsObject (o : GitObject) : Type 0 where
  pub sha1_ok : IsWord o.sha1
  pub kind_ok : IsWord o.kind
  pub size_lt : length o.content < 2 ^ 63

-- `<sha1> <type> <size>`, and the object between this line and a newline.
abbrev pub info_line : GitObject → Bytes
info_line o = o.sha1 ++ (b' ' ∷ o.kind ++ (b' ' ∷ decimal (length o.content)))

abbrev pub printed : List GitObject → Bytes
printed [] = []
printed (o ∷ os) = info_line o ++ (b'\n' ∷ o.content ++ (b'\n' ∷ printed os))

-- The pointers among the contents.
abbrev pub pointers_of : List GitObject → List WrappedPointer
pointers_of [] = []
pointers_of (o ∷ os) = elim (wrap_pointer o.sha1 o.content) [
  | ok p ↦ p ∷ pointers_of os
  | _ ↦ pointers_of os
]

fields_from-word :
    (word s rest : Bytes)
    → All IsVisible s
    → fields_from word (s ++ rest) ≡ fields_from (word ++ s) rest
unfolding fields_from
fields_from-word word [] rest h = ap (λ w. fields_from w rest) (sym (append-nil word))
fields_from-word word (c ∷ s) rest (hc, h) =
    let inside : is_space c ≡ false = ground arith in
    rw (inside, fields_from)
      (fields_from-word (word ++ c ∷ []) s rest h
        ∙ ap (λ w. fields_from w rest) (append_assoc word (c ∷ []) s))

fields-word : (s rest : Bytes) → IsWord s → fields (s ++ (b' ' ∷ rest)) ≡ s ∷ fields rest
unfolding fields
fields-word [] rest h = absurd (h.1 refl)
fields-word (c ∷ s) rest (h, ne) =
    fields_from-word [] (c ∷ s) (b' ' ∷ rest) h ∙ (unfold fields_from in refl)

fields-last : (s : Bytes) → IsWord s → fields s ≡ s ∷ []
unfolding fields
fields-last [] h = absurd (h.1 refl)
fields-last (c ∷ s) (h, ne) =
    ap (fields_from []) (sym (append-nil (c ∷ s)))
    ∙ fields_from-word [] (c ∷ s) [] h
    ∙ (unfold fields_from in refl)

decimal-IsWord : (n : ℕ) → IsWord (decimal n)
decimal-IsWord n = (Visible_of_digits (decimal n) (decimal-IsDigit n), decimal-ne-nil n)

fields-info_line :
    (o : GitObject)
    → IsObject o
    → fields (info_line o) ≡ o.sha1 ∷ o.kind ∷ decimal (length o.content) ∷ []
fields-info_line o h =
    fields-word o.sha1 (o.kind ++ (b' ' ∷ decimal (length o.content))) h.sha1_ok
    ∙ ap (λ t. o.sha1 ∷ t)
        (fields-word o.kind (decimal (length o.content)) h.kind_ok
          ∙ ap (λ t. o.kind ∷ t)
              (fields-last (decimal (length o.content)) (decimal-IsWord (length o.content))))

info_line-Lacks : (o : GitObject) → IsObject o → Lacks b'\n' (info_line o)
info_line-Lacks o h =
    Lacks-append b'\n' o.sha1 _ (Lacks-of_Visible b'\n' o.sha1 (omega arith) h.sha1_ok.0) (
      omega arith,
      Lacks-append b'\n' o.kind _ (Lacks-of_Visible b'\n' o.kind (omega arith) h.kind_ok.0) (
        omega arith,
        Lacks-of_Visible b'\n' (decimal (length o.content)) (omega arith)
            (decimal-IsWord (length o.content)).0,
      ),
    )

module _ (ending : Option Fault) where
  read_object-printed :
      (next : Bytes → Found) (sha1 content rest : Bytes)
      → length content < 2 ^ 63
      → read_object ending next sha1 (decimal (length content)) (content ++ (b'\n' ∷ rest))
        ≡ after next rest (wrap_pointer sha1 content)
  unfolding read_object end_round buffer_size split_once
  read_object-printed next sha1 content rest lt =
      let fits : leb (length content) (length (content ++ (b'\n' ∷ rest))) ≡ true =
        ground (arith, length-append content (b'\n' ∷ rest)) in
      rw (
        parse_int-decimal (length content) lt,
        fits,
        drop-append_self content (b'\n' ∷ rest),
        take-append_self content (b'\n' ∷ rest),
        read_object,
        buffer_size,
        end_round,
      )

  scan_pointer-printed :
      (o : GitObject) (os : List GitObject) (fuel : ℕ)
      → IsObject o
      → scan_pointer ending (suc fuel) (printed (o ∷ os))
        ≡ after (scan_pointer ending fuel) (printed os) (wrap_pointer o.sha1 o.content)
  unfolding scan_pointer read_fields
  scan_pointer-printed o os fuel h =
      rw
        (
          split_once-append b'\n' (info_line o) (o.content ++ (b'\n' ∷ printed os))
              (info_line-Lacks o h),
          fields-info_line o h,
          scan_pointer,
          read_fields,
        )
        (read_object-printed (scan_pointer ending fuel) o.sha1 o.content (printed os) h.size_lt)

  -- The first pointer of the objects, and what is left behind it.
  abbrev first_pointer : List GitObject → Found
  first_pointer [] = ended ending
  first_pointer (o ∷ os) = elim (wrap_pointer o.sha1 o.content) [
    | ok p ↦ found p (printed os)
    | _ ↦ first_pointer os
  ]

  wrap_pointer-returns : (sha1 content : Bytes) → returns (wrap_pointer sha1 content) ≡ true
  wrap_pointer-returns sha1 content = go (decode_pointer content) (decode_pointer-returns content)
    where
      go :
          (d : Decoded Pointer)
          → returns d ≡ true
          → returns (elim d [ ok p ↦ ok (wrapped sha1 p) | err e ↦ err e | panic ↦ panic ]) ≡ true
      go (ok p) h = refl
      go (err e) h = refl
      go panic h = h

  -- A round by what the content is, with the rest of the loop in front of the other objects.
  after_first :
      (next : Bytes → Found) (rest : Bytes) (f : Found) (d : Decoded WrappedPointer)
      → returns d ≡ true
      → next rest ≡ f
      → after next rest d ≡ elim d [ ok p ↦ found p rest | _ ↦ f ]
  after_first next rest f (ok p) r e = refl
  after_first next rest f (err x) r e = e
  after_first next rest f panic r e = cc

  scan_pointer-first :
      (os : List GitObject) (fuel : ℕ)
      → All IsObject os
      → length os < fuel
      → scan_pointer ending fuel (printed os) ≡ first_pointer os
  unfolding scan_pointer split_once
  scan_pointer-first os zero h lt = absurd (omega arith)
  scan_pointer-first [] (suc fuel) h lt = refl
  scan_pointer-first (o ∷ os) (suc fuel) (ho, h) lt =
      scan_pointer-printed o os fuel ho
      ∙ after_first (scan_pointer ending fuel) (printed os) (first_pointer os)
          (wrap_pointer o.sha1 o.content) (wrap_pointer-returns o.sha1 o.content)
          (scan_pointer-first os fuel h (omega arith))

  length-printed : (os : List GitObject) → length os ≤ length (printed os)
  length-printed [] = omega arith
  length-printed (o ∷ os) = omega (
    arith,
    length-printed os,
    length-append (info_line o) (b'\n' ∷ o.content ++ (b'\n' ∷ printed os)),
    length-append o.content (b'\n' ∷ printed os),
  )

  abbrev batch_from : ℕ → Found → Batch ending
  batch_from fuel f = next_batch ending (batch_output ending fuel) f

  batch_output-first :
      (fuel : ℕ) (os : List GitObject)
      → All IsObject os
      → batch_output ending (suc fuel) (printed os) ≡ batch_from fuel (first_pointer os)
  unfolding batch_output
  batch_output-first fuel os h =
      ap (batch_from fuel)
        (scan_pointer-first os (length (printed os) + 1) h (omega (arith, length-printed os)))

  abbrev all_pointers : List GitObject → Batch ending
  all_pointers os = record { pointers = pointers_of os; outcome = ended ending }

  batch_from-first :
      (os : List GitObject) (fuel : ℕ)
      → All IsObject os
      → length os ≤ fuel
      → batch_from fuel (first_pointer os) ≡ all_pointers os
  batch_from-first [] fuel h le = refl
  batch_from-first (o ∷ os) zero h le = absurd (omega arith)
  batch_from-first (o ∷ os) (suc fuel) (ho, h) le =
      by_content (wrap_pointer o.sha1 o.content) (wrap_pointer-returns o.sha1 o.content)
        (batch_output-first fuel os h ∙ batch_from-first os fuel h (omega arith))
        (batch_from-first os (suc fuel) h (omega arith))
    where
      by_content :
          (d : Decoded WrappedPointer)
          → returns d ≡ true
          → batch_output ending (suc fuel) (printed os) ≡ all_pointers os
          → batch_from (suc fuel) (first_pointer os) ≡ all_pointers os
          → batch_from (suc fuel) (elim d [ ok p ↦ found p (printed os) | _ ↦ first_pointer os ])
            ≡ record {
              pointers = elim d [ ok p ↦ p ∷ pointers_of os | _ ↦ pointers_of os ];
              outcome = ended ending;
            }
      by_content (ok p) r behind here =
          ap (λ b. record { pointers = p ∷ b.pointers; outcome = b.outcome }) behind
      by_content (err e) r behind here = here
      by_content panic r behind here = cc

  -- For any objects whose name and type are words and that are smaller than 2^63 bytes, what git prints
  -- of them gives the pointers among their contents, in order, and then the end of the stream.
  pub cat_file_batch_output-printed :
      (os : List GitObject)
      → All IsObject os
      → cat_file_batch_output ending (printed os)
        ≡ record { pointers = pointers_of os; outcome = ended ending }
  unfolding cat_file_batch_output
  cat_file_batch_output-printed os h =
      ap (λ n. batch_output ending n (printed os)) (one_more (length (printed os)))
      ∙ batch_output-first (length (printed os)) os h
      ∙ batch_from-first os (length (printed os)) h (length-printed os)
    where
      one_more : (n : ℕ) → n + 1 ≡ suc n
      one_more n = omega arith
