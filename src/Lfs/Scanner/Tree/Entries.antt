-- ===== src/Lfs/Scanner/Tree/Entries.antt =====
-- lfs/scanner.go: `parseLsTree` gives the small blobs of a tree.
use expert_octo_doodle.Common.{
  ℕ, zero, suc, ◌<◌, ◌^◌, List, [], ◌∷◌, ◌++◌, none, some, Bool, true, false, ◌&&◌, if◌then◌else◌,
  ltb, Bytes, codes, equal, split_once-append, Lacks, trim_space, trim_left, trim_right, length,
  decimal, ◌≡◌, ◌≢◌, refl, sym, ap, ◌∙◌, arith, All,
}
use expert_octo_doodle.Common.Decimal.{decimal-IsDigit, parse_int-decimal}
use expert_octo_doodle.Common.TextLaws.{IsVisible, Lacks-of_Visible, Lacks-append}
use expert_octo_doodle.Lfs.Pointer.Decode.{blob_size_cutoff}
use expert_octo_doodle.Lfs.Pointer.WellFormed.{Visible_of_digits}
use expert_octo_doodle.Lfs.Scanner.{
  max_scan_token_size, raw_lines_from, within_limit, scanned_null_lines,
}
use expert_octo_doodle.Lfs.Scanner.Lines.{raw_lines_from-line}
use expert_octo_doodle.Lfs.Scanner.Tree.{TreeBlob, tree_blob, tree_blobs, parse_ls_tree}

-- An entry of a tree, with the number of spaces in front of its size.
pub record Entry : Type 0 where
  pub mode : Bytes
  pub kind : Bytes
  pub sha1 : Bytes
  pub padding : ℕ
  pub size : ℕ
  pub filename : Bytes

abbrev pub padded : ℕ → Bytes → Bytes
padded zero s = s
padded (suc n) s = b' ' ∷ padded n s

abbrev pub entry_line : Entry → Bytes
entry_line e =
    (e.mode ++ (b' ' ∷ e.kind ++ (b' ' ∷ e.sha1 ++ (b' ' ∷ padded e.padding (decimal e.size)))))
    ++ (b'\t' ∷ e.filename)

-- What `ls-tree -z` prints.
abbrev pub entries_text : List Entry → Bytes
entries_text [] = []
entries_text (e ∷ es) = entry_line e ++ (0 ∷ entries_text es)

pub record IsEntry (e : Entry) : Type 0 where
  pub mode_ok : All IsVisible e.mode
  pub kind_ok : All IsVisible e.kind
  pub sha1_ok : All IsVisible e.sha1
  pub size_lt : e.size < 2 ^ 63
  pub filename_ok : Lacks 0 e.filename
  pub fits : length (entry_line e) < max_scan_token_size

abbrev pub small_entries : List Entry → List TreeBlob
small_entries [] = []
small_entries (e ∷ es) =
    if equal e.kind (codes "blob") && ltb e.size blob_size_cutoff
    then record { sha1 = e.sha1; filename = e.filename } ∷ small_entries es
    else small_entries es

trim_right_visible : (s : Bytes) → All IsVisible s → trim_right s ≡ s
unfolding trim_right
trim_right_visible [] h = refl
trim_right_visible (c ∷ []) (hc, h) = ground arith
trim_right_visible (c ∷ d ∷ s) (hc, h) = rw (trim_right_visible (d ∷ s) h, trim_right)

trim_left-padded : (n : ℕ) (s : Bytes) → All IsVisible s → trim_left (padded n s) ≡ s
unfolding trim_left
trim_left-padded zero [] h = refl
trim_left-padded zero (c ∷ s) (hc, h) = ground arith
trim_left-padded (suc n) s h = trim_left-padded n s h

padded-Lacks : (b n : ℕ) (s : Bytes) → b ≢ b' ' → Lacks b s → Lacks b (padded n s)
padded-Lacks b zero s ne h = h
padded-Lacks b (suc n) s ne h = (λ same. ne (sym same), padded-Lacks b n s ne h)

decimal-IsVisible : (n : ℕ) → All IsVisible (decimal n)
decimal-IsVisible n = Visible_of_digits (decimal n) (decimal-IsDigit n)

trim_space-padded : (n k : ℕ) → trim_space (padded n (decimal k)) ≡ decimal k
unfolding trim_space
trim_space-padded n k =
    ap trim_right (trim_left-padded n (decimal k) (decimal-IsVisible k))
    ∙ trim_right_visible (decimal k) (decimal-IsVisible k)

front-Lacks :
    (e : Entry) (b : ℕ)
    → b < 32
    → IsEntry e
    → Lacks b
        (e.mode ++ (b' ' ∷ e.kind ++ (b' ' ∷ e.sha1 ++ (b' ' ∷ padded e.padding (decimal e.size)))))
front-Lacks e b lt h = Lacks-append b e.mode _ (Lacks-of_Visible b e.mode (omega arith) h.mode_ok) (
  omega arith,
  Lacks-append b e.kind _ (Lacks-of_Visible b e.kind (omega arith) h.kind_ok) (
    omega arith,
    Lacks-append b e.sha1 _ (Lacks-of_Visible b e.sha1 (omega arith) h.sha1_ok) (
      omega arith,
      padded-Lacks b e.padding (decimal e.size) (omega arith)
          (Lacks-of_Visible b (decimal e.size) (omega arith) (decimal-IsVisible e.size)),
    ),
  ),
)

tree_blob-entry_line :
    (e : Entry)
    → IsEntry e
    → tree_blob (entry_line e) ≡ (
        if equal e.kind (codes "blob") && ltb e.size blob_size_cutoff
        then some (record { sha1 = e.sha1; filename = e.filename })
        else none)
unfolding tree_blob
tree_blob-entry_line e h =
    let size = padded e.padding (decimal e.size) in
    let behind_kind = e.sha1 ++ (b' ' ∷ size) in
    let behind_mode = e.kind ++ (b' ' ∷ behind_kind) in
    rw (
      split_once-append b'\t' (e.mode ++ (b' ' ∷ behind_mode)) e.filename
          (front-Lacks e b'\t' (omega arith) h),
      split_once-append b' ' e.mode behind_mode
          (Lacks-of_Visible b' ' e.mode (omega arith) h.mode_ok),
      split_once-append b' ' e.kind behind_kind
          (Lacks-of_Visible b' ' e.kind (omega arith) h.kind_ok),
      split_once-append b' ' e.sha1 size (Lacks-of_Visible b' ' e.sha1 (omega arith) h.sha1_ok),
      trim_space-padded e.padding e.size,
      parse_int-decimal e.size h.size_lt,
      tree_blob,
    )

within_limit-entry :
    (e : Entry) (ls : List Bytes)
    → IsEntry e
    → within_limit (λ l. l) (entry_line e ∷ ls) ≡ entry_line e ∷ within_limit (λ l. l) ls
unfolding within_limit
within_limit-entry e ls h =
    let fits : ltb (length (entry_line e)) max_scan_token_size ≡ true = ground (arith, h.fits) in
    rw fits

tree_blobs-line :
    (b : Bool) (line : Bytes) (lines : List Bytes) (t : TreeBlob) (r : List TreeBlob)
    → tree_blob line ≡ (if b then some t else none)
    → tree_blobs lines ≡ r
    → tree_blobs (line ∷ lines) ≡ (if b then t ∷ r else r)
unfolding tree_blobs
tree_blobs-line true line lines t r eq rest = rw (eq, rest, tree_blobs)
tree_blobs-line false line lines t r eq rest = rw (eq, rest, tree_blobs)

-- From the entries of a tree, each on a line that fits the scanner, with a mode, a type and a name of the object
-- that hold no white space, a size below 2^63 and a path that holds no null byte, the blobs below 1024
-- bytes are sent, with their paths, each as often as it stands in the tree.
pub parse_ls_tree-entries_text :
    (es : List Entry) → All IsEntry es → parse_ls_tree (entries_text es) ≡ small_entries es
unfolding parse_ls_tree scanned_null_lines tree_blobs raw_lines_from within_limit
parse_ls_tree-entries_text [] h = refl
parse_ls_tree-entries_text (e ∷ es) (he, h) =
    let rest = raw_lines_from 0 [] (entries_text es) in
    let null_free =
      Lacks-append 0 _ (b'\t' ∷ e.filename) (front-Lacks e 0 (omega arith) he)
        (omega arith, he.filename_ok) in
    let lines =
      ap (within_limit (λ l. l)) (raw_lines_from-line 0 (entry_line e) (entries_text es) null_free)
      ∙ within_limit-entry e rest he in
    ap tree_blobs lines
    ∙ tree_blobs-line (equal e.kind (codes "blob") && ltb e.size blob_size_cutoff) (entry_line e)
        (within_limit (λ l. l) rest) (record { sha1 = e.sha1; filename = e.filename })
        (small_entries es) (tree_blob-entry_line e he) (parse_ls_tree-entries_text es h)
