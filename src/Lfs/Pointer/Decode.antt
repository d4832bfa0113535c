-- ===== src/Lfs/Pointer/Decode.antt =====
-- lfs/pointer.go: pointer files, parsed. A range over the map of extension lines takes
-- them in the order of their first appearance.
use expert_octo_doodle.Common.{
  ℕ, zero, suc, ◌+◌, List, [], ◌∷◌, ◌++◌, Option, none, some, Bool, true, false, not, ◌&&◌, ◌||◌,
  if◌then◌else◌, leb, ◌==◌, Bytes, codes, equal, split_once, Map, lookup, insert, contains,
  trim_space, scan_lines, take, decimal, parse_int, ℤ, pos, is_in,
}
use expert_octo_doodle.Errors.{
  Fault, plain, formatted, is_error, is_bad_pointer_key, standardize_bad_pointer_error,
  new_not_a_pointer_error, new_bad_pointer_key_error,
}
use expert_octo_doodle.Lfs.Pointer.{
  v1_aliases, oid_type_sha256, PointerExtension, Pointer, new_pointer, new_pointer_extension,
}

-- A result, or a panic.
pub data Decoded {ℓ} (A : Type ℓ) : Type ℓ where
  ok : A → Decoded A
  err : Fault → Decoded A
  panic : Decoded A

infixl 5 ◌>>=◌
abbrev pub ◌>>=◌ {ℓ κ} : {A : Type ℓ} {B : Type κ} → Decoded A → (A → Decoded B) → Decoded B
ok a >>= f = f a
err e >>= f = err e
panic >>= f = panic

-- `verifyVersion`; a missing key reads as the empty text.
unfoldable pub verify_version : Bytes → Decoded (Unit {0})
verify_version [] = err (new_not_a_pointer_error (some (plain (codes "Missing version"))))
verify_version (c ∷ version) =
    if is_in v1_aliases (c ∷ version)
    then ok tt
    else err (plain (codes "Invalid version: " ++ (c ∷ version)))

abbrev pub is_alnum : ℕ → Bool
is_alnum c = (leb b'0' c && leb c b'9') || (leb b'a' c && leb c b'z') || (leb b'A' c && leb c b'Z')

-- `\A[[:alnum:]]{n}`: the text begins with `n` such bytes.
unfoldable pub begins_alnum : ℕ → Bytes → Bool
begins_alnum zero s = true
begins_alnum (suc n) [] = false
begins_alnum (suc n) (c ∷ s) = is_alnum c && begins_alnum n s

-- `parseOid`
unfoldable pub parse_oid : Bytes → Decoded Bytes
parse_oid value = elim (split_once b':' value) [
  | none ↦ err (plain (codes "Invalid Oid value: " ++ value))
  | some parts ↦
      if not (equal parts.0 oid_type_sha256)
      then err (plain (codes "Invalid Oid type: " ++ parts.0))
      else if not (begins_alnum 64 parts.1)
      then err (plain (codes "Invalid Oid: " ++ parts.1))
      else ok parts.1
]

-- `strconv.Atoi` and the test `err != nil || p < 0`, or the error given.
abbrev pub non_negative : Option ℤ → Fault → Decoded ℕ
non_negative (some (pos n)) e = ok n
non_negative _ e = err e

-- The rest of `parsePointerExtension` behind `strings.SplitN(key, "-", 3)`.
abbrev pub extension_of : Bytes → Bytes → Bytes → Bytes → Decoded PointerExtension
extension_of ext priority name value =
    if not (equal ext (codes "ext"))
    then err (plain (codes "Invalid extension value: " ++ value))
    else do
      p ← non_negative (parse_int 10 priority) (plain (codes "Invalid priority: " ++ priority))
      oid ← parse_oid value
      ok (new_pointer_extension name p oid)

-- `parsePointerExtension`
unfoldable pub parse_pointer_extension : Bytes → Bytes → Decoded PointerExtension
unfolding parse_oid
parse_pointer_extension key value = elim (split_once b'-' key) [
  | none ↦ err (plain (codes "Invalid extension value: " ++ value))
  | some first ↦ elim (split_once b'-' first.1) [
    | none ↦ err (plain (codes "Invalid extension value: " ++ value))
    | some second ↦ extension_of first.0 second.0 second.1 value
  ]
]

abbrev pub has_priority : ℕ → List ℕ → Bool
has_priority p [] = false
has_priority p (q ∷ m) = if q == p then true else has_priority p m

-- `validatePointerExtensions`, with the priorities seen so far.
unfoldable pub validate_from : List ℕ → List PointerExtension → Decoded (Unit {0})
validate_from m [] = ok tt
validate_from m (ext ∷ exts) =
    let rest = validate_from (ext.priority ∷ m) exts in
    if has_priority ext.priority m
    then err (formatted (codes "Duplicate priority found: %d") (decimal ext.priority ∷ []))
    else rest

-- `sort.Sort(ByPriority(extensions))`. The priorities differ, so any sort gives the same list.
unfoldable pub insert_by_priority : PointerExtension → List PointerExtension → List PointerExtension
insert_by_priority e [] = e ∷ []
insert_by_priority e (x ∷ xs) =
    if leb e.priority x.priority then e ∷ x ∷ xs else x ∷ insert_by_priority e xs

unfoldable pub sort_by_priority : List PointerExtension → List PointerExtension
unfolding insert_by_priority
sort_by_priority [] = []
sort_by_priority (e ∷ es) = insert_by_priority e (sort_by_priority es)

-- The state of the loop of `decodeKVData`: how many of `pointerKeys` were read, and the two maps.
pub record Lines : Type 0 where
  pub line : ℕ
  pub kvps : Map Bytes
  pub exts : Map Bytes

-- `pointerKeys[line]`, for a line below `len(pointerKeys)`
abbrev pub pointer_key : ℕ → Bytes
pointer_key zero = codes "version"
pointer_key (suc zero) = codes "oid"
pointer_key _ = codes "size"

abbrev pub is_word : ℕ → Bool
is_word c = is_alnum c || c == b'_'

-- `extRE`: `\Aext-\d{1}-\w+`
unfoldable pub ext_re : Bytes → Bool
ext_re (e ∷ x ∷ t ∷ d ∷ n ∷ d' ∷ w ∷ s) =
    equal (e ∷ x ∷ t ∷ d ∷ []) (codes "ext-") && leb b'0' n && leb n b'9' && d' == b'-' && is_word w
ext_re _ = false

-- A line that is not empty, split at its first space.
unfoldable pub decode_pair : Bytes → Bytes → Bytes → Lines → Decoded Lines
unfolding ext_re
decode_pair text key value s =
    if leb 3 s.line
    then err (formatted (codes "Extra line: %s") (text ∷ []))
    else if equal key (pointer_key s.line)
    then ok (record s { line = s.line + 1; kvps = insert key value s.kvps })
    else if ext_re key
    then ok (record s { exts = insert key value s.exts })
    else err (new_bad_pointer_key_error (pointer_key s.line) key)

-- One round of the loop.
unfoldable pub decode_line : Bytes → Lines → Decoded Lines
unfolding decode_pair
decode_line [] s = ok s
decode_line (c ∷ text) s = elim (split_once b' ' (c ∷ text)) [
  | none ↦ err (formatted (codes "Error reading line %d: %s") (decimal s.line ∷ (c ∷ text) ∷ []))
  | some parts ↦ decode_pair (c ∷ text) parts.0 parts.1 s
]

unfoldable pub decode_lines : List Bytes → Lines → Decoded Lines
unfolding decode_line
decode_lines [] s = ok s
decode_lines (text ∷ texts) s = do t ← decode_line text s; decode_lines texts t

-- `matcherRE`
abbrev pub matcher_re : Bytes → Bool
matcher_re text =
    contains text (codes "git-media")
    || contains text (codes "hawser")
    || contains text (codes "git-lfs")

abbrev pub no_lines : Lines
no_lines = record { line = 0; kvps = []; exts = [] }

-- `decodeKVData`. Its text is part of a buffer of 1024 bytes, so that no line is too long for the
-- `bufio.Scanner`.
unfoldable pub decode_kv_data : Bytes → Decoded Lines
unfolding decode_lines
decode_kv_data text =
    if not (matcher_re text)
    then err (new_not_a_pointer_error (some (plain (codes "invalid header"))))
    else decode_lines (scan_lines text) no_lines

-- `kvps[key]`, the empty text for a missing key
abbrev pub text_at : Bytes → Map Bytes → Bytes
text_at key m = elim (lookup key m) [ none ↦ [] | some v ↦ v ]

-- The loop over the map of extension lines.
unfoldable pub parse_extensions : Map Bytes → Decoded (List PointerExtension)
unfolding parse_pointer_extension
parse_extensions [] = ok []
parse_extensions (kv ∷ exts) = do
  ext ← parse_pointer_extension kv.0 kv.1
  rest ← parse_extensions exts
  ok (ext ∷ rest)

-- `StandardizeBadPointerError` on the errors that it is called for.
abbrev pub standardized : Decoded Lines → Decoded Lines
standardized (err e) =
    if is_error is_bad_pointer_key e
    then elim (standardize_bad_pointer_error e) [ none ↦ panic | some x ↦ err x ]
    else err e
standardized r = r

abbrev pub required : Option Bytes → Fault → Decoded Bytes
required none e = err e
required (some v) e = ok v

-- `decodeKV`
unfoldable pub decode_kv : Bytes → Decoded Pointer
unfolding decode_kv_data verify_version parse_oid parse_extensions validate_from sort_by_priority
decode_kv text = do
  s ← standardized (decode_kv_data text)
  verify_version (text_at (codes "version") s.kvps) >>= λ _. do
    value ← required (lookup (codes "oid") s.kvps) (plain (codes "Invalid Oid"))
    oid ← parse_oid value
    size ←
        non_negative (parse_int 10 (text_at (codes "size") s.kvps))
          (formatted (codes "Invalid size: %q") (text_at (codes "size") s.kvps ∷ []))
    exts ← parse_extensions s.exts
    validate_from [] exts >>= λ _. ok (new_pointer oid size (sort_by_priority exts))

abbrev pub blob_size_cutoff : ℕ
blob_size_cutoff = 1024

-- `DecodeFrom`, over the bytes that one `Read` into a buffer of `blobSizeCutoff` gives, and the error
-- of that `Read` unless it is none or `io.EOF`.
unfoldable pub decode_from : Bytes → Option Fault → Bytes × Decoded Pointer
unfolding decode_kv
decode_from output none = (output, decode_kv (trim_space output))
decode_from output (some e) = (output, err e)

-- `DecodePointer` on a `bytes.Buffer` of this content, of which one `Read` takes what fits.
abbrev pub decode_pointer : Bytes → Decoded Pointer
decode_pointer content = (decode_from (take blob_size_cutoff content) none).1
