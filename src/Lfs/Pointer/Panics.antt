-- ===== src/Lfs/Pointer/Panics.antt =====
-- lfs/pointer.go: the parser never panics.
use expert_octo_doodle.Common.{
  ℕ, List, [], ◌∷◌, ◌++◌, Option, none, some, Bool, true, false, Bytes, codes, split_once, equal, ℤ,
  pos, negsuc, Map, lookup, trim_space, scan_lines, parse_int, ◌≡◌, refl, arith, Option-cases,
  Bool-cases, inl, inr, take,
}
use expert_octo_doodle.Errors.{
  Fault, plain, formatted, new_wrapped_error, is_error, is_error_within,
  standardize_bad_pointer_error,
}
use expert_octo_doodle.Lfs.Pointer.{PointerExtension}
use expert_octo_doodle.Lfs.Pointer.Decode.{
  Decoded, ok, err, panic, ◌>>=◌, Lines, decode_pair, decode_line, decode_lines, decode_kv_data,
  standardized, verify_version, parse_oid, parse_pointer_extension, parse_extensions, validate_from,
  required, non_negative, extension_of, decode_kv, decode_from, decode_pointer, text_at, matcher_re,
  no_lines, blob_size_cutoff,
}

abbrev pub returns {ℓ} : {A : Type ℓ} → Decoded A → Bool
returns (ok a) = true
returns (err e) = true
returns panic = false

returns_bind {ℓ κ} :
    {A : Type ℓ} {B : Type κ} (d : Decoded A) (f : A → Decoded B)
    → returns d ≡ true
    → ((a : A) → returns (f a) ≡ true)
    → returns (d >>= f) ≡ true
returns_bind (ok a) f h hf = hf a
returns_bind (err e) f h hf = refl
returns_bind panic f h hf = h

-- The errors of the loop over the lines are ones that `StandardizeBadPointerError` can take.
decode_pair-standardized :
    (text key value : Bytes) (s : Lines)
    → returns (standardized (decode_pair text key value s)) ≡ true
unfolding decode_pair is_error is_error_within standardize_bad_pointer_error
decode_pair-standardized text key value s = ground arith

decode_line-standardized :
    (text : Bytes) (s : Lines) → returns (standardized (decode_line text s)) ≡ true
unfolding decode_line is_error is_error_within
decode_line-standardized [] s = refl
decode_line-standardized (c ∷ text) s = elim (Option-cases (split_once b' ' (c ∷ text))) [
  | inl bare ↦ rw (bare, decode_line, is_error, is_error_within)
  | inr (parts, cut) ↦ rw (cut, decode_line) (decode_pair-standardized (c ∷ text) parts.0 parts.1 s)
]

decode_lines-standardized :
    (texts : List Bytes) (s : Lines) → returns (standardized (decode_lines texts s)) ≡ true
unfolding decode_lines
decode_lines-standardized [] s = refl
decode_lines-standardized (text ∷ texts) s =
    step (decode_line text s) (decode_lines texts) (decode_line-standardized text s)
      (λ t. decode_lines-standardized texts t)
  where
    step :
        (d : Decoded Lines) (f : Lines → Decoded Lines)
        → returns (standardized d) ≡ true
        → ((t : Lines) → returns (standardized (f t)) ≡ true)
        → returns (standardized (d >>= f)) ≡ true
    step (ok t) f h hf = hf t
    step (err e) f h hf = h
    step panic f h hf = cc

decode_kv_data-standardized : (text : Bytes) → returns (standardized (decode_kv_data text)) ≡ true
unfolding decode_kv_data is_error is_error_within new_wrapped_error
decode_kv_data-standardized text = elim (Bool-cases (matcher_re text)) [
  | inl like ↦ rw (like, decode_kv_data) (decode_lines-standardized (scan_lines text) no_lines)
  | inr other ↦ rw (other, decode_kv_data, is_error, is_error_within)
]

verify_version-returns : (version : Bytes) → returns (verify_version version) ≡ true
unfolding verify_version
verify_version-returns [] = refl
verify_version-returns (c ∷ version) = ground arith

parse_oid-returns : (value : Bytes) → returns (parse_oid value) ≡ true
unfolding parse_oid
parse_oid-returns value = ground arith

non_negative-returns : (n : Option ℤ) (e : Fault) → returns (non_negative n e) ≡ true
non_negative-returns none e = refl
non_negative-returns (some (pos n)) e = refl
non_negative-returns (some (negsuc n)) e = refl

required-returns : (o : Option Bytes) (e : Fault) → returns (required o e) ≡ true
required-returns none e = refl
required-returns (some v) e = refl

extension_of-returns :
    (ext priority name value : Bytes) → returns (extension_of ext priority name value) ≡ true
extension_of-returns ext priority name value = elim (Bool-cases (equal ext (codes "ext"))) [
  | inr other ↦ rw other
  | inl own ↦ rw own (
      returns_bind
        (non_negative (parse_int 10 priority) (plain (codes "Invalid priority: " ++ priority))) _
        (non_negative-returns (parse_int 10 priority) _)
        (λ p. returns_bind (parse_oid value) _ (parse_oid-returns value) (λ oid. refl)))
]

parse_pointer_extension-returns :
    (key value : Bytes) → returns (parse_pointer_extension key value) ≡ true
unfolding parse_pointer_extension
parse_pointer_extension-returns key value = elim (Option-cases (split_once b'-' key)) [
  | inl bare ↦ rw (bare, parse_pointer_extension)
  | inr (first, cut) ↦ elim (Option-cases (split_once b'-' first.1)) [
    | inl bare ↦ rw (cut, bare, parse_pointer_extension)
    | inr (second, cut') ↦
        rw (cut, cut', parse_pointer_extension)
          (extension_of-returns first.0 second.0 second.1 value)
  ]
]

parse_extensions-returns : (exts : Map Bytes) → returns (parse_extensions exts) ≡ true
unfolding parse_extensions
parse_extensions-returns [] = refl
parse_extensions-returns (kv ∷ exts) =
    returns_bind (parse_pointer_extension kv.0 kv.1) _ (parse_pointer_extension-returns kv.0 kv.1)
      (λ ext. returns_bind (parse_extensions exts) _ (parse_extensions-returns exts) (λ rest. refl))

validate_from-returns :
    (m : List ℕ) (exts : List PointerExtension) → returns (validate_from m exts) ≡ true
unfolding validate_from
validate_from-returns m [] = refl
validate_from-returns m (ext ∷ exts) = ground (arith, validate_from-returns (ext.priority ∷ m) exts)

decode_kv-returns : (text : Bytes) → returns (decode_kv text) ≡ true
unfolding decode_kv
decode_kv-returns text =
    returns_bind (standardized (decode_kv_data text)) _ (decode_kv_data-standardized text) (λ s.
      returns_bind (verify_version (text_at (codes "version") s.kvps)) _
        (verify_version-returns (text_at (codes "version") s.kvps))
        (λ v.
          returns_bind (required (lookup (codes "oid") s.kvps) (plain (codes "Invalid Oid"))) _
            (required-returns (lookup (codes "oid") s.kvps) (plain (codes "Invalid Oid")))
            (λ value. returns_bind (parse_oid value) _ (parse_oid-returns value) (λ oid.
              returns_bind
                (non_negative (parse_int 10 (text_at (codes "size") s.kvps))
                  (formatted (codes "Invalid size: %q") (text_at (codes "size") s.kvps ∷ [])))
                _ (non_negative-returns (parse_int 10 (text_at (codes "size") s.kvps)) _)
                (λ size.
                  returns_bind (parse_extensions s.exts) _ (parse_extensions-returns s.exts)
                    (λ exts.
                      returns_bind (validate_from [] exts) _ (validate_from-returns [] exts)
                        (λ u. refl)))))))

-- `DecodePointer` gives a pointer or an error for every content, and never panics.
pub decode_pointer-returns : (content : Bytes) → returns (decode_pointer content) ≡ true
unfolding decode_from
decode_pointer-returns content = decode_kv-returns (trim_space (take blob_size_cutoff content))
