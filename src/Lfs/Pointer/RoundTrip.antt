-- ===== src/Lfs/Pointer/RoundTrip.antt =====
-- A well-formed pointer is read back from its file.
use expert_octo_doodle.Common.{
  ◌≤◌, List, [], ◌∷◌, ◌++◌, Bool, true, false, ◌||◌, Bytes, codes, equal, split_once, Map, lookup,
  insert, contains, trim_space, decimal, ◌≡◌, refl, sym, ap, ◌∙◌, arith, All, length, take-eq_self,
}
use expert_octo_doodle.Common.Decimal.{parse_int-decimal}
use expert_octo_doodle.Lfs.Pointer.{Pointer, PointerExtension, new_pointer, latest, encoded}
use expert_octo_doodle.Lfs.Pointer.Decode.{
  ok, has_priority, decode_line, decode_lines, decode_kv_data, no_lines, decode_kv, matcher_re,
  decode_pointer, decode_from, blob_size_cutoff,
}
use expert_octo_doodle.Lfs.Pointer.WellFormed.{
  IsPointer, ext_entries, ext_key, ext_texts, oid_value, parse_oid-oid_value,
}
use expert_octo_doodle.Lfs.Pointer.ExtensionLines.{IsNew, decode_lines-exts}
use expert_octo_doodle.Lfs.Pointer.Extensions.{parse_exts, sort-Increasing, validate-Increasing}
use expert_octo_doodle.Lfs.Pointer.Layout.{
  first_line, oid_line, scan_lines-trimmed, size_line, trim_space-encoded, trimmed,
}

-- The loop of `decodeKVData` over those lines.
abbrev kvps_of : Pointer → Map Bytes
kvps_of p =
    (codes "version", latest) ∷ (codes "oid", oid_value p.oid) ∷ (codes "size", decimal p.size) ∷ []

decode_tail :
    (p : Pointer) (m : Map Bytes)
    → decode_lines
        (oid_line p ∷ size_line p ∷ [])
        (record { line = 1; kvps = (codes "version", latest) ∷ []; exts = m })
      ≡ ok (record { line = 3; kvps = kvps_of p; exts = m })
unfolding decode_lines decode_line split_once equal insert
decode_tail p m = refl

decode_first :
    decode_line first_line no_lines
    ≡ ok (record { line = 1; kvps = (codes "version", latest) ∷ []; exts = [] })
unfolding decode_line split_once equal insert
decode_first = refl

matcher_re-git_lfs :
    (text : Bytes) → contains text (codes "git-lfs") ≡ true → matcher_re text ≡ true
matcher_re-git_lfs text h =
    rw h (any_third (contains text (codes "git-media")) (contains text (codes "hawser")))
  where
    any_third : (a b : Bool) → (a || b || true) ≡ true
    any_third a b = ground arith

contains-first_line : (rest : Bytes) → contains (first_line ++ rest) (codes "git-lfs") ≡ true
unfolding contains
contains-first_line rest = refl

none-IsNew : (es : List PointerExtension) → All (λ x. IsNew (ext_key x) []) es
none-IsNew [] = tt
none-IsNew (e ∷ es) = (tt, none-IsNew es)

decode_kv_data-trimmed :
    (p : Pointer)
    → IsPointer p
    → decode_kv_data (trimmed p)
      ≡ ok (record { line = 3; kvps = kvps_of p; exts = ext_entries p.extensions })
decode_kv_data-trimmed p h =
    unfold decode_kv_data in
    rw (matcher_re-git_lfs (trimmed p) (contains-first_line _))
      (rw (scan_lines-trimmed p h) (lines p h))
  where
    lines :
        (p : Pointer)
        → IsPointer p
        → decode_lines
            (first_line ∷ ext_texts p.extensions (oid_line p ∷ size_line p ∷ []))
            no_lines
          ≡ ok (record { line = 3; kvps = kvps_of p; exts = ext_entries p.extensions })
    lines p h =
        unfold decode_lines in
        rw decode_first (
          decode_lines-exts p.extensions (oid_line p ∷ size_line p ∷ [])
            ((codes "version", latest) ∷ []) [] h.are_extensions h.increasing
            (none-IsNew p.extensions)
          ∙ decode_tail p (ext_entries p.extensions))

no_priorities : (es : List PointerExtension) → All (λ x. has_priority x.priority [] ≡ false) es
no_priorities [] = tt
no_priorities (e ∷ es) = (refl, no_priorities es)

pointer_eta : (p : Pointer) → IsPointer p → new_pointer p.oid p.size p.extensions ≡ p
pointer_eta p h =
    ap (λ v. record (new_pointer p.oid p.size p.extensions) { version = v }) (sym h.version_is)
    ∙ ap (λ t. record p { oid_type = t }) (sym h.oid_type_is)

decode_kv-trimmed : (p : Pointer) → IsPointer p → decode_kv (trimmed p) ≡ ok p
decode_kv-trimmed p h =
    unfold decode_kv lookup equal in
    rw (decode_kv_data-trimmed p h) (
      rw (parse_oid-oid_value p.oid h.oid_ok.0) (
        rw (parse_int-decimal p.size h.size_lt) (
          rw (parse_exts p.extensions h.are_extensions) (
            rw
              (
                validate-Increasing [] p.extensions h.increasing (no_priorities p.extensions),
                sort-Increasing p.extensions h.increasing,
              )
              (ap ok (pointer_eta p h))))))

-- A well-formed pointer that is encoded, trimmed of white space and parsed is the same pointer.
pub decode-encoded : (p : Pointer) → IsPointer p → decode_kv (trim_space (encoded p)) ≡ ok p
decode-encoded p h = rw (trim_space-encoded p h) (decode_kv-trimmed p h)

-- `DecodePointer` gives back the pointer whose encoded text it reads, where that text has at most 1024
-- bytes and the pointer is well formed: the latest version, a size from 1 to 2^63 - 1, oids of type
-- sha256 that begin with 64 letters and digits and have no white space, and extensions of increasing
-- priorities below 10 and with a name that begins with a letter, a digit or `_` and has no white space.
pub decode_pointer-encoded :
    (p : Pointer)
    → IsPointer p
    → length (encoded p) ≤ blob_size_cutoff
    → decode_pointer (encoded p) ≡ ok p
unfolding decode_from
decode_pointer-encoded p h le =
    rw (take-eq_self blob_size_cutoff (encoded p) le) (decode-encoded p h)
