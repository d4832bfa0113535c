-- ===== src/Lfs/Pointer/Extensions.antt =====
-- The extensions of those lines, parsed, checked and sorted.
use expert_octo_doodle.Common.{
  ℕ, ◌+◌, ◌<◌, List, [], ◌∷◌, ◌++◌, false, Bytes, codes, equal, split_once-append, Lacks, decimal,
  ◌≡◌, refl, sym, ap, arith, All,
}
use expert_octo_doodle.Common.Decimal.{decimal_digit, parse_int-decimal}
use expert_octo_doodle.Lfs.Pointer.{PointerExtension}
use expert_octo_doodle.Lfs.Pointer.Decode.{
  ok, parse_pointer_extension, validate_from, has_priority, insert_by_priority, sort_by_priority,
  parse_extensions,
}
use expert_octo_doodle.Lfs.Pointer.WellFormed.{
  Increasing, IsExtension, ext_entries, ext_key, oid_value, parse_oid-oid_value,
}

-- What is behind the lines: the extensions in their order.
pub parse_ext :
    (e : PointerExtension)
    → IsExtension e
    → parse_pointer_extension (ext_key e) (oid_value e.oid) ≡ ok e
unfolding parse_pointer_extension
parse_ext e h =
    rw
      (
        split_once-append b'-' (codes "ext") (decimal e.priority ++ (b'-' ∷ e.name)) (omega arith),
        parse_pointer_extension,
      )
      (rw
        (split_once-append b'-' (decimal e.priority) e.name
          (dash_free (decimal e.priority) one_digit))
        (unfold equal in
          rw (parse_int-decimal e.priority (omega arith), parse_oid-oid_value e.oid h.oid_ok.0)
            (ap (λ t. ok (record e { oid_type = t })) (sym h.oid_type_is))))
  where
    one_digit : decimal e.priority ≡ (b'0' + e.priority) ∷ []
    one_digit = decimal_digit e.priority h.priority_lt

    dash_free : (d : Bytes) → d ≡ (b'0' + e.priority) ∷ [] → Lacks b'-' d
    dash_free d is_one = rw is_one (omega arith)

pub parse_exts :
    (es : List PointerExtension) → All IsExtension es → parse_extensions (ext_entries es) ≡ ok es
unfolding parse_extensions
parse_exts [] h = refl
parse_exts (e ∷ es) (he, h) = rw (parse_ext e he) (rw (parse_exts es h))

pub still_new :
    (m : List ℕ) (e : PointerExtension) (es : List PointerExtension)
    → All (λ x. e.priority < x.priority) es
    → All (λ x. has_priority x.priority m ≡ false) es
    → All (λ x. has_priority x.priority (e.priority ∷ m) ≡ false) es
still_new m e [] lt new = tt
still_new m e (x ∷ es) (lt, lts) (one, new) = (ground arith, still_new m e es lts new)

pub validate-Increasing :
    (m : List ℕ) (es : List PointerExtension)
    → Increasing es
    → All (λ x. has_priority x.priority m ≡ false) es
    → validate_from m es ≡ ok tt
unfolding validate_from
validate-Increasing m [] inc new = refl
validate-Increasing m (e ∷ es) (lt, inc) (one, new) =
    rw one (validate-Increasing (e.priority ∷ m) es inc (still_new m e es lt new))

pub sort-Increasing : (es : List PointerExtension) → Increasing es → sort_by_priority es ≡ es
unfolding sort_by_priority
sort-Increasing [] inc = refl
sort-Increasing (e ∷ es) (lt, inc) = rw (sort-Increasing es inc) (first e es lt)
  where
    first :
        (e : PointerExtension) (es : List PointerExtension)
        → All (λ x. e.priority < x.priority) es
        → insert_by_priority e es ≡ e ∷ es
    first e [] lt = refl
    first e (x ∷ es) (lt, lts) = ground arith
