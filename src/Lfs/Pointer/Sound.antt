-- ===== src/Lfs/Pointer/Sound.antt =====
-- What a parsed pointer is known to be, whatever the text.
use expert_octo_doodle.Common.{
  ℕ, zero, suc, [], ◌∷◌, to_int64, to_negative, parse_uint, ◌<◌, ◌^◌, Option, none, some, true,
  Bytes, split_once, parse_int, pos, negsuc, ◌≡◌, arith, Option-cases, inl, inr,
}
use expert_octo_doodle.Errors.{Fault}
use expert_octo_doodle.Lfs.Pointer.{Pointer, latest, oid_type_sha256}
use expert_octo_doodle.Lfs.Pointer.Decode.{ok, parse_oid, begins_alnum, decode_kv, non_negative}

-- An oid that is accepted begins with 64 letters and digits.
parse_oid-begins_alnum : (value oid : Bytes) → parse_oid value ≡ ok oid → begins_alnum 64 oid ≡ true
unfolding parse_oid
parse_oid-begins_alnum value oid h = elim (Option-cases (split_once b':' value)) [
  | inl e ↦ cc (rw (e, parse_oid) at h)
  | inr (parts, e) ↦ let h' = rw (e, parse_oid) at h in ground arith
]

to_int64_lt : (m : Option ℕ) (n : ℕ) → to_int64 m ≡ some (pos n) → n < 2 ^ 63
unfolding to_int64
to_int64_lt none n h = cc
to_int64_lt (some k) n h = ground arith

to_negative_lt : (m : Option ℕ) (n : ℕ) → to_negative m ≡ some (pos n) → n < 2 ^ 63
unfolding to_negative
to_negative_lt none n h = cc
to_negative_lt (some zero) n h = ground arith
to_negative_lt (some (suc k)) n h = ground arith

-- A number that `strconv.ParseInt` gives fits an int64.
parse_int_lt : (s : Bytes) (n : ℕ) → parse_int 10 s ≡ some (pos n) → n < 2 ^ 63
unfolding parse_int
parse_int_lt [] n h = cc
parse_int_lt (c ∷ s) n h = ground (
  arith,
  to_negative_lt (parse_uint 10 s) n,
  to_int64_lt (parse_uint 10 s) n,
  to_int64_lt (parse_uint 10 (c ∷ s)) n,
)

non_negative_lt :
    (s : Bytes) (e : Fault) (n : ℕ) → non_negative (parse_int 10 s) e ≡ ok n → n < 2 ^ 63
non_negative_lt s e n h = elim (Option-cases (parse_int 10 s)) [
  | inl bad ↦ cc (rw bad at h)
  | inr (pos k, good) ↦ let h' = rw good at h in let lt = parse_int_lt s k good in ground arith
  | inr (negsuc k, good) ↦ cc (rw good at h)
]

-- A text that `decodeKV` accepts gives a pointer of the latest version and of type sha256, whose oid
-- begins with 64 letters and digits and whose size is below 2^63.
pub decode_kv_sound :
    (text : Bytes) (p : Pointer)
    → decode_kv text ≡ ok p
    → (p.version ≡ latest)
      × (p.oid_type ≡ oid_type_sha256)
      × (begins_alnum 64 p.oid ≡ true)
      × (p.size < 2 ^ 63)
unfolding decode_kv
decode_kv_sound text p h = grind (arith, parse_oid-begins_alnum, non_negative_lt)
