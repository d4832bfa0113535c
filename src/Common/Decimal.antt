-- ===== src/Common/Decimal.antt =====
-- Printing a number in decimal and reading it back.
use native.Mathlib.Nat.{pow-suc}
use Prim.Native.Nat.{ℕ, zero, suc, ◌+◌, ◌*◌, ◌/◌, ◌%◌, ◌^◌, ◌≤◌, ◌<◌}
use mathlib.Core.List.{[], ◌∷◌, ◌++◌, concat-ne-nil}
use mathlib.Core.Logic.{◌≢◌, inl, inr}
use mathlib.Core.Option.{some}
use mathlib.Core.Path.{◌≡◌, refl, ◌∙◌}
use native.Mathlib.Omega.{arith}
use expert_octo_doodle.Common.Tests.{ltb, ltb→lt, lt→ltb, Option-cases, Bool-cases}
use expert_octo_doodle.Common.Lists.{All, All-append}
use expert_octo_doodle.Common.Texts.{Bytes}
use expert_octo_doodle.Common.Int.{
  digit, digits, parse_uint, to_int64, parse_int, pos, decimal, decimal_within,
}

abbrev pub IsDigit : ℕ → Type 0
IsDigit c = (b'0' ≤ c) × (c ≤ b'9')

digit_ten : (d : ℕ) → d < 10 → digit 10 (b'0' + d) ≡ some d
unfolding digit
digit_ten d h = ground arith

digits-concat :
    (s : Bytes) (n m d : ℕ)
    → digits 10 s n ≡ some m
    → d < 10
    → digits 10 (s ++ (b'0' + d) ∷ []) n ≡ some (m * 10 + d)
unfolding digits
digits-concat [] n m d h lt = rw (digit_ten d lt, digits) (ground arith)
digits-concat (c ∷ s) n m d h lt = elim (Option-cases (digit 10 c)) [
  | inl bad ↦ cc (rw (bad, digits) at h)
  | inr (x, good) ↦ rw (good, digits) (digits-concat s (n * 10 + x) m d (rw (good, digits) at h) lt)
]

within-IsDigit : (f n : ℕ) → All IsDigit (decimal_within f n)
unfolding decimal_within
within-IsDigit zero n = tt
within-IsDigit (suc f) n = elim (Bool-cases (ltb n 10)) [
  | inl one ↦ rw one (ground arith)
  | inr more ↦
      rw more
        (All-append IsDigit (decimal_within f (n / 10)) _ (within-IsDigit f (n / 10)) (omega arith))
]

one_digit : (n : ℕ) → n < 10 → digits 10 ((b'0' + n) ∷ []) 0 ≡ some n
unfolding digits
one_digit n h = rw (digit_ten n h, digits) (ground arith)

within-digits : (f n : ℕ) → n < 10 ^ suc f → digits 10 (decimal_within (suc f) n) 0 ≡ some n
unfolding decimal_within
within-digits zero n h = rw (lt→ltb n 10 h) (one_digit n h)
within-digits (suc f) n h = elim (Bool-cases (ltb n 10)) [
  | inl one ↦ rw one (one_digit n (ltb→lt n 10 one))
  | inr more ↦
      let small : n / 10 < 10 ^ suc f = omega (arith, pow-suc 10 (suc f)) in
      let whole : n / 10 * 10 + n % 10 ≡ n = omega arith in
      rw more (
        digits-concat (decimal_within (suc f) (n / 10)) 0 (n / 10) (n % 10)
          (within-digits f (n / 10) small) (omega arith)
        ∙ rw whole)
]

decimal-digits : (n : ℕ) → n < 2 ^ 63 → digits 10 (decimal n) 0 ≡ some n
unfolding decimal
decimal-digits n h = within-digits 19 n (omega arith)

parse_int_of_digits :
    (s : Bytes) (n : ℕ)
    → All IsDigit s
    → s ≢ []
    → digits 10 s 0 ≡ some n
    → n < 2 ^ 63
    → parse_int 10 s ≡ some (pos n)
unfolding parse_int parse_uint to_int64
parse_int_of_digits [] n h ne d lt = absurd (ne refl)
parse_int_of_digits (c ∷ s) n (hc, h) ne d lt = ground (arith, d)

within-ne-nil : (f n : ℕ) → decimal_within (suc f) n ≢ []
unfolding decimal_within
within-ne-nil f n = elim (Bool-cases (ltb n 10)) [
  | inl one ↦ rw one (λ p. cc)
  | inr more ↦ rw more (concat-ne-nil (b'0' + n % 10) (decimal_within f (n / 10)))
]

pub decimal-ne-nil : (n : ℕ) → decimal n ≢ []
unfolding decimal
decimal-ne-nil n = within-ne-nil 19 n

-- A digit prints as itself.
pub decimal_digit : (n : ℕ) → n < 10 → decimal n ≡ (b'0' + n) ∷ []
unfolding decimal
decimal_digit n h = rw (lt→ltb n 10 h)

pub decimal-IsDigit : (n : ℕ) → All IsDigit (decimal n)
unfolding decimal
decimal-IsDigit n = within-IsDigit 20 n

-- A number that fits an `int64` is read back from its decimal print.
pub parse_int-decimal : (n : ℕ) → n < 2 ^ 63 → parse_int 10 (decimal n) ≡ some (pos n)
parse_int-decimal n h =
    parse_int_of_digits (decimal n) n (decimal-IsDigit n) (decimal-ne-nil n) (decimal-digits n h) h
