-- ===== src/Git/Version/Ordered.antt =====
-- Versions of three numbers are compared by their first number, then the second, then the third.
use expert_octo_doodle.Common.{
  ℕ, ◌+◌, ◌*◌, ◌<◌, [], ◌∷◌, ◌++◌, Bool, true, false, ◌&&◌, ◌||◌, ltb, leb, ◌==◌, Bytes, decimal,
  parse_int, ◌≡◌, ◌≢◌, refl, sym, ap, ◌∙◌, arith, All, List-cases, inl, inr,
}
use mathlib.Core.Path.{subst}
use expert_octo_doodle.Common.Decimal.{IsDigit, decimal-IsDigit, decimal-ne-nil, parse_int-decimal}
use expert_octo_doodle.Git.Version.{
  is_digit, span_digits, to_digit, number, atoi_of, behind_byte, group, version_number,
  is_version_at_least,
}

-- A text that does not begin with a digit.
abbrev pub IsBreak : Bytes → Type 0
IsBreak [] = Unit
IsBreak (c ∷ s) = is_digit c ≡ false

abbrev pub LacksDigits : Bytes → Type 0
LacksDigits = All λ c. is_digit c ≡ false

digit_true : (c : ℕ) → IsDigit c → is_digit c ≡ true
digit_true c h = ground arith

span_digits-append :
    (ds rest : Bytes) → All IsDigit ds → IsBreak rest → span_digits (ds ++ rest) ≡ (ds, rest)
unfolding span_digits
span_digits-append [] [] h b = refl
span_digits-append [] (c ∷ rest) h b = rw b
span_digits-append (d ∷ ds) rest (hd, h) b = rw (digit_true d hd, span_digits-append ds rest h b)

to_digit-append :
    (front : Bytes) (d : ℕ) (s : Bytes)
    → LacksDigits front
    → IsDigit d
    → to_digit (front ++ d ∷ s) ≡ d ∷ s
unfolding to_digit
to_digit-append [] d s h hd = rw (digit_true d hd)
to_digit-append (c ∷ front) d s (hc, h) hd = rw hc (to_digit-append front d s h hd)

-- The digits of a number, a version's part.
number-decimal : (n : ℕ) → n < 1000 → number (decimal n) ≡ n
unfolding number
number-decimal n lt = elim (List-cases (decimal n)) [
  | inl empty ↦ absurd (decimal-ne-nil n empty)
  | inr (c, ds, digits) ↦
      ap number digits
      ∙ ap atoi_of (ap (parse_int 10) (sym digits) ∙ parse_int-decimal n (omega arith))
]

behind_byte-some :
    (c : ℕ) (s ds rest : Bytes) → c ≢ b'\n' → ds ≢ [] → behind_byte c s (ds, rest) ≡ (ds, rest)
behind_byte-some c s [] rest ne some_digit = absurd (some_digit refl)
behind_byte-some c s (d ∷ ds) rest ne some_digit = ground arith

group-decimal :
    (c n : ℕ) (rest : Bytes)
    → c ≢ b'\n'
    → IsBreak rest
    → group (c ∷ decimal n ++ rest) ≡ (decimal n, rest)
unfolding group
group-decimal c n rest ne b =
    ap (behind_byte c (decimal n ++ rest))
      (span_digits-append (decimal n) rest (decimal-IsDigit n) b)
    ∙ behind_byte-some c (decimal n ++ rest) (decimal n) rest ne (decimal-ne-nil n)

to_digit-decimal :
    (front : Bytes) (n : ℕ) (s : Bytes)
    → LacksDigits front
    → to_digit (front ++ (decimal n ++ s)) ≡ decimal n ++ s
to_digit-decimal front n s h = elim (List-cases (decimal n)) [
  | inl empty ↦ absurd (decimal-ne-nil n empty)
  | inr (d, ds, digits) ↦
      rw digits
        (to_digit-append front d (ds ++ s) h (subst (All IsDigit) digits (decimal-IsDigit n)).0)
]

-- Text without digits, three numbers with dots, and what does not begin with a digit.
abbrev pub version_text : Bytes → ℕ → ℕ → ℕ → Bytes → Bytes
version_text front a b c rest =
    front ++ (decimal a ++ (b'.' ∷ decimal b ++ (b'.' ∷ decimal c ++ rest)))

version_number-text :
    (front : Bytes) (a b c : ℕ) (rest : Bytes)
    → LacksDigits front
    → IsBreak rest
    → a < 1000
    → b < 1000
    → c < 1000
    → version_number (version_text front a b c rest) ≡ a * 1000000 + b * 1000 + c
unfolding version_number
version_number-text front a b c rest h brk la lb lc =
    let behind_minor = b'.' ∷ decimal c ++ rest in
    let behind_major = b'.' ∷ decimal b ++ behind_minor in
    rw
      (
        to_digit-decimal front a behind_major h,
        span_digits-append (decimal a) behind_major (decimal-IsDigit a) refl,
        group-decimal b'.' b behind_minor (omega arith) refl,
        group-decimal b'.' c rest (omega arith) brk,
        number-decimal a la,
        number-decimal b lb,
        number-decimal c lc,
      )
      (omega arith)

-- A version as a triple that is at least another one.
abbrev pub at_least : ℕ → ℕ → ℕ → ℕ → ℕ → ℕ → Bool
at_least a b c x y z = ltb x a || (x == a && (ltb y b || (y == b && leb z c)))

-- For versions with three numbers below 1000, with or without text in front of them, such as `git version `, and any end that
-- begins with no digit, the comparison is that of the numbers in their order.
pub is_version_at_least_lem :
    (front other : Bytes) (a b c x y z : ℕ) (rest end : Bytes)
    → LacksDigits front
    → LacksDigits other
    → IsBreak rest
    → IsBreak end
    → All (λ n. n < 1000) (a ∷ b ∷ c ∷ x ∷ y ∷ z ∷ [])
    → is_version_at_least (version_text front a b c rest) (version_text other x y z end)
      ≡ at_least a b c x y z
unfolding is_version_at_least
is_version_at_least_lem front other a b c x y z rest end hf ho hr he
      (la, (lb, (lc, (lx, (ly, (lz, small)))))) =
    rw
      (
        version_number-text front a b c rest hf hr la lb lc,
        version_number-text other x y z end ho he lx ly lz,
      )
      (ground arith)
