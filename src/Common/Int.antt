-- ===== src/Common/Int.antt =====
-- Go's `int` and `int64` where they may be negative, and `strconv.ParseInt`. An `int` has 64 bits.
use Prim.Native.Nat.{ℕ, zero, suc, ◌+◌, ◌-◌, ◌*◌, ◌/◌, ◌%◌, ◌^◌}
use mathlib.Core.Bool.{Bool, true, false, ◌&&◌}
use mathlib.Core.List.{[], ◌∷◌, ◌++◌}
use mathlib.Core.Option.{Option, none, some}
use expert_octo_doodle.Common.Tests.{leb, ltb, ◌==◌, if◌then◌else◌}
use expert_octo_doodle.Common.Texts.{Bytes}

-- `negsuc n` is -(n + 1).
pub data ℤ : Type 0 where
  pos : ℕ → ℤ
  negsuc : ℕ → ℤ

-- `-n`
abbrev pub negate : ℕ → ℤ
negate zero = pos 0
negate (suc k) = negsuc k

-- The value of a digit or letter; `none` for any other byte.
unfoldable pub digit_value : ℕ → Option ℕ
digit_value c =
    if leb b'0' c && leb c b'9'
    then some (c - b'0')
    else if leb b'a' c && leb c b'z'
    then some (c - b'a' + 10)
    else if leb b'A' c && leb c b'Z'
    then some (c - b'A' + 10)
    else none

-- A digit of the base.
unfoldable pub digit : ℕ → ℕ → Option ℕ
unfolding digit_value
digit base c = elim (digit_value c) [ none ↦ none | some d ↦ if ltb d base then some d else none ]

-- The number that digits spell behind `n`, with no bound.
unfoldable pub digits : ℕ → Bytes → ℕ → Option ℕ
digits base [] n = some n
digits base (c ∷ s) n = elim (digit base c) [ none ↦ none | some d ↦ digits base s (n * base + d) ]

-- The digits behind the sign; `none` if there is none.
unfoldable pub parse_uint : ℕ → Bytes → Option ℕ
parse_uint base [] = none
parse_uint base (c ∷ s) = digits base (c ∷ s) 0

-- A magnitude as a 64-bit signed number; `none` is a range error.
unfoldable pub to_int64 : Option ℕ → Option ℤ
to_int64 none = none
to_int64 (some n) = if ltb n (2 ^ 63) then some (pos n) else none

unfoldable pub to_negative : Option ℕ → Option ℤ
to_negative none = none
to_negative (some n) = if leb n (2 ^ 63) then some (negate n) else none

-- `strconv.ParseInt(s, base, 0)`, with `none` for any error.
unfoldable pub parse_int : ℕ → Bytes → Option ℤ
unfolding to_int64 to_negative
parse_int base [] = none
parse_int base (c ∷ s) =
    if c == b'-'
    then to_negative (parse_uint base s)
    else if c == b'+'
    then to_int64 (parse_uint base s)
    else to_int64 (parse_uint base (c ∷ s))

-- `%d` of a number that is not negative, with fuel above the number of its digits.
unfoldable pub decimal_within : ℕ → ℕ → Bytes
decimal_within zero n = []
decimal_within (suc f) n =
    let front = decimal_within f (n / 10) in
    if ltb n 10 then (b'0' + n) ∷ [] else front ++ (b'0' + n % 10) ∷ []

-- The code prints numbers below 2^63, which have 19 digits at most.
unfoldable pub decimal : ℕ → Bytes
unfolding decimal_within
decimal n = decimal_within 20 n

-- An `int` as the 64 bits that stand for it, and back.
abbrev pub to_bits : ℤ → ℕ
to_bits (pos n) = n % 2 ^ 64
to_bits (negsuc n) = 2 ^ 64 - 1 - n % 2 ^ 64

unfoldable pub from_bits : ℕ → ℤ
from_bits n = if ltb n (2 ^ 63) then pos n else negsuc (2 ^ 64 - 1 - n)

-- `a + b` and `-a`, which wrap around.
unfoldable pub add_int : ℤ → ℤ → ℤ
unfolding from_bits
add_int a b = from_bits ((to_bits a + to_bits b) % 2 ^ 64)

unfoldable pub negate_int : ℤ → ℤ
unfolding from_bits
negate_int a = from_bits ((2 ^ 64 - to_bits a) % 2 ^ 64)

-- `a > 0`
abbrev pub is_positive : ℤ → Bool
is_positive (pos zero) = false
is_positive (pos (suc n)) = true
is_positive (negsuc n) = false
