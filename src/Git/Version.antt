-- ===== src/Git/Version.antt =====
-- git/git.go: `IsVersionAtLeast`, with its regular expression written out: the first run of digits, and up to two more, each
-- behind one byte that is no newline. (A byte is a character, as in the versions that git prints.)
pub mod Ordered
use expert_octo_doodle.Common.{
  ℕ, ◌+◌, ◌-◌, ◌*◌, ◌%◌, ◌^◌, List, [], ◌∷◌, Option, none, some, Bool, true, false, not, ◌&&◌,
  if◌then◌else◌, leb, ◌==◌, Bytes, ℤ, pos, negsuc, parse_int,
}

abbrev pub is_digit : ℕ → Bool
is_digit c = leb b'0' c && leb c b'9'

-- `\d*` and what is behind it.
unfoldable pub span_digits : Bytes → Bytes × Bytes
span_digits [] = ([], [])
span_digits (c ∷ s) =
    let rest = span_digits s in if is_digit c then (c ∷ rest.0, rest.1) else ([], c ∷ s)

-- From the first digit on.
unfoldable pub to_digit : Bytes → Bytes
to_digit [] = []
to_digit (c ∷ s) = let rest = to_digit s in if is_digit c then c ∷ s else rest

-- `strconv.Atoi` with its error ignored: 0 for no digits, and the greatest `int` for too many.
abbrev pub atoi_of : Option ℤ → ℕ
atoi_of none = 2 ^ 63 - 1
atoi_of (some (pos n)) = n
atoi_of (some (negsuc n)) = 0

unfoldable pub number : Bytes → ℕ
number [] = 0
number (c ∷ s) = atoi_of (parse_int 10 (c ∷ s))

-- `(?:.(\d+))?`: the digits, and what is behind them.
abbrev pub behind_byte : ℕ → Bytes → Bytes × Bytes → Bytes × Bytes
behind_byte c s ([], rest) = ([], c ∷ s)
behind_byte c s (d ∷ digits, rest) = if c == b'\n' then ([], c ∷ s) else (d ∷ digits, rest)

unfoldable pub group : Bytes → Bytes × Bytes
unfolding span_digits
group [] = ([], [])
group (c ∷ s) = behind_byte c s (span_digits s)

-- The number of a version, in the 64 bits of a `uint64`; 0 where there is no digit.
unfoldable pub version_number : Bytes → ℕ
unfolding span_digits to_digit number group
version_number version =
    let major = span_digits (to_digit version) in
    let minor = group major.1 in
    let patch = group minor.1 in
    (number major.0 * 1000000 + number minor.0 * 1000 + number patch.0) % 2 ^ 64

unfoldable pub is_version_at_least : Bytes → Bytes → Bool
unfolding version_number
is_version_at_least actual_version desired_version =
    leb (version_number desired_version) (version_number actual_version)
