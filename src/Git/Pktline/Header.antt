-- ===== src/Git/Pktline/Header.antt =====
-- The four hexadecimal digits in front of a packet, written by `writePacket` and read by `readPacket`.
use expert_octo_doodle.Common.{
  ℕ, ◌/◌, ◌%◌, ◌<◌, ◌≡◌, some, arith, digit, digits, parse_uint, to_int64, parse_int, pos,
}
use expert_octo_doodle.Git.Pktline.{hex_digit, hex4}

digit-hex_digit : (d : ℕ) → d < 16 → digit 16 (hex_digit d) ≡ some d
unfolding digit
digit-hex_digit d h = ground arith

four_digits : (n : ℕ) → n < 65536 → digits 16 (hex4 n) 0 ≡ some n
unfolding digits hex4
four_digits n h = ground (
  arith,
  digit-hex_digit (n / 4096 % 16),
  digit-hex_digit (n / 256 % 16),
  digit-hex_digit (n / 16 % 16),
  digit-hex_digit (n % 16),
)

-- A number below 2^16 is read back by `strconv.ParseInt` from its four hexadecimal digits.
pub parse_int-hex4 : (n : ℕ) → n < 65536 → parse_int 16 (hex4 n) ≡ some (pos n)
unfolding parse_int hex4 parse_uint to_int64
parse_int-hex4 n h = ground (arith, four_digits n h)
