-- ===== src/Common/Texts.antt =====
-- Byte strings as lists of numbers, and the functions of Go's `strings` and `bytes` that the code calls.
use Prim.Native.Char.{code}
use Prim.Native.Nat.{ℕ}
use Prim.Native.String.{String}
use mathlib.Core.Bool.{Bool, true, false, ◌&&◌, ◌||◌}
use mathlib.Core.List.{List, [], ◌∷◌, ◌++◌}
use mathlib.Core.Option.{Option, none, some}
use mathlib.Core.Logic.{◌↔◌, ◌≢◌}
use mathlib.Core.Path.{◌≡◌, refl}
use native.Mathlib.Omega.{arith}
use expert_octo_doodle.Common.Tests.{◌==◌, leb, if◌then◌else◌}

abbrev pub Bytes : Type 0
Bytes = List ℕ

-- The code points of a literal; its bytes, since every literal here is ASCII.
abbrev pub codes : String → Bytes
codes String.[] = []
codes (String.◌∷◌ c s) = code c ∷ codes s

-- `a == b` on strings, `bytes.Equal`
unfoldable pub equal : (s t : Bytes) → Bool
equal [] [] = true
equal [] (d ∷ t) = false
equal (c ∷ s) [] = false
equal (c ∷ s) (d ∷ t) = (c == d) && equal s t

pub equal_iff : (s t : Bytes) → (equal s t ≡ true) ↔ (s ≡ t)
unfolding equal
equal_iff [] [] = (λ h. refl, λ h. refl)
equal_iff [] (d ∷ t) = (λ h. cc, λ h. cc)
equal_iff (c ∷ s) [] = (λ h. cc, λ h. cc)
equal_iff (c ∷ s) (d ∷ t) = let tails = equal_iff s t in ground (arith, tails)

-- `strings.SplitN(s, sep, 2)` for a separator of one byte; `none` where there is no separator.
unfoldable pub split_once : ℕ → Bytes → Option (Bytes × Bytes)
split_once sep [] = none
split_once sep (c ∷ s) = elim (c == sep) [
  | true ↦ some ([], s)
  | false ↦ elim (split_once sep s) [ none ↦ none | some p ↦ some (c ∷ p.0, p.1) ]
]

abbrev pub Lacks : ℕ → Bytes → Type 0
Lacks b [] = Unit
Lacks b (c ∷ s) = (c ≢ b) × Lacks b s

pub split_once-append :
    (sep : ℕ) (a b : Bytes) → Lacks sep a → split_once sep (a ++ sep ∷ b) ≡ some (a, b)
unfolding split_once
split_once-append sep [] b h = ground arith
split_once-append sep (c ∷ a) b (h, hs) = ground (arith, split_once-append sep a b hs)

pub split_once-none : (sep : ℕ) (a : Bytes) → Lacks sep a → split_once sep a ≡ none
unfolding split_once
split_once-none sep [] h = refl
split_once-none sep (c ∷ a) (h, hs) = ground (arith, split_once-none sep a hs)

-- What a split gives is the text, and its first part holds no separator.
pub split_once_sound :
    (sep : ℕ) (s a b : Bytes) → split_once sep s ≡ some (a, b) → (s ≡ a ++ sep ∷ b) × Lacks sep a
unfolding split_once
split_once_sound sep [] a b h = cc
split_once_sound sep (c ∷ s) [] b h = ground arith
split_once_sound sep (c ∷ s) (x ∷ a) b h = ground (arith, split_once_sound sep s a b)

-- `strings.HasPrefix(s, prefix)`
unfoldable pub has_prefix : Bytes → Bytes → Bool
has_prefix s [] = true
has_prefix [] (p ∷ prefix) = false
has_prefix (c ∷ s) (p ∷ prefix) = c == p && has_prefix s prefix

-- `strings.Contains(s, part)`
unfoldable pub contains : Bytes → Bytes → Bool
unfolding has_prefix
contains [] part = has_prefix [] part
contains (c ∷ s) part = has_prefix (c ∷ s) part || contains s part

-- The ASCII white space of `unicode.IsSpace`.
abbrev pub is_space : ℕ → Bool
is_space c = c == b' ' || (leb 9 c && leb c 13)

unfoldable pub trim_left : Bytes → Bytes
trim_left [] = []
trim_left (c ∷ s) = let rest = trim_left s in if is_space c then rest else c ∷ s

unfoldable pub trim_right : Bytes → Bytes
trim_right [] = []
trim_right (c ∷ s) = elim (trim_right s) [
  | [] ↦ if is_space c then [] else c ∷ []
  | d ∷ t ↦ c ∷ d ∷ t
]

-- `strings.TrimSpace` and `bytes.TrimSpace`, on texts with no white space outside ASCII at the ends.
unfoldable pub trim_space : Bytes → Bytes
unfolding trim_left trim_right
trim_space s = trim_right (trim_left s)

-- The end of a token of `bufio.ScanLines`: one `\r` is dropped.
unfoldable pub drop_cr : Bytes → Bytes
drop_cr [] = []
drop_cr (c ∷ []) = if c == b'\r' then [] else c ∷ []
drop_cr (c ∷ d ∷ s) = c ∷ drop_cr (d ∷ s)

-- The tokens of `bufio.Scanner`, with the bytes of the line read so far; what follows the last
-- newline is a token unless it is empty. Lines are shorter than the scanner's limit of 64 KiB.
unfoldable pub scan_lines_from : Bytes → Bytes → List Bytes
unfolding drop_cr
scan_lines_from line [] = elim line [ [] ↦ [] | c ∷ s ↦ drop_cr (c ∷ s) ∷ [] ]
scan_lines_from line (c ∷ s) = elim (c == b'\n') [
  | true ↦ drop_cr line ∷ scan_lines_from [] s
  | false ↦ scan_lines_from (line ++ c ∷ []) s
]

unfoldable pub scan_lines : Bytes → List Bytes
unfolding scan_lines_from
scan_lines = scan_lines_from []
