-- ===== src/Config/Environment.antt =====
-- config/environment.go: the values of a source of configuration as texts, truth values and numbers.
use expert_octo_doodle.Common.{
  Option, none, some, Bool, ◌||◌, Bytes, [], ◌∷◌, codes, equal, ℤ, parse_int,
}
use expert_octo_doodle.Config.GitFetcher.{to_lower}

-- `Fetcher.Get`
abbrev pub Fetcher : Type 0
Fetcher = Bytes → Option Bytes

abbrev pub text_or : Option Bytes → Bytes → Bytes
text_or none def = def
text_or (some s) def = s

abbrev pub is_true : Bytes → Bool
is_true s =
    equal s (codes "true")
    || (equal s (codes "1")
        || (equal s (codes "on") || (equal s (codes "yes") || equal s (codes "t"))))

-- `len(s) == 0`, for what is missing too.
abbrev bool_of : Bytes → Bool → Bool
bool_of [] def = def
bool_of (c ∷ s) def = is_true (to_lower (c ∷ s))

abbrev int_of : Bytes → ℤ → ℤ
int_of [] def = def
int_of (c ∷ s) def = elim (parse_int 10 (c ∷ s)) [ none ↦ def | some i ↦ i ]

unfoldable pub bool : Fetcher → Bytes → Bool → Bool
unfolding to_lower
bool f key def = bool_of (text_or (f key) []) def

unfoldable pub int : Fetcher → Bytes → ℤ → ℤ
int f key def = int_of (text_or (f key) []) def
