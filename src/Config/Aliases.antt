-- ===== src/Config/Aliases.antt =====
-- config/config.go: the aliases `url.<base>.insteadof` of Git's configuration.
pub mod Longest
pub mod Panics
use expert_octo_doodle.Common.{
  ℕ, ◌-◌, List, [], ◌∷◌, ◌++◌, Option, none, some, Bool, true, false, ◌&&◌, ◌||◌, if◌then◌else◌,
  ltb, leb, ◌==◌, Bytes, codes, equal, has_prefix, length, take, drop, Map, lookup, insert,
}
use expert_octo_doodle.Config.Environment.{text_or}

-- `a < b` on strings
unfoldable pub less : Bytes → Bytes → Bool
less [] [] = false
less [] (d ∷ b) = true
less (c ∷ a) [] = false
less (c ∷ a) (d ∷ b) = ltb c d || (c == d && less a b)

-- `s[from:to]`; `none` is a panic.
abbrev pub slice : ℕ → ℕ → Bytes → Option Bytes
slice from to s =
    if leb from to && leb to (length s) then some (take (to - from) (drop from s)) else none

-- `strings.HasSuffix(s, suffix)`
abbrev pub has_suffix : Bytes → Bytes → Bool
has_suffix s suffix =
    leb (length suffix) (length s) && equal (drop (length s - length suffix) s) suffix

abbrev prefix : Bytes
prefix = codes "url."

abbrev suffix : Bytes
suffix = codes ".insteadof"

unfoldable pub is_alias_key : Bytes → Bool
unfolding has_prefix equal
is_alias_key key = has_prefix key prefix && has_suffix key suffix

-- What stands between `url.` and `.insteadof`.
unfoldable pub alias_base : Bytes → Option Bytes
alias_base key = slice (length prefix) (length key - length suffix) key

-- `urlAliases`, over the pairs of `c.Git.All()` in the order in which they come.
unfoldable pub url_aliases : List (Bytes × Bytes) → Map Bytes → Option (Map Bytes)
url_aliases [] aliases = some aliases
url_aliases ((key, val) ∷ all) aliases = elim (is_alias_key key) [
  | false ↦ url_aliases all aliases
  | true ↦ elim (alias_base key) [
    | none ↦ none
    | some base ↦ url_aliases all (insert val base aliases)
  ]
]

-- The loop of `ReplaceUrlAlias`, with the longest alias so far.
unfoldable pub longest_alias : Bytes → Map Bytes → Bytes → Bytes
unfolding has_prefix less
longest_alias rawurl [] longest = longest
longest_alias rawurl ((alias, base) ∷ aliases) longest =
    longest_alias rawurl aliases
      (if has_prefix rawurl alias && less longest alias then alias else longest)

abbrev pub replace_alias : Bytes → Map Bytes → Bytes → Bytes
replace_alias [] aliases rawurl = rawurl
replace_alias (c ∷ alias) aliases rawurl =
    text_or (lookup (c ∷ alias) aliases) [] ++ drop (length (c ∷ alias)) rawurl

-- `ReplaceUrlAlias`
unfoldable pub replace_url_alias : Map Bytes → Bytes → Bytes
unfolding longest_alias
replace_url_alias aliases rawurl = replace_alias (longest_alias rawurl aliases []) aliases rawurl
