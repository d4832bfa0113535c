-- ===== src/Config/Aliases/Longest.antt =====
-- The alias that a url is rewritten by is the longest that fits.
use expert_octo_doodle.Common.{
  ◌≤◌, [], ◌∷◌, ◌++◌, some, true, ltb, Bytes, has_prefix, length, drop-append_self, Map, lookup,
  ◌≡◌, ◌≢◌, refl, ap, arith, Bool-cases, inl, inr, ◌⊎◌, equal, equal_iff,
}
use expert_octo_doodle.Config.Aliases.{less, longest_alias, replace_url_alias}

-- Of two beginnings of one text, the longer one is the greater.
less-prefixes :
    (s p q : Bytes)
    → has_prefix s p ≡ true
    → has_prefix s q ≡ true
    → less p q ≡ ltb (length p) (length q)
unfolding less has_prefix
less-prefixes s [] [] hp hq = refl
less-prefixes s [] (d ∷ q) hp hq = ground arith
less-prefixes s (c ∷ p) [] hp hq = ground arith
less-prefixes [] (c ∷ p) (d ∷ q) hp hq = cc
less-prefixes (x ∷ s) (c ∷ p) (d ∷ q) hp hq = ground (arith, less-prefixes s p q)

has_prefix_nil : (s : Bytes) → has_prefix s [] ≡ true
unfolding has_prefix
has_prefix_nil [] = refl
has_prefix_nil (c ∷ s) = refl

has_prefix-append : (p r : Bytes) → has_prefix (p ++ r) p ≡ true
unfolding has_prefix
has_prefix-append [] r = has_prefix_nil r
has_prefix-append (c ∷ p) r = ground (arith, has_prefix-append p r)

-- Two beginnings of one length are the same.
prefixes_same :
    (s p q : Bytes) → has_prefix s p ≡ true → has_prefix s q ≡ true → length p ≡ length q → p ≡ q
unfolding has_prefix
prefixes_same s [] [] hp hq e = refl
prefixes_same s [] (d ∷ q) hp hq e = absurd (omega arith)
prefixes_same s (c ∷ p) [] hp hq e = absurd (omega arith)
prefixes_same [] (c ∷ p) (d ∷ q) hp hq e = cc
prefixes_same (x ∷ s) (c ∷ p) (d ∷ q) hp hq e = ground (arith, prefixes_same s p q)

-- No alias that fits a url is longer than this one.
abbrev pub Longest : Bytes → Bytes → Map Bytes → Type 0
Longest rawurl alias [] = Unit
Longest rawurl alias ((a, base) ∷ aliases) =
    (has_prefix rawurl a ≡ true → length a ≤ length alias) × Longest rawurl alias aliases

-- Where an alias is the one that the loop takes: it stands further on, or was taken before.
abbrev Ahead : Bytes → Map Bytes → Bytes → Type 0
Ahead alias aliases longest = ((b : Bytes) × (lookup alias aliases ≡ some b)) ⊎ (longest ≡ alias)

-- An entry under another key is passed over.
Ahead-past :
    (a base : Bytes) (aliases : Map Bytes) (longest alias : Bytes)
    → a ≢ alias
    → Ahead alias ((a, base) ∷ aliases) longest
    → Ahead alias aliases longest
unfolding lookup
Ahead-past a base aliases longest alias ne (inl (b, found)) =
    inl (b, ground (arith, equal_iff a alias))
Ahead-past a base aliases longest alias ne (inr same) = inr same

-- An entry that is taken.
Ahead-taken :
    (a base : Bytes) (aliases : Map Bytes) (longest alias : Bytes)
    → longest ≢ alias
    → Ahead alias ((a, base) ∷ aliases) longest
    → Ahead alias aliases a
unfolding lookup
Ahead-taken a base aliases longest alias ne (inr same) = absurd (ne same)
Ahead-taken a base aliases longest alias ne (inl (b, found)) = elim (Bool-cases (equal a alias)) [
  | inl same ↦ inr ((equal_iff a alias).0 same)
  | inr other ↦ inl (b, ground (arith, other, found))
]

-- An entry that is no longer than what was taken before.
Ahead-left :
    (a base : Bytes) (aliases : Map Bytes) (longest alias : Bytes)
    → (a ≡ alias → longest ≡ alias)
    → Ahead alias ((a, base) ∷ aliases) longest
    → Ahead alias aliases longest
unfolding lookup
Ahead-left a base aliases longest alias same_length (inr same) = inr same
Ahead-left a base aliases longest alias same_length (inl (b, found)) =
    elim (Bool-cases (equal a alias)) [
      | inl same ↦ inr (same_length ((equal_iff a alias).0 same))
      | inr other ↦ inl (b, ground (arith, other, found))
    ]

longest_alias_lem :
    (rawurl : Bytes) (aliases : Map Bytes) (longest alias : Bytes)
    → has_prefix rawurl longest ≡ true
    → has_prefix rawurl alias ≡ true
    → length longest ≤ length alias
    → Longest rawurl alias aliases
    → Ahead alias aliases longest
    → longest_alias rawurl aliases longest ≡ alias
unfolding longest_alias lookup
longest_alias_lem rawurl [] longest alias hl ha le m (inl (b, found)) = cc
longest_alias_lem rawurl [] longest alias hl ha le m (inr same) = same
longest_alias_lem rawurl ((a, base) ∷ aliases) longest alias hl ha le (fits, m) ahead =
    elim (Bool-cases (has_prefix rawurl a)) [
      | inr other ↦ rw other (
          longest_alias_lem rawurl aliases longest alias hl ha le m (
            Ahead-past a base aliases longest alias (λ e. ground (arith, ap (has_prefix rawurl) e))
              ahead))
      | inl starts ↦ elim (Bool-cases (ltb (length longest) (length a))) [
        | inl longer ↦
            rw (starts, less-prefixes rawurl longest a hl starts, longer)
              (longest_alias_lem rawurl aliases a alias starts ha (fits starts) m (
                Ahead-taken a base aliases longest alias
                  (λ e. ground (arith, fits starts, ap length e)) ahead))
        | inr shorter ↦
            rw (starts, less-prefixes rawurl longest a hl starts, shorter)
              (longest_alias_lem rawurl aliases longest alias hl ha le m (
                Ahead-left a base aliases longest alias
                  (λ e. prefixes_same rawurl longest alias hl ha (ground (arith, le, ap length e)))
                  ahead))
      ]
    ]

-- For an alias that fits a url and is longer than all others that do, the rewritten url is its base with what
-- follows the alias, whatever the order of the aliases.
pub replace_url_alias-Longest :
    (aliases : Map Bytes) (alias base rest : Bytes)
    → alias ≢ []
    → lookup alias aliases ≡ some base
    → Longest (alias ++ rest) alias aliases
    → replace_url_alias aliases (alias ++ rest) ≡ base ++ rest
unfolding replace_url_alias
replace_url_alias-Longest aliases [] base rest ne found m = absurd (ne refl)
replace_url_alias-Longest aliases (c ∷ alias) base rest ne found m =
    let url = (c ∷ alias) ++ rest in
    let chosen =
      longest_alias_lem url aliases [] (c ∷ alias) (has_prefix_nil url)
        (has_prefix-append (c ∷ alias) rest) (omega arith) m (inl (base, found)) in
    rw (chosen, found, drop-append_self (c ∷ alias) rest)
