-- ===== src/Config/Aliases/Panics.antt =====
-- `urlAliases` where a key has nothing between `url` and `insteadof`.
use expert_octo_doodle.Common.{
  List, [], ◌∷◌, none, true, Bytes, codes, equal, equal_iff, Map, map, insert, is_in, ◌≡◌, refl, ap,
  sym, ◌∙◌, if_false, Bool-cases, inl, inr, Option-cases,
}
use expert_octo_doodle.Config.Aliases.{url_aliases, alias_base, is_alias_key}

abbrev pub keys_of : List (Bytes × Bytes) → List Bytes
keys_of = map (λ kv. kv.0)

-- The bounds of the slice are out of order.
url_aliases-panic_here :
    (val : Bytes) (all : List (Bytes × Bytes)) (aliases : Map Bytes)
    → url_aliases ((codes "url.insteadof", val) ∷ all) aliases ≡ none
unfolding url_aliases is_alias_key alias_base
url_aliases-panic_here val all aliases = refl

-- Every other entry leaves the end to the entries behind it, or ends at once.
url_aliases-none_cons :
    (key val : Bytes) (all : List (Bytes × Bytes)) (aliases : Map Bytes)
    → ((m : Map Bytes) → url_aliases all m ≡ none)
    → url_aliases ((key, val) ∷ all) aliases ≡ none
unfolding url_aliases
url_aliases-none_cons key val all aliases rest = elim (Bool-cases (is_alias_key key)) [
  | inr plain ↦ rw (plain, url_aliases) (rest aliases)
  | inl alias ↦ elim (Option-cases (alias_base key)) [
    | inl stop ↦ rw (alias, stop, url_aliases)
    | inr (base, found) ↦ rw (alias, found, url_aliases) (rest (insert val base aliases))
  ]
]

-- A configuration with the key `url.insteadof` makes `urlAliases` panic, whatever else it has.
pub url_aliases-panic :
    (all : List (Bytes × Bytes)) (aliases : Map Bytes)
    → is_in (keys_of all) (codes "url.insteadof") ≡ true
    → url_aliases all aliases ≡ none
url_aliases-panic [] aliases h = cc
url_aliases-panic ((key, val) ∷ all) aliases h =
    elim (Bool-cases (equal key (codes "url.insteadof"))) [
      | inl same ↦
          ap (λ k. url_aliases ((k, val) ∷ all) aliases) ((equal_iff key _).0 same)
          ∙ url_aliases-panic_here val all aliases
      | inr other ↦
          url_aliases-none_cons key val all aliases
            (λ m. url_aliases-panic all m (sym (if_false _ true _ other) ∙ h))
    ]
