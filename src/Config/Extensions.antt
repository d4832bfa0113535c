-- ===== src/Config/Extensions.antt =====
-- config/extension.go: extensions in the order of their priorities. A Go map is the list of its entries in the order in
-- which a range takes them.
pub mod Ints
pub mod Sorted
use expert_octo_doodle.Common.{
  ℕ, List, [], ◌∷◌, ◌++◌, Option, none, some, if◌then◌else◌, leb, ◌==◌, Bytes, ◌⊎◌, inl, inr, map,
}
use expert_octo_doodle.Config.GitFetcher.{Extension}

-- The error of `SortExtensions`: a priority, and the name of its second extension.
pub data SortError : Type 0 where
  duplicate_priority : ℕ → Bytes → SortError

-- `pMap[p]`
unfoldable pub at_priority : ℕ → List (ℕ × Extension) → Option Extension
at_priority p [] = none
at_priority p ((q, e) ∷ p_map) = if q == p then some e else at_priority p p_map

-- The first loop, which gives `pMap` and `priorities`.
unfoldable pub range_over :
    List (Bytes × Extension)
    → List (ℕ × Extension)
    → List ℕ
    → SortError ⊎ (List (ℕ × Extension) × List ℕ)
unfolding at_priority
range_over [] p_map priorities = inr (p_map, priorities)
range_over ((n, e) ∷ m) p_map priorities = elim (at_priority e.priority p_map) [
  | some _ ↦ inl (duplicate_priority e.priority n)
  | none ↦ range_over m ((e.priority, e) ∷ p_map) (priorities ++ e.priority ∷ [])
]

-- `sort.Ints`
unfoldable pub insert_int : ℕ → List ℕ → List ℕ
insert_int p [] = p ∷ []
insert_int p (q ∷ qs) = if leb p q then p ∷ q ∷ qs else q ∷ insert_int p qs

unfoldable pub sort_ints : List ℕ → List ℕ
unfolding insert_int
sort_ints [] = []
sort_ints (p ∷ ps) = insert_int p (sort_ints ps)

-- The value of a key that is missing is an extension with no text and priority 0.
abbrev pub or_zero_value : Option Extension → Extension
or_zero_value none = record { name = []; clean = []; smudge = []; priority = 0 }
or_zero_value (some e) = e

-- The second loop.
abbrev pub result_of : SortError ⊎ (List (ℕ × Extension) × List ℕ) → SortError ⊎ List Extension
result_of (inl e) = inl e
result_of (inr (p_map, priorities)) =
    inr (map (λ p. or_zero_value (at_priority p p_map)) (sort_ints priorities))

-- `SortExtensions`
unfoldable pub sort_extensions : List (Bytes × Extension) → SortError ⊎ List Extension
unfolding range_over sort_ints at_priority
sort_extensions m = result_of (range_over m [] [])
