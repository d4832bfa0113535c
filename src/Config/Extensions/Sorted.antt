-- ===== src/Config/Extensions/Sorted.antt =====
-- Extensions are sorted exactly where their priorities differ.
use expert_octo_doodle.Common.{
  ℕ, List, [], ◌∷◌, ◌++◌, none, some, true, ◌==◌, Bytes, ◌⊎◌, ◌↔◌, inl, inr, map, ◌≡◌, ◌≢◌, refl,
  sym, ap, ◌∙◌, arith, All, append_assoc, append-nil, Bool-cases, Option-cases,
}
use mathlib.Core.List.{Perm}
use mathlib.Core.List.Perm
use mathlib.Core.Path.{subst}
use expert_octo_doodle.Config.GitFetcher.{Extension}
use expert_octo_doodle.Config.Extensions.{
  SortError, duplicate_priority, at_priority, range_over, sort_ints, or_zero_value, result_of,
  sort_extensions,
}
use expert_octo_doodle.Config.Extensions.Ints.{
  IsAscending, sort_ints-Perm, All-sort_ints, sort_ints-IsAscending,
}

-- The extensions of a map, and priorities.
abbrev pub values : List (Bytes × Extension) → List Extension
values = map λ kv. kv.1

abbrev pub priorities_of : List Extension → List ℕ
priorities_of = map λ e. e.priority

abbrev pub AreDistinct : List ℕ → Type 0
AreDistinct [] = Unit
AreDistinct (p ∷ ps) = All (λ q. p ≢ q) ps × AreDistinct ps

-- What the first loop gives where it ends well.
abbrev Ranged :
    List (Bytes × Extension)
    → List (ℕ × Extension)
    → List ℕ
    → List (ℕ × Extension) × List ℕ
    → Type 0
Ranged m p_map priorities r =
    (r.1 ≡ priorities ++ priorities_of (values m))
    × AreDistinct (priorities_of (values m))
    × All (λ p. at_priority p p_map ≡ none) (priorities_of (values m))
    × ((p : ℕ) (e : Extension) → at_priority p p_map ≡ some e → at_priority p r.0 ≡ some e)
    × All (λ e. at_priority e.priority r.0 ≡ some e) (values m)

range_over-next :
    (n : Bytes) (e : Extension) (m : List (Bytes × Extension)) (p_map : List (ℕ × Extension))
    (priorities : List ℕ)
    → (at_priority e.priority p_map ≡ none
        → range_over ((n, e) ∷ m) p_map priorities
          ≡ range_over m ((e.priority, e) ∷ p_map) (priorities ++ e.priority ∷ []))
      × ((f : Extension)
          → at_priority e.priority p_map ≡ some f
          → range_over ((n, e) ∷ m) p_map priorities ≡ inl (duplicate_priority e.priority n))
unfolding range_over
range_over-next n e m p_map priorities =
    (λ new. rw (new, range_over), λ f seen. rw (seen, range_over))

-- The priorities that an entry in front of a map leaves free.
free_behind :
    (q : ℕ) (e : Extension) (p_map : List (ℕ × Extension)) (ps : List ℕ)
    → All (λ p. at_priority p ((q, e) ∷ p_map) ≡ none) ps
      ↔ (All (λ p. q ≢ p) ps × All (λ p. at_priority p p_map ≡ none) ps)
unfolding at_priority
free_behind q e p_map [] = (λ h. (tt, tt), λ h. tt)
free_behind q e p_map (p ∷ ps) =
    let rest = free_behind q e p_map ps in
    (
      λ (one, h). elim (Bool-cases (q == p)) [
        | inl same ↦ cc (rw same at one)
        | inr other ↦ ((ground (arith, other), (rest.0 h).0), (rw other at one, (rest.0 h).1))
      ],
      λ ((differs, ds), (free, fs)). elim (Bool-cases (q == p)) [
        | inl same ↦ absurd (differs (ground (arith, same)))
        | inr other ↦ (rw other free, rest.1 (ds, fs))
      ],
    )

range_over-Ranged :
    (m : List (Bytes × Extension)) (p_map : List (ℕ × Extension)) (priorities : List ℕ)
    (r : List (ℕ × Extension) × List ℕ)
    → range_over m p_map priorities ≡ inr r
    → Ranged m p_map priorities r
unfolding range_over at_priority
range_over-Ranged [] p_map priorities r h =
    let same : (p_map, priorities) ≡ r = cc in
    subst (Ranged [] p_map priorities) same
      (sym (append-nil priorities), tt, tt, (λ p e found. found), tt)
range_over-Ranged ((n, e) ∷ m) p_map priorities r h =
    elim (Option-cases (at_priority e.priority p_map)) [
      | inr (f, seen) ↦ cc (sym ((range_over-next n e m p_map priorities).1 f seen) ∙ h)
      | inl new ↦
          let (order, distinct, free, keeps, found) =
            range_over-Ranged m ((e.priority, e) ∷ p_map) (priorities ++ e.priority ∷ []) r
              (sym ((range_over-next n e m p_map priorities).0 new) ∙ h) in
          let (differ, free_too) =
            (free_behind e.priority e p_map (priorities_of (values m))).0 free in
          (
            order ∙ append_assoc priorities (e.priority ∷ []) (priorities_of (values m)),
            (differ, distinct),
            (new, free_too),
            (λ p x is. elim (Bool-cases (e.priority == p)) [
              | inl same ↦
                  let at : e.priority ≡ p = ground (arith, same) in
                  cc (sym new ∙ ap (λ q. at_priority q p_map) at ∙ is)
              | inr other ↦ keeps p x (rw other is)
            ]),
            (keeps e.priority e (rw (one e.priority)), found),
          )
    ]
  where
    one : (p : ℕ) → (p == p) ≡ true
    one p = ground arith

range_over-ends :
    (m : List (Bytes × Extension)) (p_map : List (ℕ × Extension)) (priorities : List ℕ)
    → AreDistinct (priorities_of (values m))
    → All (λ p. at_priority p p_map ≡ none) (priorities_of (values m))
    → (r : List (ℕ × Extension) × List ℕ) × (range_over m p_map priorities ≡ inr r)
unfolding range_over
range_over-ends [] p_map priorities distinct free = ((p_map, priorities), refl)
range_over-ends ((n, e) ∷ m) p_map priorities (differ, distinct) (new, free) =
    let (r, ends) =
      range_over-ends m ((e.priority, e) ∷ p_map) (priorities ++ e.priority ∷ []) distinct
        ((free_behind e.priority e p_map (priorities_of (values m))).1 (differ, free)) in
    (r, (range_over-next n e m p_map priorities).0 new ∙ ends)

abbrev picked : List (ℕ × Extension) → List ℕ → List Extension
picked p_map = map λ p. or_zero_value (at_priority p p_map)

-- What is found under the priorities of some extensions is these extensions.
picked-same :
    (p_map : List (ℕ × Extension)) (es : List Extension)
    → All (λ e. at_priority e.priority p_map ≡ some e) es
    → picked p_map (priorities_of es) ≡ es
picked-same p_map [] h = refl
picked-same p_map (e ∷ es) (one, h) = rw (one, picked-same p_map es h)

picked-priorities :
    (p_map : List (ℕ × Extension)) (ps : List ℕ)
    → All (λ p. (or_zero_value (at_priority p p_map)).priority ≡ p) ps
    → priorities_of (picked p_map ps) ≡ ps
picked-priorities p_map [] h = refl
picked-priorities p_map (p ∷ ps) (one, h) = rw (one, picked-priorities p_map ps h)

found-priorities :
    (p_map : List (ℕ × Extension)) (es : List Extension)
    → All (λ e. at_priority e.priority p_map ≡ some e) es
    → All (λ p. (or_zero_value (at_priority p p_map)).priority ≡ p) (priorities_of es)
found-priorities p_map [] h = tt
found-priorities p_map (e ∷ es) (one, h) = (rw one, found-priorities p_map es h)

-- What is returned for what the first loop gives.
result-IsAscending :
    (m : List (Bytes × Extension)) (r : SortError ⊎ (List (ℕ × Extension) × List ℕ))
    (es : List Extension)
    → range_over m [] [] ≡ r
    → result_of r ≡ inr es
    → AreDistinct (priorities_of (values m)) × IsAscending (priorities_of es) × Perm es (values m)
result-IsAscending m (inl e) es ranged h = cc
result-IsAscending m (inr (p_map, priorities)) es ranged h =
    let (order, distinct, unused, keeps, found) =
      range_over-Ranged m [] [] (p_map, priorities) ranged in
    let same : picked p_map (sort_ints priorities) ≡ es = cc in
    let own =
      All-sort_ints (λ p. (or_zero_value (at_priority p p_map)).priority ≡ p) priorities
        (subst (All λ p. (or_zero_value (at_priority p p_map)).priority ≡ p) (sym order)
          (found-priorities p_map (values m) found)) in
    let rising =
      subst IsAscending (sym (picked-priorities p_map (sort_ints priorities) own))
        (sort_ints-IsAscending priorities) in
    let whole =
      subst (Perm (picked p_map (sort_ints priorities)))
        (ap (picked p_map) order ∙ picked-same p_map (values m) found)
        (Perm.map (λ p. or_zero_value (at_priority p p_map)) (sort_ints-Perm priorities)) in
    (
      distinct,
      subst (λ l. IsAscending (priorities_of l)) same rising,
      subst (λ l. Perm l (values m)) same whole,
    )

-- An extension list that is returned has exactly the extensions of the map, by rising priorities, no two of which are the same; and
-- one is returned for every map without two extensions of one priority, in whatever order its entries come.
pub sort_extensions-IsAscending :
    (m : List (Bytes × Extension))
    → ((es : List Extension)
        → sort_extensions m ≡ inr es
        → AreDistinct (priorities_of (values m))
          × IsAscending (priorities_of es)
          × Perm es (values m))
      × (AreDistinct (priorities_of (values m))
          → (es : List Extension) × (sort_extensions m ≡ inr es))
unfolding sort_extensions at_priority
sort_extensions-IsAscending m = (
  returned,
  λ distinct.
      let (r, ends) = range_over-ends m [] [] distinct (free (priorities_of (values m))) in
      (picked r.0 (sort_ints r.1), ap result_of ends),
)
  where
    free : (ps : List ℕ) → All (λ p. at_priority p [] ≡ none) ps
    free [] = tt
    free (p ∷ ps) = (refl, free ps)

    returned :
        (es : List Extension)
        → sort_extensions m ≡ inr es
        → AreDistinct (priorities_of (values m))
          × IsAscending (priorities_of es)
          × Perm es (values m)
    returned es h = result-IsAscending m (range_over m [] []) es refl h
