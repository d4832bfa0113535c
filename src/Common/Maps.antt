-- ===== src/Common/Maps.antt =====
-- A Go `map[string]V` as a list of keys and values with one entry for a key. What ranges over a map
-- takes the entries in some order; here it is the order of the list.
use mathlib.Core.Bool.{Bool, true, false}
use mathlib.Core.List.{List, [], ◌∷◌, ◌++◌}
use mathlib.Core.Option.{Option, none, some}
use mathlib.Core.Path.{◌≡◌, refl}
use native.Mathlib.Omega.{arith}
use expert_octo_doodle.Common.Tests.{if◌then◌else◌}
use expert_octo_doodle.Common.Texts.{Bytes, equal, equal_iff}

-- Whether a list of strings has this one.
abbrev pub is_in : List Bytes → Bytes → Bool
is_in [] i = false
is_in (j ∷ js) i = if equal j i then true else is_in js i

abbrev pub Map {ℓ} : Type ℓ → Type ℓ
Map V = List (Bytes × V)

module _ {ℓ} {V : Type ℓ} where
  -- `v, ok := m[k]`
  unfoldable pub lookup : Bytes → Map V → Option V
  lookup k [] = none
  lookup k ((j, v) ∷ m) = if equal j k then some v else lookup k m

  -- `m[k] = v`
  unfoldable pub insert : Bytes → V → Map V → Map V
  insert k v [] = (k, v) ∷ []
  insert k v ((j, w) ∷ m) = if equal j k then (k, v) ∷ m else (j, w) ∷ insert k v m

  -- `delete(m, k)`
  unfoldable pub remove : Bytes → Map V → Map V
  remove k [] = []
  remove k ((j, w) ∷ m) = let rest = remove k m in if equal j k then rest else (j, w) ∷ rest

  pub lookup-insert :
      (k j : Bytes) (v : V) (m : Map V)
      → lookup j (insert k v m) ≡ (if equal k j then some v else lookup j m)
  unfolding lookup insert
  lookup-insert k j v [] = refl
  lookup-insert k j v ((i, w) ∷ m) =
      ground (arith, equal_iff k j, equal_iff i k, equal_iff i j, lookup-insert k j v m)

  pub lookup-remove :
      (k j : Bytes) (m : Map V) → lookup j (remove k m) ≡ (if equal k j then none else lookup j m)
  unfolding lookup remove
  lookup-remove k j [] = ground arith
  lookup-remove k j ((i, w) ∷ m) =
      ground (arith, equal_iff k j, equal_iff i k, equal_iff i j, lookup-remove k j m)

pub is_in-append :
    (is js : List Bytes) (k : Bytes)
    → is_in (is ++ js) k ≡ (if is_in is k then true else is_in js k)
is_in-append [] js k = refl
is_in-append (i ∷ is) js k = rw (is_in-append is js k) (ground arith)

pub equal_refl : (a : Bytes) → equal a a ≡ true
equal_refl a = (equal_iff a a).1 refl
