-- ===== src/Lfs/Scanner/Log/Headers.antt =====
-- lfs/scanner.go: which lines the expressions for the headers match.
use expert_octo_doodle.Common.{
  ℕ, suc, ◌≤◌, ◌<◌, [], ◌∷◌, ◌++◌, none, some, true, false, if◌then◌else◌, ◌==◌, Bytes, codes,
  has_prefix, ◌≡◌, ◌≢◌, refl, arith, All, Bool-cases, inl, inr,
}
use expert_octo_doodle.Lfs.Scanner.Log.{is_blank, second_name, name_pair, file_header, merge_header}

abbrev pub spaces : Bytes → ℕ
spaces [] = 0
spaces (c ∷ s) = if c == b' ' then suc (spaces s) else spaces s

-- A text has the spaces of its prefixes.
has_prefix-spaces : (s p : Bytes) → has_prefix s p ≡ true → spaces p ≤ spaces s
unfolding has_prefix
has_prefix-spaces s [] h = omega arith
has_prefix-spaces [] (d ∷ p) h = cc
has_prefix-spaces (c ∷ s) (d ∷ p) h = ground (arith, has_prefix-spaces s p)

lacks_prefix : (s p : Bytes) → spaces s < spaces p → has_prefix s p ≡ false
lacks_prefix s p h = elim (Bool-cases (has_prefix s p)) [
  | inl same ↦ absurd (omega (arith, has_prefix-spaces s p same))
  | inr other ↦ other
]

spaces_tail : (c : ℕ) (s : Bytes) → spaces s ≤ spaces (c ∷ s)
spaces_tail c s = ground arith

-- A line with one space has no header of a file.
pub file_header-none : (s : Bytes) → spaces s < 2 → file_header s ≡ none
unfolding file_header
file_header-none [] h = refl
file_header-none (c ∷ s) h =
    rw (lacks_prefix (c ∷ s) (codes "diff --git a/") h, file_header)
      (file_header-none s (omega (arith, spaces_tail c s)))

pub merge_header-none : (s : Bytes) → spaces s < 2 → merge_header s ≡ none
unfolding merge_header
merge_header-none [] h = refl
merge_header-none (c ∷ s) h =
    rw (lacks_prefix (c ∷ s) (codes "diff --cc ") h, merge_header)
      (merge_header-none s (omega (arith, spaces_tail c s)))

abbrev pub IsDense : Bytes → Type 0
IsDense name = All (λ c. is_blank c ≡ false) name

name_pair-dense :
    (a b : Bytes) → IsDense a → a ≢ [] → b ≢ [] → name_pair (a ++ (codes " b/" ++ b)) ≡ some (a, b)
unfolding name_pair second_name has_prefix
name_pair-dense [] b da na nb = absurd (na refl)
name_pair-dense a [] da na nb = absurd (nb refl)
name_pair-dense (c ∷ []) (d ∷ b) da na nb = refl
name_pair-dense (c ∷ e ∷ a) (d ∷ b) (dc, (de, da)) na nb =
    rw (de, name_pair-dense (e ∷ a) (d ∷ b) (de, da) (λ h. cc) nb, name_pair, second_name)

abbrev pub header_line : Bytes → Bytes → Bytes
header_line a b = codes "diff --git a/" ++ (a ++ (codes " b/" ++ b))

-- The names of a header, where the first has no white space.
pub file_header-header_line :
    (a b : Bytes) → IsDense a → a ≢ [] → b ≢ [] → file_header (header_line a b) ≡ some (a, b)
unfolding file_header has_prefix
file_header-header_line a b da na nb = rw (name_pair-dense a b da na nb, file_header)
