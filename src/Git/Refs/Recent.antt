-- ===== src/Git/Refs/Recent.antt =====
-- The recent branches of a list that is sorted by date.
use expert_octo_doodle.Common.{
  ℕ, ◌≤◌, ◌<◌, List, [], ◌∷◌, Option, none, some, Bool, true, false, ◌&&◌, if◌then◌else◌, ltb, leb,
  Bytes, ◌≡◌, refl, arith, Bool-cases, Option-cases, inl, inr, ltb→lt,
}
use expert_octo_doodle.Git.Refs.{Ref, ref_of, branch_line, is_wanted, recent_branches}

drop_none : (b : Bool) (r : Ref) → (if b && false then r ∷ [] else []) ≡ []
drop_none true r = refl
drop_none false r = refl

module _ (parse_date : Bytes → Option ℕ) (since : ℕ) (include_remotes : Bool)
    (only_remote : Bytes) where
  abbrev recent : Option ℕ → Bool
  recent none = false
  recent (some t) = leb since t

  -- Whether a line is that of a wanted branch with a date on or after the given one.
  abbrev pub keeps : Bytes × Bytes × Bytes → Bool
  keeps g = is_wanted include_remotes only_remote (ref_of g.0 g.1) && recent (parse_date g.2)

  abbrev with_line : Option (Bytes × Bytes × Bytes) → List Ref → List Ref
  with_line none refs = refs
  with_line (some g) refs = if keeps g then ref_of g.0 g.1 ∷ refs else refs

  -- The references of all such lines.
  abbrev pub kept : List Bytes → List Ref
  kept [] = []
  kept (line ∷ lines) = with_line (branch_line line) (kept lines)

  -- The date of a line, where it is that of a branch.
  abbrev pub HasDate : Bytes → ℕ → Type 0
  HasDate line t = (g : Bytes × Bytes × Bytes) → branch_line line ≡ some g → parse_date g.2 ≡ some t

  -- No line has a later date than one in front of it.
  abbrev pub Descending : ℕ → List Bytes → Type 0
  Descending bound [] = Unit
  Descending bound (line ∷ lines) = (t : ℕ) × (t ≤ bound) × HasDate line t × Descending t lines

  kept-old :
      (bound : ℕ) (lines : List Bytes) → bound < since → Descending bound lines → kept lines ≡ []
  kept-old bound [] old d = refl
  kept-old bound (line ∷ lines) old (t, le, date, d) =
      let rest = kept-old t lines (omega arith) d in
      elim (Option-cases (branch_line line)) [
        | inl no_branch ↦ rw (no_branch, rest)
        | inr (g, branch) ↦
            let young : leb since t ≡ false = ground arith in
            rw (branch, rest, date g branch, young)
              (drop_none (is_wanted include_remotes only_remote (ref_of g.0 g.1)) (ref_of g.0 g.1))
      ]

  -- From lines whose dates can be read and do not rise, exactly the wanted branches with a date on or after the given one are
  -- returned, in their order, though the loop stops at the first that is older.
  pub recent_branches-sorted :
      (bound : ℕ) (lines : List Bytes)
      → Descending bound lines
      → recent_branches parse_date since include_remotes only_remote lines
        ≡ record { refs = kept lines; bad_date = false }
  unfolding recent_branches
  recent_branches-sorted bound [] d = refl
  recent_branches-sorted bound (line ∷ lines) (t, le, date, d) =
      let rest = recent_branches-sorted t lines d in
      elim (Option-cases (branch_line line)) [
        | inl no_branch ↦ rw (no_branch, rest)
        | inr (g, branch) ↦
            elim (Bool-cases (is_wanted include_remotes only_remote (ref_of g.0 g.1))) [
              | inr unwanted ↦ rw (branch, rest, unwanted)
              | inl wanted ↦ elim (Bool-cases (ltb t since)) [
                | inl old ↦
                    let young : leb since t ≡ false = ground (arith, old) in
                    rw (
                      branch,
                      date g branch,
                      wanted,
                      old,
                      young,
                      kept-old t lines (ltb→lt t since old) d,
                    )
                | inr recent_one ↦
                    let old : leb since t ≡ true = ground (arith, recent_one) in
                    rw (branch, rest, date g branch, wanted, recent_one, old)
              ]
            ]
      ]
