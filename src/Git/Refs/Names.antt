-- ===== src/Git/Refs/Names.antt =====
-- The type and the name of a reference.
use expert_octo_doodle.Common.{
  [], ◌∷◌, ◌++◌, true, false, Bytes, codes, equal, equal_iff, has_prefix, length, drop, ◌≡◌, ◌≢◌,
  ◌↔◌, refl, sym, ap, ◌∙◌, arith, Bool-cases, inl, inr,
}
use mathlib.Core.Path.{subst}
use expert_octo_doodle.Git.Refs.{
  RefType, local_branch, remote_branch, local_tag, remote_tag, head, other,
  parse_ref_to_type_and_name,
}

has_prefix_sound : (s p : Bytes) → has_prefix s p ≡ true → p ++ drop (length p) s ≡ s
unfolding has_prefix
has_prefix_sound s [] h = refl
has_prefix_sound [] (d ∷ p) h = cc
has_prefix_sound (c ∷ s) (d ∷ p) h = ground (arith, has_prefix_sound s p)

has_prefix-append_left : (s p q : Bytes) → has_prefix s (p ++ q) ≡ true → has_prefix s p ≡ true
unfolding has_prefix
has_prefix-append_left [] [] q h = refl
has_prefix-append_left (c ∷ s) [] q h = refl
has_prefix-append_left [] (d ∷ p) q h = cc
has_prefix-append_left (c ∷ s) (d ∷ p) q h = ground (arith, has_prefix-append_left s p q)

-- What stands in front of a name of a type.
abbrev pub prefix_of : RefType → Bytes
prefix_of local_branch = codes "refs/heads/"
prefix_of remote_branch = codes "refs/remotes/"
prefix_of local_tag = codes "refs/tags/"
prefix_of remote_tag = codes "refs/remotes/tags/"
prefix_of head = []
prefix_of other = []

has_prefix-append : (p n : Bytes) → has_prefix (p ++ n) p ≡ true
unfolding has_prefix
has_prefix-append [] n = refl
has_prefix-append (d ∷ p) n = ground (arith, has_prefix-append p n)

no_prefix : (s p : Bytes) → has_prefix s p ≡ false → (n : Bytes) → s ≢ p ++ n
no_prefix s p absent n e = cc (sym absent ∙ ap (λ t. has_prefix t p) e ∙ has_prefix-append p n)

no_prefix-of : (s p : Bytes) → ((n : Bytes) → s ≢ p ++ n) → has_prefix s p ≡ false
no_prefix-of s p differs = elim (Bool-cases (has_prefix s p)) [
  | inl there ↦ absurd (differs (drop (length p) s) (sym (has_prefix_sound s p there)))
  | inr absent ↦ absent
]

-- What a reference of a type and a name is, written in full.
abbrev pub Names : RefType → Bytes → Bytes → Type 0
Names local_branch fullref name = fullref ≡ prefix_of local_branch ++ name
Names remote_branch fullref name = fullref ≡ prefix_of remote_branch ++ name
Names local_tag fullref name = fullref ≡ prefix_of local_tag ++ name
Names remote_tag fullref name = ⊥
Names head fullref name = (fullref ≡ codes "HEAD") × (name ≡ fullref)
Names other fullref name =
    (name ≡ fullref)
    × (fullref ≢ codes "HEAD")
    × ((n : Bytes) → fullref ≢ prefix_of local_branch ++ n)
    × ((n : Bytes) → fullref ≢ prefix_of remote_branch ++ n)
    × ((n : Bytes) → fullref ≢ prefix_of local_tag ++ n)

parse_ref-Names :
    (fullref : Bytes) → let r = parse_ref_to_type_and_name fullref in Names r.0 fullref r.1
unfolding parse_ref_to_type_and_name
parse_ref-Names fullref = elim (Bool-cases (equal fullref (codes "HEAD"))) [
  | inl is_head ↦ rw is_head ((equal_iff fullref (codes "HEAD")).0 is_head, refl)
  | inr more ↦ elim (Bool-cases (has_prefix fullref (codes "refs/heads/"))) [
    | inl heads ↦ rw (more, heads) (sym (has_prefix_sound fullref (codes "refs/heads/") heads))
    | inr no_heads ↦ elim (Bool-cases (has_prefix fullref (codes "refs/remotes/"))) [
      | inl remotes ↦
          rw (more, no_heads, remotes)
            (sym (has_prefix_sound fullref (codes "refs/remotes/") remotes))
      | inr no_remotes ↦ elim (Bool-cases (has_prefix fullref (codes "refs/remotes/tags/"))) [
        | inl remote_tags ↦
            cc (has_prefix-append_left fullref (codes "refs/remotes/") (codes "tags/") remote_tags)
        | inr no_remote_tags ↦ elim (Bool-cases (has_prefix fullref (codes "refs/tags/"))) [
          | inl tags ↦
              rw (more, no_heads, no_remotes, no_remote_tags, tags)
                (sym (has_prefix_sound fullref (codes "refs/tags/") tags))
          | inr none_of_all ↦
              rw (more, no_heads, no_remotes, no_remote_tags, none_of_all)
                (
                  refl,
                  λ e. cc (sym more ∙ (equal_iff fullref (codes "HEAD")).1 e),
                  no_prefix fullref (codes "refs/heads/") no_heads,
                  no_prefix fullref (codes "refs/remotes/") no_remotes,
                  no_prefix fullref (codes "refs/tags/") none_of_all,
                )
        ]
      ]
    ]
  ]
]

Names-parse_ref :
    (fullref : Bytes) (t : RefType) (name : Bytes)
    → Names t fullref name
    → parse_ref_to_type_and_name fullref ≡ (t, name)
unfolding parse_ref_to_type_and_name
Names-parse_ref fullref local_branch name e = ap parse_ref_to_type_and_name e
Names-parse_ref fullref remote_branch name e = ap parse_ref_to_type_and_name e
Names-parse_ref fullref local_tag name e = ap parse_ref_to_type_and_name e
Names-parse_ref fullref remote_tag name e = elim e [ ]
Names-parse_ref fullref head name (e, same) =
    ap parse_ref_to_type_and_name e ∙ ap (λ n. (head, n)) (sym (same ∙ e))
Names-parse_ref fullref other name (same, no_head, no_heads, no_remotes, no_tags) =
    let more : equal fullref (codes "HEAD") ≡ false =
      elim (Bool-cases (equal fullref (codes "HEAD"))) [
        | inl is_head ↦ absurd (no_head ((equal_iff fullref (codes "HEAD")).0 is_head))
        | inr differs ↦ differs
      ] in
    rw
      (
        more,
        no_prefix-of fullref (codes "refs/heads/") no_heads,
        no_prefix-of fullref (codes "refs/remotes/") no_remotes,
        no_prefix-of fullref (codes "refs/remotes/tags/") (λ n. no_remotes (codes "tags/" ++ n)),
        no_prefix-of fullref (codes "refs/tags/") no_tags,
      )
      (ap (λ n. (other, n)) (sym same))

-- The type and the name that are given for a full name: a local branch, a remote branch or a local tag exactly where the full
-- name is the prefix of that type in front of the name; the head exactly for `HEAD`; for all else the full name, of another type.
-- The type of a remote tag is never given: a full name with its prefix is that of a remote branch.
pub parse_ref_lem :
    (fullref : Bytes) (t : RefType) (name : Bytes)
    → (parse_ref_to_type_and_name fullref ≡ (t, name)) ↔ Names t fullref name
parse_ref_lem fullref t name = (
  λ e. subst (λ r. Names r.0 fullref r.1) e (parse_ref-Names fullref),
  Names-parse_ref fullref t name,
)
