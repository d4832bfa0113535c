-- ===== src/Config/Extensions/Ints.antt =====
-- Numbers in ascending order.
use expert_octo_doodle.Common.{ℕ, ◌≤◌, List, [], ◌∷◌, leb, inl, inr, arith, All, Bool-cases}
use mathlib.Core.List.{Perm}
use mathlib.Core.List.Perm
use expert_octo_doodle.Config.Extensions.{insert_int, sort_ints}

abbrev pub IsAscending : List ℕ → Type 0
IsAscending [] = Unit
IsAscending (p ∷ ps) = All (λ q. p ≤ q) ps × IsAscending ps

insert_int-Perm : (p : ℕ) (qs : List ℕ) → Perm (insert_int p qs) (p ∷ qs)
unfolding insert_int
insert_int-Perm p [] = Perm.rfl
insert_int-Perm p (q ∷ qs) = elim (Bool-cases (leb p q)) [
  | inl before ↦ rw before Perm.rfl
  | inr behind ↦ rw behind (Perm.trans (Perm.cons q (insert_int-Perm p qs)) (Perm.swap p q qs))
]

pub sort_ints-Perm : (ps : List ℕ) → Perm (sort_ints ps) ps
unfolding sort_ints
sort_ints-Perm [] = Perm.rfl
sort_ints-Perm (p ∷ ps) =
    Perm.trans (insert_int-Perm p (sort_ints ps)) (Perm.cons p (sort_ints-Perm ps))

All-insert_int : (P : ℕ → Type 0) (p : ℕ) (qs : List ℕ) → P p → All P qs → All P (insert_int p qs)
unfolding insert_int
All-insert_int P p [] one h = (one, tt)
All-insert_int P p (q ∷ qs) one (hq, h) = elim (Bool-cases (leb p q)) [
  | inl before ↦ rw before (one, (hq, h))
  | inr behind ↦ rw behind (hq, All-insert_int P p qs one h)
]

pub All-sort_ints : (P : ℕ → Type 0) (ps : List ℕ) → All P ps → All P (sort_ints ps)
unfolding sort_ints
All-sort_ints P [] h = tt
All-sort_ints P (p ∷ ps) (one, h) = All-insert_int P p (sort_ints ps) one (All-sort_ints P ps h)

All-le : (p q : ℕ) (qs : List ℕ) → p ≤ q → All (λ r. q ≤ r) qs → All (λ r. p ≤ r) qs
All-le p q [] le h = tt
All-le p q (r ∷ qs) le (hr, h) = (omega arith, All-le p q qs le h)

insert_int-IsAscending : (p : ℕ) (qs : List ℕ) → IsAscending qs → IsAscending (insert_int p qs)
unfolding insert_int
insert_int-IsAscending p [] h = (tt, tt)
insert_int-IsAscending p (q ∷ qs) (below, h) = elim (Bool-cases (leb p q)) [
  | inl before ↦
      let le : p ≤ q = ground (arith, before) in
      rw before ((le, All-le p q qs le below), (below, h))
  | inr behind ↦ rw behind (
    All-insert_int (λ r. q ≤ r) p qs (ground (arith, behind)) below,
    insert_int-IsAscending p qs h,
  )
]

pub sort_ints-IsAscending : (ps : List ℕ) → IsAscending (sort_ints ps)
unfolding sort_ints
sort_ints-IsAscending [] = tt
sort_ints-IsAscending (p ∷ ps) = insert_int-IsAscending p (sort_ints ps) (sort_ints-IsAscending ps)
