-- ===== src/Lfs/Pointer/Sorted.antt =====
-- The extensions of a parsed pointer stand in the order of their priorities, which differ.
use expert_octo_doodle.Common.{
  ℕ, ◌<◌, List, [], ◌∷◌, false, leb, Bytes, ◌≡◌, ◌≢◌, arith, All, Bool-cases, inl, inr,
}
use expert_octo_doodle.Lfs.Pointer.{Pointer, PointerExtension}
use expert_octo_doodle.Lfs.Pointer.Decode.{
  ok, validate_from, has_priority, insert_by_priority, sort_by_priority, decode_kv,
}
use expert_octo_doodle.Lfs.Pointer.WellFormed.{Increasing}

abbrev Differs : ℕ → PointerExtension → Type 0
Differs n x = x.priority ≢ n

abbrev AreDistinct : List PointerExtension → Type 0
AreDistinct [] = Unit
AreDistinct (e ∷ es) = All (Differs e.priority) es × AreDistinct es

validate-has_priority :
    (m : List ℕ) (es : List PointerExtension)
    → validate_from m es ≡ ok tt
    → All (λ x. has_priority x.priority m ≡ false) es
unfolding validate_from
validate-has_priority m [] h = tt
validate-has_priority m (e ∷ es) h = elim (Bool-cases (has_priority e.priority m)) [
  | inl seen ↦ cc (rw seen at h)
  | inr new ↦ (new, weaken es (validate-has_priority (e.priority ∷ m) es (rw new at h)))
]
  where
    weaken :
        (xs : List PointerExtension)
        → All (λ x. has_priority x.priority (e.priority ∷ m) ≡ false) xs
        → All (λ x. has_priority x.priority m ≡ false) xs
    weaken [] h = tt
    weaken (x ∷ xs) (one, h) = (ground arith, weaken xs h)

validate-AreDistinct :
    (m : List ℕ) (es : List PointerExtension) → validate_from m es ≡ ok tt → AreDistinct es
unfolding validate_from
validate-AreDistinct m [] h = tt
validate-AreDistinct m (e ∷ es) h = elim (Bool-cases (has_priority e.priority m)) [
  | inl seen ↦ cc (rw seen at h)
  | inr new ↦
      let rest = rw new at h in
      (
        differ es (validate-has_priority (e.priority ∷ m) es rest),
        validate-AreDistinct (e.priority ∷ m) es rest,
      )
]
  where
    differ :
        (xs : List PointerExtension)
        → All (λ x. has_priority x.priority (e.priority ∷ m) ≡ false) xs
        → All (Differs e.priority) xs
    differ [] h = tt
    differ (x ∷ xs) (one, h) = ((λ same. ground arith), differ xs h)

All-insert :
    (P : PointerExtension → Type 0) (e : PointerExtension) (xs : List PointerExtension)
    → P e
    → All P xs
    → All P (insert_by_priority e xs)
unfolding insert_by_priority
All-insert P e [] pe h = (pe, tt)
All-insert P e (x ∷ xs) pe (px, h) = elim (Bool-cases (leb e.priority x.priority)) [
  | inl before ↦ rw before (pe, (px, h))
  | inr behind ↦ rw behind (px, All-insert P e xs pe h)
]

All-sort :
    (P : PointerExtension → Type 0) (es : List PointerExtension)
    → All P es
    → All P (sort_by_priority es)
unfolding sort_by_priority
All-sort P [] h = tt
All-sort P (e ∷ es) (pe, h) = All-insert P e (sort_by_priority es) pe (All-sort P es h)

All-below :
    (n : ℕ) (x : PointerExtension) (xs : List PointerExtension)
    → n < x.priority
    → All (λ y. x.priority < y.priority) xs
    → All (λ y. n < y.priority) xs
All-below n x [] lt h = tt
All-below n x (y ∷ ys) lt (one, h) = (omega arith, All-below n x ys lt h)

insert-Increasing :
    (e : PointerExtension) (xs : List PointerExtension)
    → Increasing xs
    → All (Differs e.priority) xs
    → Increasing (insert_by_priority e xs)
unfolding insert_by_priority
insert-Increasing e [] inc new = (tt, tt)
insert-Increasing e (x ∷ xs) (lts, inc) (one, new) = elim (Bool-cases (leb e.priority x.priority)) [
  | inl before ↦
      let lt : e.priority < x.priority = ground arith in
      rw before ((lt, All-below e.priority x xs lt lts), (lts, inc))
  | inr behind ↦ rw behind (
    All-insert (λ y. x.priority < y.priority) e xs (ground arith) lts,
    insert-Increasing e xs inc new,
  )
]

distinct-Increasing :
    (es : List PointerExtension) → AreDistinct es → Increasing (sort_by_priority es)
unfolding sort_by_priority
distinct-Increasing [] h = tt
distinct-Increasing (e ∷ es) (new, h) =
    insert-Increasing e (sort_by_priority es) (distinct-Increasing es h)
      (All-sort (Differs e.priority) es new)

validate-Increasing_sort :
    (es : List PointerExtension) → validate_from [] es ≡ ok tt → Increasing (sort_by_priority es)
validate-Increasing_sort es h = distinct-Increasing es (validate-AreDistinct [] es h)

-- A text that `decodeKV` accepts gives a pointer whose extensions stand in the order of their
-- priorities, no two of them equal.
pub decode_kv-Increasing :
    (text : Bytes) (p : Pointer) → decode_kv text ≡ ok p → Increasing p.extensions
unfolding decode_kv
decode_kv-Increasing text p h = grind (arith, validate-Increasing_sort)
