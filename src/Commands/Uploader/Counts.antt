-- ===== src/Commands/Uploader/Counts.antt =====
-- commands/uploader.go: how often an oid is sorted, checked and skipped.
use expert_octo_doodle.Common.{
  ℕ, ◌+◌, ◌%◌, ◌^◌, ◌≤◌, ◌<◌, Bytes, List, [], ◌∷◌, ◌++◌, Bool, true, false, not, ◌&&◌, ◌||◌,
  if◌then◌else◌, length, equal_iff, is_in, ◌≡◌, refl, ap, ◌∙◌, if_same, arith, Bool-cases, inl, inr,
}
use expert_octo_doodle.Lfs.Scanner.{WrappedPointer}
use expert_octo_doodle.Commands.Fetch.{oid_of}
use expert_octo_doodle.Commands.Fetch.Once.{times, oids_of, once}
use expert_octo_doodle.Progress.{ProgressMeter, skip}
use expert_octo_doodle.Tools.StringSet.{StringSet, contains-add_all}
use expert_octo_doodle.Commands.Uploader.{sort_pointers, check_missing, skip_or_add}

abbrev pub sizes : List WrappedPointer → ℕ
sizes [] = 0
sizes (p ∷ ps) = p.size + sizes ps

pub if_swap :
    (b c d : Bool)
    → (if c then true else (if b then true else d)) ≡ (if (if b then true else c) then true else d)
if_swap true c d = if_same c true
if_swap false c d = refl

pub is_in-times :
    (k : Bytes) (ps : List WrappedPointer) → times k (oids_of ps) ≡ 1 → is_in (oids_of ps) k ≡ true
is_in-times k [] h = absurd (omega (arith, h))
is_in-times k (p ∷ ps) h = ground (arith, is_in-times k ps)

module _ (S : StringSet) (exists_of_size : Bytes → ℕ → Bool) where
  pub sort-once :
      (done uniq : S.Carrier) (ps : List WrappedPointer) (k : Bytes)
      → let s = sort_pointers S exists_of_size done uniq ps in
        times k (oids_of s.uploadables) + times k (oids_of s.missing)
        ≡ once (is_in (oids_of ps) k && not (S.contains uniq k || S.contains done k))
  unfolding sort_pointers
  sort-once done uniq [] k = omega arith
  sort-once done uniq (p ∷ ps) k = ground (
    arith,
    equal_iff (oid_of p) k,
    S.contains-add (oid_of p) k uniq,
    sort-once done uniq ps k,
    sort-once done (S.add (oid_of p) uniq) ps k,
  )

  pub sort-counts :
      (done uniq : S.Carrier) (ps : List WrappedPointer)
      → let s = sort_pointers S exists_of_size done uniq ps in
        (s.num_objects ≡ length s.uploadables + length s.missing)
        × (s.total_size ≡ (sizes s.uploadables + sizes s.missing) % 2 ^ 64)
  unfolding sort_pointers
  sort-counts done uniq [] = (refl, refl)
  sort-counts done uniq (p ∷ ps) =
      ground (arith, sort-counts done uniq ps, sort-counts done (S.add (oid_of p) uniq) ps)

  -- What is skipped is taken off the estimates.
  pub skip_or_add-counts :
      (done : S.Carrier) (missing : List WrappedPointer) (m : ProgressMeter)
      → let r = skip_or_add S exists_of_size done missing m in
        ((r.0.estimated_files + length missing) % 2 ^ 32
          ≡ (m.estimated_files + length r.1) % 2 ^ 32)
        × ((r.0.estimated_bytes + sizes missing) % 2 ^ 64
            ≡ (m.estimated_bytes + sizes r.1) % 2 ^ 64)
  unfolding skip_or_add skip
  skip_or_add-counts done [] m = (refl, refl)
  skip_or_add-counts done (p ∷ missing) m = elim (Bool-cases (S.contains done (oid_of p))) [
    | inl has ↦ rw has (
      omega (arith, (skip_or_add-counts done missing (skip p.size m)).0),
      omega (arith, (skip_or_add-counts done missing (skip p.size m)).1),
    )
    | inr lacks ↦ rw lacks (
      omega (arith, (skip_or_add-counts done missing m).0),
      omega (arith, (skip_or_add-counts done missing m).1),
    )
  ]

  pub skip_or_add-lt :
      (done : S.Carrier) (missing : List WrappedPointer) (m : ProgressMeter)
      → m.estimated_files < 2 ^ 32
      → m.estimated_bytes < 2 ^ 64
      → let r = skip_or_add S exists_of_size done missing m in
        (r.0.estimated_files < 2 ^ 32) × (r.0.estimated_bytes < 2 ^ 64)
  unfolding skip_or_add skip
  skip_or_add-lt done [] m files bytes = (files, bytes)
  skip_or_add-lt done (p ∷ missing) m files bytes = elim (Bool-cases (S.contains done (oid_of p))) [
    | inl has ↦ rw has (skip_or_add-lt done missing (skip p.size m) (omega arith) (omega arith))
    | inr lacks ↦ rw lacks (skip_or_add-lt done missing m files bytes)
  ]

  pub skip_or_add-once :
      (done : S.Carrier) (missing : List WrappedPointer) (m : ProgressMeter) (k : Bytes)
      → times k (oids_of (skip_or_add S exists_of_size done missing m).1)
          + (if S.contains done k then times k (oids_of missing) else 0)
        ≡ times k (oids_of missing)
  unfolding skip_or_add
  skip_or_add-once done [] m k = ground arith
  skip_or_add-once done (p ∷ missing) m k = ground (
    arith,
    equal_iff (oid_of p) k,
    skip_or_add-once done missing (if S.contains done (oid_of p) then skip p.size m else m) k,
  )

  pub check_missing-keeps :
      (found : List WrappedPointer → List Bytes) (missing : List WrappedPointer) (done : S.Carrier)
      (k : Bytes)
      → S.contains done k ≡ true
      → S.contains (check_missing S exists_of_size found missing done) k ≡ true
  unfolding check_missing
  check_missing-keeps found [] done k h = h
  check_missing-keeps found (p ∷ missing) done k h =
      contains-add_all S (found (p ∷ missing)) done k
      ∙ ap (λ b. if is_in (found (p ∷ missing)) k then true else b) h
      ∙ if_same (is_in (found (p ∷ missing)) k) true

  pub times-append :
      (k : Bytes) (ps qs : List WrappedPointer)
      → times k (oids_of (ps ++ qs)) ≡ times k (oids_of ps) + times k (oids_of qs)
  times-append k [] qs = omega arith
  times-append k (p ∷ ps) qs = ground (arith, times-append k ps qs)

  pub sizes-append : (ps qs : List WrappedPointer) → sizes (ps ++ qs) ≡ sizes ps + sizes qs
  sizes-append [] qs = omega arith
  sizes-append (p ∷ ps) qs = omega (arith, sizes-append ps qs)

  pub once-le : (b : Bool) → once b ≤ 1
  once-le b = ground arith
