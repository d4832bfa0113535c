-- ===== src/LocalStorage/Scanned.antt =====
-- localstorage/scan.go: the objects that a scan gives have a place in the storage.
use native.Mathlib.Omega.{arith}
use expert_octo_doodle.Common.{
  ℕ, zero, suc, ◌≤◌, Bytes, List, [], ◌∷◌, some, true, leb, length, take, drop, All, ◌≡◌,
  Bool-cases, inl, inr,
}
use expert_octo_doodle.Lfs.Pointer.Decode.{begins_alnum}
use expert_octo_doodle.LocalStorage.{StoredFile, matches_oid, scan_objects, slice, local_object_dir}

abbrev pub IsLong : Bytes → Type 0
IsLong oid = 64 ≤ length oid

begins_alnum-length : (n : ℕ) (s : Bytes) → begins_alnum n s ≡ true → n ≤ length s
unfolding begins_alnum
begins_alnum-length zero s h = omega arith
begins_alnum-length (suc n) [] h = cc
begins_alnum-length (suc n) (c ∷ s) h = ground (arith, begins_alnum-length n s)

matches_oid-IsLong : (s : Bytes) → matches_oid s ≡ true → IsLong s
unfolding matches_oid
matches_oid-IsLong s h = begins_alnum-length 64 s h

pub scan_objects-IsLong : (fs : List StoredFile) → All (λ o. IsLong o.oid) (scan_objects fs)
unfolding scan_objects
scan_objects-IsLong [] = tt
scan_objects-IsLong (f ∷ fs) = elim (Bool-cases (matches_oid f.path.name)) [
  | inl m ↦ rw m (matches_oid-IsLong f.path.name m, scan_objects-IsLong fs)
  | inr other ↦ rw other (scan_objects-IsLong fs)
]

pub has_place : (oid : Bytes) → IsLong oid → (dir : List Bytes) × (local_object_dir oid ≡ some dir)
unfolding local_object_dir slice
has_place oid h =
    let short : leb 2 (length oid) ≡ true = ground arith in
    let enough : leb 4 (length oid) ≡ true = ground arith in
    (take 2 oid ∷ drop 2 (take 4 oid) ∷ [], rw (local_object_dir, slice, short, enough))
