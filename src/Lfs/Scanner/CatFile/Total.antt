-- ===== src/Lfs/Scanner/CatFile/Total.antt =====
-- lfs/gitscanner_catfilebatch.go: the loops end on every stream.
use expert_octo_doodle.Common.{
  ℕ, zero, suc, ◌+◌, ◌≤◌, ◌<◌, List, [], ◌∷◌, Option, some, leb, Bytes, split_once,
  split_once_sound, length, length-append, length-drop, drop, take, ◌≡◌, ◌≢◌, ap, arith,
  Option-cases, Bool-cases, inl, inr,
}
use expert_octo_doodle.Errors.{Fault}
use expert_octo_doodle.Lfs.Pointer.Decode.{Decoded, ok, err, panic}
use expert_octo_doodle.Lfs.Scanner.{WrappedPointer}
use expert_octo_doodle.Lfs.Scanner.CatFile.{
  after, panicked, stuck, Found, found, ended, fields, buffer_size, wrap_pointer, end_round,
  read_object, read_fields, scan_pointer, Batch, next_batch, batch_output, cat_file_batch_output,
}

-- A result that is not `stuck`, and leaves fewer bytes than `n` if it is a pointer.
abbrev Leaves : ℕ → Found → Type 0
Leaves n (found p rest) = length rest < n
Leaves n stuck = zero ≡ suc zero
Leaves n _ = Unit

Leaves-le : (m n : ℕ) (f : Found) → m ≤ n → Leaves m f → Leaves n f
Leaves-le m n (found p rest) le h = omega arith
Leaves-le m n (ended e) le h = tt
Leaves-le m n panicked le h = tt
Leaves-le m n stuck le h = h

length-split_once : (sep : ℕ) (s a b : Bytes) → split_once sep s ≡ some (a, b) → length b < length s
length-split_once sep s a b h =
    let whole = ap length (split_once_sound sep s a b h).0 in
    omega (arith, whole, length-append a (sep ∷ b))

module _ (ending : Option Fault) where
  end_round-Leaves :
      (next : Bytes → Found) (s : Bytes) (d : Decoded WrappedPointer) (n : ℕ)
      → length s ≤ n
      → ((t : Bytes) → length t < n → Leaves n (next t))
      → Leaves n (end_round ending next s d)
  unfolding end_round
  end_round-Leaves next s d n le h = elim (Option-cases (split_once b'\n' s)) [
    | inl short ↦ rw (short, end_round) tt
    | inr ((a, rest), cut) ↦ rw (cut, end_round) (go d rest (length-split_once b'\n' s a rest cut))
  ]
    where
      go :
          (d : Decoded WrappedPointer) (rest : Bytes)
          → length rest < length s
          → Leaves n (after next rest d)
      go (ok p) rest lt = omega arith
      go (err e) rest lt = h rest (omega arith)
      go panic rest lt = tt

  read_object-Leaves :
      (next : Bytes → Found) (sha1 size s : Bytes) (n : ℕ)
      → length s ≤ n
      → ((t : Bytes) → length t < n → Leaves n (next t))
      → Leaves n (read_object ending next sha1 size s)
  unfolding read_object
  read_object-Leaves next sha1 size s n le h = elim (Option-cases (buffer_size size)) [
    | inl bad ↦ rw (bad, read_object) tt
    | inr (m, good) ↦ elim (Bool-cases (leb m (length s))) [
      | inr short ↦ rw (good, short, read_object) tt
      | inl fits ↦
          rw (good, fits, read_object)
            (end_round-Leaves next (drop m s) (wrap_pointer sha1 (take m s)) n
              (omega (arith, length-drop m s)) h)
    ]
  ]

  read_fields-Leaves :
      (next : Bytes → Found) (fs : List Bytes) (line s : Bytes) (n : ℕ)
      → length s ≤ n
      → ((t : Bytes) → length t < n → Leaves n (next t))
      → Leaves n (read_fields ending next fs line s)
  unfolding read_fields
  read_fields-Leaves next (sha1 ∷ kind ∷ size ∷ more) line s n le h =
      read_object-Leaves next sha1 size s n le h
  read_fields-Leaves next (sha1 ∷ kind ∷ []) line s n le h = tt
  read_fields-Leaves next (sha1 ∷ []) line s n le h = tt
  read_fields-Leaves next [] line s n le h = tt

  scan_pointer-Leaves :
      (fuel : ℕ) (s : Bytes) → length s < fuel → Leaves (length s) (scan_pointer ending fuel s)
  unfolding scan_pointer
  scan_pointer-Leaves zero s lt = absurd (omega arith)
  scan_pointer-Leaves (suc fuel) s lt = elim (Option-cases (split_once b'\n' s)) [
    | inl short ↦ rw (short, scan_pointer) tt
    | inr ((a, rest), cut) ↦
        let less = length-split_once b'\n' s a rest cut in
        let shorter =
          read_fields-Leaves (scan_pointer ending fuel) (fields a) a rest (length rest)
            (omega arith)
            (λ t lt'.
              Leaves-le (length t) (length rest) (scan_pointer ending fuel t) (omega arith)
                (scan_pointer-Leaves fuel t (omega arith))) in
        rw (cut, scan_pointer)
          (Leaves-le (length rest) (length s)
            (read_fields ending (scan_pointer ending fuel) (fields a) a rest) (omega arith) shorter)
  ]

  next_batch-ends :
      (next : Bytes → Batch ending) (f : Found) (n : ℕ)
      → Leaves n f
      → ((t : Bytes) → length t < n → (next t).outcome ≢ stuck)
      → (next_batch ending next f).outcome ≢ stuck
  next_batch-ends next (found p rest) n less h = h rest less
  next_batch-ends next (ended e) n less h = λ same. cc
  next_batch-ends next panicked n less h = λ same. cc
  next_batch-ends next stuck n less h = absurd (omega arith)

  batch_output-ends :
      (fuel : ℕ) (s : Bytes) → length s < fuel → (batch_output ending fuel s).outcome ≢ stuck
  unfolding batch_output
  batch_output-ends zero s lt = absurd (omega arith)
  batch_output-ends (suc fuel) s lt =
      next_batch-ends (batch_output ending fuel) (scan_pointer ending (length s + 1) s) (length s)
        (scan_pointer-Leaves (length s + 1) s (omega arith))
        (λ t less. batch_output-ends fuel t (omega arith))

  -- On every stream the loop of `catFileBatchOutput` ends, and with it every call of `scanPointer`.
  pub cat_file_batch_output-ne-stuck :
      (s : Bytes) → (cat_file_batch_output ending s).outcome ≢ stuck
  unfolding cat_file_batch_output
  cat_file_batch_output-ne-stuck s = batch_output-ends (length s + 1) s (omega arith)
