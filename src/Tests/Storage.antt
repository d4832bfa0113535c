-- ===== src/Tests/Storage.antt =====
-- A set of strings as a list, and a disk as the list of its files.
use expert_octo_doodle.Common.{
  Bytes, codes, equal, equal_iff, equal_refl, List, [], ◌∷◌, Option, none, some, Bool, true, false,
  ◌&&◌, if◌then◌else◌, ◌≡◌, ◌≢◌, refl, arith, is_in, Bool-cases, inl, inr, ap, ◌∙◌,
}
use expert_octo_doodle.Errors.{Fault, plain}
use expert_octo_doodle.LocalStorage.{FilePath, StoredFile, FileSystem}
use expert_octo_doodle.Tools.StringSet.{StringSet}

abbrev pub list_set : StringSet
list_set = record {
  Carrier = List Bytes;
  empty = [];
  add = λ i s. i ∷ s;
  contains = is_in;
  elements = λ s. s;
  contains-empty = λ i. refl;
  contains-add = λ i j s. refl;
  elements-contains = λ i s. refl;
}

abbrev same_dirs : List Bytes → List Bytes → Bool
same_dirs [] [] = true
same_dirs [] (e ∷ es) = false
same_dirs (d ∷ ds) [] = false
same_dirs (d ∷ ds) (e ∷ es) = equal d e && same_dirs ds es

abbrev same_path : FilePath → FilePath → Bool
same_path p q = same_dirs p.dir q.dir && equal p.name q.name

same_dirs_refl : (ds : List Bytes) → same_dirs ds ds ≡ true
same_dirs_refl [] = refl
same_dirs_refl (d ∷ ds) = rw (equal_refl d, same_dirs_refl ds)

same_dirs_eq : (ds es : List Bytes) → same_dirs ds es ≡ true → ds ≡ es
same_dirs_eq [] [] h = refl
same_dirs_eq [] (e ∷ es) h = cc
same_dirs_eq (d ∷ ds) [] h = cc
same_dirs_eq (d ∷ ds) (e ∷ es) h = elim (Bool-cases (equal d e)) [
  | inr other ↦ cc (rw other at h)
  | inl same ↦
      let d≡e = (equal_iff d e).0 same in
      let ds≡es = same_dirs_eq ds es (rw same at h) in rw (d≡e, ds≡es)
]

same_path_eq : (p q : FilePath) → same_path p q ≡ true → p ≡ q
same_path_eq p q h = elim (Bool-cases (same_dirs p.dir q.dir)) [
  | inr other ↦ cc (rw other at h)
  | inl same ↦
      let dirs = same_dirs_eq p.dir q.dir same in
      let names = (equal_iff p.name q.name).0 (rw same at h) in
      ap (λ d. record { dir = d; name = p.name }) dirs
      ∙ ap (λ n. record { dir = q.dir; name = n }) names
]

same_path_refl : (p : FilePath) → same_path p p ≡ true
same_path_refl p = rw (same_dirs_refl p.dir, equal_refl p.name)

abbrev is_file : FilePath → List StoredFile → Bool
is_file p [] = false
is_file p (f ∷ fs) = if same_path f.path p then true else is_file p fs

abbrev without : FilePath → List StoredFile → List StoredFile
without p [] = []
without p (f ∷ fs) = let rest = without p fs in if same_path f.path p then rest else f ∷ rest

abbrev unlink : FilePath → List StoredFile → Option Fault × List StoredFile
unlink p fs =
    if is_file p fs then (none, without p fs) else (some (plain (codes "no such file")), fs)

pub without_gone : (p : FilePath) (fs : List StoredFile) → is_file p (without p fs) ≡ false
without_gone p [] = refl
without_gone p (f ∷ fs) = ground (arith, without_gone p fs)

pub without_kept :
    (p q : FilePath) (fs : List StoredFile) → p ≢ q → is_file q (without p fs) ≡ is_file q fs
without_kept p q [] ne = refl
without_kept p q (f ∷ fs) ne = elim (Bool-cases (same_path f.path p)) [
  | inr other ↦ rw (other, without_kept p q fs ne)
  | inl same ↦ elim (Bool-cases (same_path f.path q)) [
    | inl both ↦
        let f≡p = same_path_eq f.path p same in
        let f≡q = same_path_eq f.path q both in absurd (ne cc)
    | inr other ↦ rw (same, other, without_kept p q fs ne)
  ]
]

abbrev pub list_disk : FileSystem
list_disk = record {
  Disk = List StoredFile;
  walk = λ k. k;
  is_there = is_file;
  make_dirs = λ dir k. (none, k);
  remove = unlink;
  there-make_dirs = λ dir p k. refl;
  there-remove = λ p q k ne. elim (Bool-cases (is_file p k)) [
    | inl file ↦ rw file (without_kept p q k ne)
    | inr missing ↦ rw missing refl
  ];
  gone-remove = λ p k done. elim (Bool-cases (is_file p k)) [
    | inl file ↦ rw file (without_gone p k)
    | inr missing ↦ rw missing missing
  ];
}
