-- ===== src/Lfs/Scanner/Refs/Pipeline.antt =====
-- lfs/gitscanner_catfilebatchcheck.go: the small blobs among the objects that git prints.
use expert_octo_doodle.Common.{
  ℕ, ◌<◌, ◌^◌, List, [], ◌∷◌, ◌++◌, map, none, some, Bool, true, false, if◌then◌else◌, ltb, leb,
  Bytes, codes, equal, take, drop, length, length-append, take-append_self, drop-append_self,
  decimal, ◌≡◌, ◌≢◌, refl, sym, ap, ◌∙◌, arith, All, append_assoc, Bool-cases, inl, inr,
}
use expert_octo_doodle.Common.Decimal.{decimal-ne-nil, parse_int-decimal}
use expert_octo_doodle.Lfs.Pointer.Decode.{blob_size_cutoff}
use expert_octo_doodle.Lfs.Scanner.CatFile.Objects.{GitObject, IsWord, info_line}
use expert_octo_doodle.Lfs.Scanner.Refs.{blob_oid, blob_oids}

-- The four types of an object in git.
pub data ObjectType : Type 0 where
  blob tree commit tag : ObjectType

abbrev pub type_name : ObjectType → Bytes
type_name blob = codes "blob"
type_name tree = codes "tree"
type_name commit = codes "commit"
type_name tag = codes "tag"

-- An object of the repository, with the path that `git rev-list --objects` prints of it, which is empty for
-- commits and for the trees of commits. The name of an object has 40 bytes.
pub record Stored : Type 0 where
  pub sha1 : Bytes
  pub type : ObjectType
  pub content : Bytes
  pub path : Bytes

pub record IsStored (o : Stored) : Type 0 where
  pub sha1_ok : IsWord o.sha1
  pub sha1_length : length o.sha1 ≡ 40
  pub size_lt : length o.content < 2 ^ 63

abbrev pub to_git : Stored → GitObject
to_git o = record { sha1 = o.sha1; kind = type_name o.type; content = o.content }

abbrev pub is_small_blob : Stored → Bool
is_small_blob o = elim o.type [ blob ↦ ltb (length o.content) blob_size_cutoff | _ ↦ false ]

pub drop-of_length : (n : ℕ) (xs ys : Bytes) → length xs ≡ n → drop n (xs ++ ys) ≡ ys
drop-of_length n xs ys h = ap (λ m. drop m (xs ++ ys)) (sym h) ∙ drop-append_self xs ys

pub take-of_length : (n : ℕ) (xs ys : Bytes) → length xs ≡ n → take n (xs ++ ys) ≡ xs
take-of_length n xs ys h = ap (λ m. take m (xs ++ ys)) (sym h) ∙ take-append_self xs ys

length-decimal : (n : ℕ) → 0 < length (decimal n)
length-decimal n = go (decimal n) (decimal-ne-nil n)
  where
    go : (s : Bytes) → s ≢ [] → 0 < length s
    go [] h = absurd (h refl)
    go (c ∷ s) h = omega arith

-- The line that git prints of an object.
abbrev line_of : Bytes → ObjectType → ℕ → Bytes
line_of sha1 type n = sha1 ++ (b' ' ∷ type_name type ++ (b' ' ∷ decimal n))

module _ (sha1 : Bytes) (n : ℕ) (forty : length sha1 ≡ 40) where
  behind_sha1 :
      (type : ObjectType) → drop 41 (line_of sha1 type n) ≡ type_name type ++ (b' ' ∷ decimal n)
  behind_sha1 type =
      let rest = type_name type ++ (b' ' ∷ decimal n) in
      ap (drop 41) (sym (append_assoc sha1 (b' ' ∷ []) rest))
      ∙ drop-of_length 41 (sha1 ++ b' ' ∷ []) rest
          (omega (arith, forty, length-append sha1 (b' ' ∷ [])))

  behind_blob : drop 46 (line_of sha1 blob n) ≡ decimal n
  behind_blob =
      ap (drop 46) (sym (append_assoc sha1 (codes " blob ") (decimal n)))
      ∙ drop-of_length 46 (sha1 ++ codes " blob ") (decimal n)
          (omega (arith, forty, length-append sha1 (codes " blob ")))

  no_blob :
      (type : ObjectType)
      → equal (take 4 (drop 41 (line_of sha1 type n))) (codes "blob") ≡ false
      → blob_oid (line_of sha1 type n) ≡ none
  unfolding blob_oid
  no_blob type other = ground arith

  blob_line :
      n < 2 ^ 63
      → blob_oid (line_of sha1 blob n) ≡ (if ltb n blob_size_cutoff then some sha1 else none)
  unfolding blob_oid equal
  blob_line lt =
      let long : leb 46 (length (line_of sha1 blob n)) ≡ true = ground (
        arith,
        forty,
        length-append sha1 (codes " blob " ++ decimal n),
        length-append (codes " blob ") (decimal n),
        length-decimal n,
      ) in
      let whole : take 40 (line_of sha1 blob n) ≡ sha1 =
        take-of_length 40 sha1 (codes " blob " ++ decimal n) forty in
      rw (long, behind_sha1 blob, behind_blob, parse_int-decimal n lt, whole, blob_oid)

  blob_oid-line_of :
      (type : ObjectType)
      → n < 2 ^ 63
      → blob_oid (line_of sha1 type n)
        ≡ (if elim type [ blob ↦ ltb n blob_size_cutoff | _ ↦ false ] then some sha1 else none)
  unfolding equal
  blob_oid-line_of blob lt = blob_line lt
  blob_oid-line_of tree lt = no_blob tree (rw (behind_sha1 tree) refl)
  blob_oid-line_of commit lt = no_blob commit (rw (behind_sha1 commit) refl)
  blob_oid-line_of tag lt = no_blob tag (rw (behind_sha1 tag) refl)

abbrev pub small_blobs : List Stored → List Stored
small_blobs [] = []
small_blobs (o ∷ os) = if is_small_blob o then o ∷ small_blobs os else small_blobs os

pub blob_oids-lines :
    (os : List Stored)
    → All IsStored os
    → blob_oids (map (λ o. info_line (to_git o)) os) ≡ map (λ o. o.sha1) (small_blobs os)
unfolding blob_oids
blob_oids-lines [] h = refl
blob_oids-lines (o ∷ os) (ho, h) =
    let first = blob_oid-line_of o.sha1 (length o.content) ho.sha1_length o.type ho.size_lt in
    elim (Bool-cases (is_small_blob o)) [
      | inl small ↦ rw (first, small, blob_oids) (ap (λ t. o.sha1 ∷ t) (blob_oids-lines os h))
      | inr other ↦ rw (first, other, blob_oids) (blob_oids-lines os h)
    ]

pub small_blobs-IsStored : (os : List Stored) → All IsStored os → All IsStored (small_blobs os)
small_blobs-IsStored [] h = tt
small_blobs-IsStored (o ∷ os) (ho, h) = elim (Bool-cases (is_small_blob o)) [
  | inl small ↦ rw small (ho, small_blobs-IsStored os h)
  | inr other ↦ rw other (small_blobs-IsStored os h)
]
