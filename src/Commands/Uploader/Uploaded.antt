-- ===== src/Commands/Uploader/Uploaded.antt =====
-- commands/uploader.go: each object is uploaded once, and none is forgotten.
use expert_octo_doodle.Common.{
  ℕ, ◌+◌, ◌%◌, ◌^◌, ◌≤◌, Bytes, List, [], ◌∷◌, Option, none, some, Bool, true, false, not, ◌&&◌,
  ◌||◌, if◌then◌else◌, length, length-append, equal, is_in, ◌≡◌, ◌≢◌, refl, sym, ap, ◌∙◌, if_same,
  arith, Bool-cases, Option-cases, inl, inr,
}
use expert_octo_doodle.Lfs.Scanner.{WrappedPointer}
use expert_octo_doodle.Commands.Fetch.{oid_of}
use expert_octo_doodle.Commands.Fetch.Once.{times, oids_of, once}
use expert_octo_doodle.Progress.{new_progress_meter}
use expert_octo_doodle.Tools.StringSet.{StringSet}
use expert_octo_doodle.Commands.Uploader.{
  end_of, exited, sort_pointers, check_missing, skip_or_add, prepare_upload, add_uploadables,
  upload,
}
use expert_octo_doodle.Commands.Uploader.Counts.{
  sizes, if_swap, is_in-times, sort-once, sort-counts, skip_or_add-counts, skip_or_add-lt,
  skip_or_add-once, check_missing-keeps, times-append, sizes-append, once-le,
}

module _ (S : StringSet) (exists_of_size : Bytes → ℕ → Bool) where
  module _ (found : List WrappedPointer → List Bytes) (done : S.Carrier)
      (ps : List WrappedPointer) where
    prepared-times :
        (k : Bytes)
        → let r = prepare_upload S exists_of_size found done ps in
          let missing = (sort_pointers S exists_of_size done S.empty ps).missing in
          times k (oids_of r.2) + (if S.contains r.0 k then times k (oids_of missing) else 0)
          ≡ once (is_in (oids_of ps) k && not (S.contains done k))
    unfolding prepare_upload
    prepared-times k =
        let s = sort_pointers S exists_of_size done S.empty ps in
        let checked = check_missing S exists_of_size found s.missing done in
        let meter = new_progress_meter s.num_objects s.total_size in
        let rest = skip_or_add S exists_of_size checked s.missing meter in
        let sorted =
          sort-once S exists_of_size done S.empty ps k
          ∙ ap (λ b. once (is_in (oids_of ps) k && not (b || S.contains done k)))
              (S.contains-empty k) in
        omega (
          arith,
          times-append S exists_of_size k s.uploadables rest.1,
          skip_or_add-once S exists_of_size checked s.missing meter k,
          sorted,
        )

    prepared-counts :
        let r = prepare_upload S exists_of_size found done ps in
        (r.1.estimated_files ≡ length r.2 % 2 ^ 32) × (r.1.estimated_bytes ≡ sizes r.2 % 2 ^ 64)
    unfolding prepare_upload
    prepared-counts =
        let s = sort_pointers S exists_of_size done S.empty ps in
        let checked = check_missing S exists_of_size found s.missing done in
        let meter = new_progress_meter s.num_objects s.total_size in
        let rest = skip_or_add S exists_of_size checked s.missing meter in
        let counts = sort-counts S exists_of_size done S.empty ps in
        let left = skip_or_add-counts S exists_of_size checked s.missing meter in
        let small =
          skip_or_add-lt S exists_of_size checked s.missing meter (omega arith)
            (omega (arith, counts.1)) in
        (
          omega (arith, counts.0, left.0, small.0, length-append s.uploadables rest.1),
          omega (
            arith,
            counts.1,
            left.1,
            small.1,
            sizes-append S exists_of_size s.uploadables rest.1,
          ),
        )

    prepared-keeps :
        (k : Bytes)
        → S.contains done k ≡ true
        → S.contains (prepare_upload S exists_of_size found done ps).0 k ≡ true
    unfolding prepare_upload
    prepared-keeps k h =
        check_missing-keeps S exists_of_size found
          (sort_pointers S exists_of_size done S.empty ps).missing done k h

    -- Each object is uploaded once at most; it is uploaded if it was scanned and neither was uploaded before nor is known to
    -- the server, and not if it was uploaded before. The estimates of the meter are the number and the size
    -- of what is uploaded.
    pub prepare_upload-once :
        (k : Bytes)
        → let r = prepare_upload S exists_of_size found done ps in
          (times k (oids_of r.2) ≤ 1)
          × (is_in (oids_of ps) k ≡ true → S.contains r.0 k ≡ false → times k (oids_of r.2) ≡ 1)
          × (S.contains done k ≡ true → times k (oids_of r.2) ≡ 0)
          × (r.1.estimated_files ≡ length r.2 % 2 ^ 32)
          × (r.1.estimated_bytes ≡ sizes r.2 % 2 ^ 64)
    prepare_upload-once k =
        let r = prepare_upload S exists_of_size found done ps in
        let counted = prepared-times k in
        (
          omega (
            arith,
            counted,
            once-le S exists_of_size (is_in (oids_of ps) k && not (S.contains done k)),
          ),
          λ scanned fresh. elim (Bool-cases (S.contains done k)) [
            | inl before ↦ cc (prepared-keeps k before)
            | inr new ↦ ground (arith, counted)
          ],
          λ before. ground (arith, counted),
          prepared-counts.0,
          prepared-counts.1,
        )

    -- What was scanned is among the pointers or known to the server.
    covered :
        (k : Bytes)
        → is_in (oids_of ps) k ≡ true
        → let r = prepare_upload S exists_of_size found done ps in
          (if is_in (oids_of r.2) k then true else S.contains r.0 k) ≡ true
    covered k scanned =
        let r = prepare_upload S exists_of_size found done ps in
        elim (Bool-cases (S.contains r.0 k)) [
          | inl known ↦ rw known (if_same (is_in (oids_of r.2) k) true)
          | inr new ↦ rw (is_in-times k r.2 ((prepare_upload-once k).1 scanned new))
        ]

    add_uploadables-next :
        (new_uploadable : WrappedPointer → Option Bytes) (q : WrappedPointer)
        (qs : List WrappedPointer) (c : S.Carrier)
        → let rest = add_uploadables S exists_of_size new_uploadable qs (S.add (oid_of q) c) in
          (new_uploadable q ≡ none
            → add_uploadables S exists_of_size new_uploadable (q ∷ qs) c
              ≡ (rest.0, rest.1, q ∷ rest.2))
          × ((e : Bytes)
              → new_uploadable q ≡ some e
              → add_uploadables S exists_of_size new_uploadable (q ∷ qs) c ≡ (some e, c, []))
    unfolding add_uploadables
    add_uploadables-next new_uploadable q qs c =
        (λ fine. rw (fine, add_uploadables), λ e wrong. rw (wrong, add_uploadables))

    add-contains :
        (new_uploadable : WrappedPointer → Option Bytes) (qs : List WrappedPointer) (c : S.Carrier)
        (k : Bytes)
        → let r = add_uploadables S exists_of_size new_uploadable qs c in
          r.0 ≡ none
          → (r.2 ≡ qs)
            × (S.contains r.1 k ≡ (if is_in (oids_of qs) k then true else S.contains c k))
    unfolding add_uploadables
    add-contains new_uploadable [] c k ok = (refl, refl)
    add-contains new_uploadable (q ∷ qs) c k ok = elim (Option-cases (new_uploadable q)) [
      | inr (e, wrong) ↦
          cc (ap (λ r. r.0) (sym ((add_uploadables-next new_uploadable q qs c).1 e wrong)) ∙ ok)
      | inl fine ↦
          let next = (add_uploadables-next new_uploadable q qs c).0 fine in
          let (same, has) =
            add-contains new_uploadable qs (S.add (oid_of q) c) k (ap (λ r. r.0) (sym next) ∙ ok) in
          (
            ap (λ r. r.2) next ∙ ap (λ l. q ∷ l) same,
            ap (λ r. S.contains r.1 k) next
                ∙ has
                ∙ ap (λ b. if is_in (oids_of qs) k then true else b) (S.contains-add (oid_of q) k c)
                ∙ if_swap (equal (oid_of q) k) (is_in (oids_of qs) k) (S.contains c k),
          )
    ]

    module _ (new_uploadable : WrappedPointer → Option Bytes) (errors : List Bytes) where
      upload-exited :
          (e : Bytes)
          → (let prepared = prepare_upload S exists_of_size found done ps in
              (add_uploadables S exists_of_size new_uploadable prepared.2 prepared.0).0 ≡ some e)
          → (upload S exists_of_size found new_uploadable errors done ps).0 ≡ exited e
      unfolding upload
      upload-exited e wrong = ap (λ o. end_of o errors) wrong

      -- After an upload that no object has stopped, each object that was scanned counts as uploaded: it was before, or the server
      -- has it, or it was added to the queue; and the queue has the pointers that were prepared.
      pub upload-covers :
          let r = upload S exists_of_size found new_uploadable errors done ps in
          ((e : Bytes) → r.0 ≢ exited e)
          → (r.2.added ≡ (prepare_upload S exists_of_size found done ps).2)
            × ((k : Bytes) → is_in (oids_of ps) k ≡ true → S.contains r.1 k ≡ true)
      unfolding upload
      upload-covers well =
          let prepared = prepare_upload S exists_of_size found done ps in
          let added = add_uploadables S exists_of_size new_uploadable prepared.2 prepared.0 in
          elim (Option-cases added.0) [
            | inr (e, wrong) ↦ absurd (well e (upload-exited e wrong))
            | inl ok ↦ (
              (add-contains new_uploadable prepared.2 prepared.0 [] ok).0,
              λ k scanned.
                  (add-contains new_uploadable prepared.2 prepared.0 k ok).1 ∙ covered k scanned,
            )
          ]
