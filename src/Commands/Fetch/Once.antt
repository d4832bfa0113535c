-- ===== src/Commands/Fetch/Once.antt =====
-- commands/command_fetch.go: how often an oid is fetched and reported.
use expert_octo_doodle.Common.{
  ℕ, zero, suc, ◌+◌, ◌*◌, ◌≤◌, Bytes, List, [], ◌∷◌, ◌++◌, map, none, some, Bool, true, false, not,
  ◌&&◌, if◌then◌else◌, is_in, Map, lookup, insert, lookup-insert, equal, equal_iff, ◌≡◌, refl, sym,
  ap, ◌∙◌, arith, append_assoc, append-nil, Option-cases, Bool-cases, inl, inr,
}
use expert_octo_doodle.Commands.Fetch.{
  oid_of, select_pointers, ready_and_missing_pointers, oid_to_pointers, report_completed,
  fetch_and_report,
}
use expert_octo_doodle.Lfs.Scanner.{WrappedPointer}

-- How often an oid stands in a list.
abbrev pub times : Bytes → List Bytes → ℕ
times k [] = 0
times k (j ∷ js) = if equal j k then suc (times k js) else times k js

abbrev pub oids_of : List WrappedPointer → List Bytes
oids_of ps = map oid_of ps

abbrev pub allowed : (Bytes → Bool) → List WrappedPointer → List WrappedPointer
allowed allows [] = []
allowed allows (p ∷ ps) = if allows p.name then p ∷ allowed allows ps else allowed allows ps

abbrev pub once : Bool → ℕ
once b = if b then 1 else 0

module _ (allows : Bytes → Bool) (exists_of_size : Bytes → ℕ → Bool) where
  select-once :
      (seen : List Bytes) (ps : List WrappedPointer) (k : Bytes)
      → times k (oids_of (select_pointers allows exists_of_size seen ps).ready)
          + times k (oids_of (select_pointers allows exists_of_size seen ps).missing)
        ≡ once (is_in (oids_of (allowed allows ps)) k && not (is_in seen k))
  unfolding select_pointers
  select-once seen [] k = omega arith
  select-once seen (p ∷ ps) k =
      ground
        (arith, equal_iff (oid_of p) k, select-once seen ps k, select-once (oid_of p ∷ seen) ps k)

  -- The pointers that the filter allows have each of their oids once among those that are ready and those
  -- that are missing, and no other oid stands there.
  pub ready_and_missing-once :
      (ps : List WrappedPointer) (k : Bytes)
      → times k (oids_of (ready_and_missing_pointers allows exists_of_size ps).ready)
          + times k (oids_of (ready_and_missing_pointers allows exists_of_size ps).missing)
        ≡ once (is_in (oids_of (allowed allows ps)) k)
  unfolding ready_and_missing_pointers
  ready_and_missing-once ps k = ground (arith, select-once [] ps k)

times-append : (k : Bytes) (is js : List Bytes) → times k (is ++ js) ≡ times k is + times k js
times-append k [] js = omega arith
times-append k (i ∷ is) js = ground (arith, times-append k is js)

map-append : (ps qs : List WrappedPointer) → oids_of (ps ++ qs) ≡ oids_of ps ++ oids_of qs
map-append [] qs = refl
map-append (p ∷ ps) qs = rw (map-append ps qs)

-- The pointers of an oid.
abbrev with_oid : Bytes → List WrappedPointer → List WrappedPointer
with_oid k [] = []
with_oid k (p ∷ ps) = if equal (oid_of p) k then p ∷ with_oid k ps else with_oid k ps

abbrev listed : Bytes → Map (List WrappedPointer) → List WrappedPointer
listed k m = elim (lookup k m) [ none ↦ [] | some l ↦ l ]

listed-insert :
    (k j : Bytes) (l : List WrappedPointer) (m : Map (List WrappedPointer))
    → listed k (insert j l m) ≡ (if equal j k then l else listed k m)
listed-insert k j l m = ground (arith, lookup-insert j k l m)

listed-oid_to_pointers :
    (k : Bytes) (ps : List WrappedPointer) (m : Map (List WrappedPointer))
    → listed k (oid_to_pointers ps m) ≡ listed k m ++ with_oid k ps
unfolding oid_to_pointers
listed-oid_to_pointers k [] m = sym (append-nil (listed k m))
listed-oid_to_pointers k (p ∷ ps) m =
    let plist = listed (oid_of p) m ++ p ∷ [] in
    listed-oid_to_pointers k ps (insert (oid_of p) plist m)
    ∙ ap (λ l. l ++ with_oid k ps) (listed-insert k (oid_of p) plist m)
    ∙ by_oid (equal (oid_of p) k) refl
  where
    by_oid :
        (b : Bool)
        → equal (oid_of p) k ≡ b
        → (if b then listed (oid_of p) m ++ p ∷ [] else listed k m) ++ with_oid k ps
          ≡ listed k m ++ (if b then p ∷ with_oid k ps else with_oid k ps)
    by_oid true same =
        let j≡k = (equal_iff (oid_of p) k).0 same in
        ap (λ j. (listed j m ++ p ∷ []) ++ with_oid k ps) j≡k
        ∙ append_assoc (listed k m) (p ∷ []) (with_oid k ps)
    by_oid false other = refl

times-with_oid :
    (k j : Bytes) (ps : List WrappedPointer)
    → times k (oids_of (with_oid j ps)) ≡ (if equal j k then times k (oids_of ps) else 0)
times-with_oid k j [] = ground arith
times-with_oid k j (p ∷ ps) =
    ground
      (arith, equal_iff (oid_of p) j, equal_iff (oid_of p) k, equal_iff j k, times-with_oid k j ps)

report-listed :
    (m : Map (List WrappedPointer)) (oid : Bytes) (oids : List Bytes)
    → report_completed m (oid ∷ oids) ≡ listed oid m ++ report_completed m oids
unfolding report_completed
report-listed m oid oids = elim (Option-cases (lookup oid m)) [
  | inl unknown ↦ rw (unknown, report_completed, listed)
  | inr (l, known) ↦ rw (known, report_completed, listed)
]

times-listed :
    (k oid : Bytes) (ps : List WrappedPointer)
    → times k (oids_of (listed oid (oid_to_pointers ps [])))
      ≡ (if equal oid k then times k (oids_of ps) else 0)
unfolding lookup
times-listed k oid ps =
    ap (λ l. times k (oids_of l)) (listed-oid_to_pointers oid ps []) ∙ times-with_oid k oid ps

add_one : (b : Bool) (n t : ℕ) → (if b then t else 0) + n * t ≡ (if b then suc n else n) * t
add_one true n t = omega arith
add_one false n t = omega arith

-- What is told of an oid counts for each of its pointers.
times-report :
    (k : Bytes) (ps : List WrappedPointer) (oids : List Bytes)
    → times k (oids_of (report_completed (oid_to_pointers ps []) oids))
      ≡ times k oids * times k (oids_of ps)
unfolding report_completed
times-report k ps [] = omega arith
times-report k ps (oid ∷ oids) =
    let m = oid_to_pointers ps [] in
    let rest = report_completed m oids in
    ap (λ l. times k (oids_of l)) (report-listed m oid oids)
    ∙ ap (times k) (map-append (listed oid m) rest)
    ∙ times-append k (oids_of (listed oid m)) (oids_of rest)
    ∙ ap (λ n. n + times k (oids_of rest)) (times-listed k oid ps)
    ∙ ap (λ n. (if equal oid k then times k (oids_of ps) else 0) + n) (times-report k ps oids)
    ∙ add_one (equal oid k) (times k oids) (times k (oids_of ps))

-- Where the queue tells of each missing oid once, the oids of the pointers that the filter allows are
-- reported once each, however many of the pointers have the same oid, and no other oid is reported.
fetch_and_report-once :
    (allows : Bytes → Bool) (exists_of_size : Bytes → ℕ → Bool) (ps : List WrappedPointer)
    (completed : List Bytes) (k : Bytes)
    → times k completed
      ≡ times k (oids_of (ready_and_missing_pointers allows exists_of_size ps).missing)
    → times k (oids_of (fetch_and_report allows exists_of_size ps completed))
      ≡ once (is_in (oids_of (allowed allows ps)) k)
unfolding fetch_and_report
fetch_and_report-once allows exists_of_size ps completed k told =
    let s = ready_and_missing_pointers allows exists_of_size ps in
    let reported = report_completed (oid_to_pointers s.missing []) completed in
    let whole =
      ap (times k) (map-append s.ready reported)
      ∙ times-append k (oids_of s.ready) (oids_of reported) in
    whole
    ∙ square (times k (oids_of s.ready)) (times k (oids_of s.missing)) (times k completed) _
        (times k (oids_of reported)) told (times-report k s.missing completed)
        (ready_and_missing-once allows exists_of_size ps k)
        (once_le (is_in (oids_of (allowed allows ps)) k))
  where
    once_le : (b : Bool) → once b ≤ 1
    once_le b = ground arith

    square : (r m c n t : ℕ) → c ≡ m → t ≡ c * m → r + m ≡ n → n ≤ 1 → r + t ≡ n
    square r zero c n t hc ht hn le = ground (arith, hc, ht)
    square r (suc m) c n t hc ht hn le =
        let alone : m ≡ 0 = omega arith in
        let one : c ≡ 1 = omega arith in
        let whole_t : t ≡ 1 = ht ∙ rw (one, alone) (omega arith) in omega arith

is_in-once : (k : Bytes) (js : List Bytes) (b : Bool) → times k js ≡ once b → is_in js k ≡ b
is_in-once k [] true h = absurd (omega (arith, h))
is_in-once k [] false h = refl
is_in-once k (j ∷ js) b h = elim (Bool-cases (equal j k)) [
  | inl here ↦ rw here (some_times b (times k js) (rw here at h))
  | inr other ↦ rw other (is_in-once k js b (rw other at h))
]
  where
    some_times : (b : Bool) (n : ℕ) → suc n ≡ once b → true ≡ b
    some_times true n h = refl
    some_times false n h = absurd (omega (arith, h))

-- Where the queue tells of each missing object once, the objects that are reported are exactly those of the pointers that the
-- filter allows.
pub fetch_and_report-is_in :
    (allows : Bytes → Bool) (exists_of_size : Bytes → ℕ → Bool) (ps : List WrappedPointer)
    (completed : List Bytes)
    → ((k : Bytes)
        → times k completed
          ≡ times k (oids_of (ready_and_missing_pointers allows exists_of_size ps).missing))
    → (k : Bytes)
    → is_in (oids_of (fetch_and_report allows exists_of_size ps completed)) k
      ≡ is_in (oids_of (allowed allows ps)) k
fetch_and_report-is_in allows exists_of_size ps completed told k =
    is_in-once k (oids_of (fetch_and_report allows exists_of_size ps completed))
      (is_in (oids_of (allowed allows ps)) k)
      (fetch_and_report-once allows exists_of_size ps completed k (told k))
