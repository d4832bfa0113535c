-- ===== src/Lfs/TransferQueue/Places.antt =====
-- lfs/transfer_queue.go: where an object waits, over the results, answers and failures of a step.
use expert_octo_doodle.Common.{
  length, ℕ, ◌+◌, ◌≤◌, List, [], ◌∷◌, ◌++◌, Option, some, none, Bool, true, false, if◌then◌else◌,
  Bytes, equal, equal_iff, lookup, ltb, ltb→lt, ◌⊎◌, ◌≡◌, sym, ap, arith, Option-cases, Bool-cases,
  inl, inr,
}
use mathlib.Core.Path.{subst}
use expert_octo_doodle.Errors.{Fault}
use expert_octo_doodle.Commands.Fetch.Once.{times, once}
use expert_octo_doodle.Lfs.TransferQueue.{
  Transferable, TransferQueue, Answer, done, report, retry, can_retry, count_for, can_retry_object,
  handle_transfer_result, add_to_adapter, handle_answer, handle_answers, fail_batch, check_one,
}

-- How often an oid is among transferables, and among answers.
abbrev pub times_in : Bytes → List Transferable → ℕ
times_in k [] = 0
times_in k (t ∷ ts) = once (equal t.oid k) + times_in k ts

abbrev pub times_told : Bytes → List Answer → ℕ
times_told k [] = 0
times_told k (o ∷ os) = once (equal o.oid k) + times_told k os

-- In how many places an object waits.
abbrev pub places : Bytes → TransferQueue → ℕ
places k q = times_in k q.input + (times_in k q.retries + times k q.in_adapter)

pub times_in-append :
    (k : Bytes) (ts us : List Transferable) → times_in k (ts ++ us) ≡ times_in k ts + times_in k us
times_in-append k [] us = omega arith
times_in-append k (t ∷ ts) us = omega (arith, times_in-append k ts us)

pub times-append : (k : Bytes) (is js : List Bytes) → times k (is ++ js) ≡ times k is + times k js
times-append k [] js = omega arith
times-append k (i ∷ is) js = ground (arith, times-append k is js)

-- Every transferable stands under its oid.
abbrev pub AreNamed : TransferQueue → Type 0
AreNamed q = (j : Bytes) (t : Transferable) → lookup j q.transferables ≡ some t → t.oid ≡ j

abbrev pub known : Option Transferable → ℕ
known none = 0
known (some t) = 1

module _ (k : Bytes) (m tries : ℕ) where
  -- The object waits in one place at most, with this many more that a step has taken from the queue, and in none before it
  -- is added; it was tried again `tries` times, as the counter has it, and with the tries that are about to be at most `m` times.
  abbrev pub Holds : ℕ → TransferQueue → Type 0
  Holds n q =
      (places k q + n ≤ known (lookup k q.transferables))
      × (tries + times_in k q.retries ≤ m)
      × ((q.rc.max_retries ≡ m) × (count_for q.rc k ≡ tries))
      × AreNamed q

  pub known-le : (o : Option Transferable) → known o ≤ 1
  known-le none = omega arith
  known-le (some t) = omega arith

  spend : (n i : ℕ) (q : TransferQueue) → Holds (i + n) q → Holds n q
  spend n i q (at, few, same, named) = (omega arith, few, same, named)

  retry-Holds :
      (t : Transferable) (e : Fault) (n : ℕ) (q : TransferQueue)
      → can_retry_object q t.oid e ≡ true
      → Holds (once (equal t.oid k) + n) q
      → Holds n (retry t q)
  unfolding can_retry_object can_retry
  retry-Holds t e n q again (at, few, same, named) = (
    omega (arith, at, times_in-append k q.retries (t ∷ [])),
    elim (Bool-cases (equal t.oid k)) [
      | inr other ↦ omega (arith, few, times_in-append k q.retries (t ∷ []), ap once other)
      | inl it ↦
          let below : ltb (count_for q.rc t.oid) q.rc.max_retries ≡ true = ground (arith, again) in
          let less = ltb→lt (count_for q.rc t.oid) q.rc.max_retries below in
          let counted : count_for q.rc t.oid ≡ count_for q.rc k =
            ap (count_for q.rc) ((equal_iff t.oid k).0 it) in
          omega (
            arith,
            at,
            ap once it,
            less,
            counted,
            same.0,
            same.1,
            known-le (lookup k q.transferables),
            times_in-append k q.retries (t ∷ []),
          )
    ],
    same,
    named,
  )

  pub handle_transfer_result-Holds :
      (oid : Bytes) (r : Option Fault) (n : ℕ) (q : TransferQueue)
      → Holds (once (equal oid k) + n) q
      → Holds n (handle_transfer_result oid r q)
  unfolding handle_transfer_result
  handle_transfer_result-Holds oid none n q h = spend n (once (equal oid k)) q h
  handle_transfer_result-Holds oid (some e) n q h = elim (Bool-cases (can_retry_object q oid e)) [
    | inr last ↦ rw last (spend n (once (equal oid k)) q h)
    | inl again ↦ rw again (elim (Option-cases (lookup oid q.transferables)) [
      | inl unknown ↦ rw (unknown, handle_transfer_result) (spend n (once (equal oid k)) q h)
      | inr (t, found) ↦
          let (at, few, same, named) = h in
          let name : oid ≡ t.oid = sym (named oid t found) in
          rw (found, handle_transfer_result)
            (retry-Holds t e n q (subst (λ i. can_retry_object q i e ≡ true) name again)
              (subst (λ i. Holds (once (equal i k) + n) q) name h))
    ])
  ]

  add_to_adapter-Holds :
      (begun : Option Fault) (t : Transferable) (n : ℕ) (q : TransferQueue)
      → Holds (once (equal t.oid k) + n) q
      → Holds n (add_to_adapter begun t q)
  unfolding add_to_adapter
  add_to_adapter-Holds begun t n q h = elim (Bool-cases q.dry_run) [
    | inl dry ↦ rw dry (handle_transfer_result-Holds t.oid none n q h)
    | inr wet ↦ rw wet (of_begun begun)
  ]
    where
      of_begun :
          (begun : Option Fault)
          → Holds n (elim begun [
            | some e ↦ done (report e q)
            | none ↦ record q { in_adapter = q.in_adapter ++ t.oid ∷ [] }
          ])
      of_begun none =
          let (at, few, same, named) = h in
          let one : times k (t.oid ∷ []) ≡ once (equal t.oid k) = ground arith in
          (omega (arith, at, one, times-append k q.in_adapter (t.oid ∷ [])), few, same, named)
      of_begun (some e) = spend n (once (equal t.oid k)) q h

  handle_answer-Holds :
      (begun : Option Fault) (o : Answer) (n : ℕ) (q p : TransferQueue)
      → handle_answer begun o q ≡ some p
      → Holds (once (equal o.oid k) + n) q
      → Holds n p
  unfolding handle_answer
  handle_answer-Holds begun o n q p h held = elim (Option-cases o.error) [
    | inr (e, failed) ↦
        let same : some (done (report e q)) ≡ some p = rw (failed, handle_answer) at h in
        let same_queue : done (report e q) ≡ p = cc in
        subst (Holds n) same_queue (spend n (once (equal o.oid k)) q held)
    | inl fine ↦ rel fine (Bool-cases o.has_rel)
  ]
    where
      rel : o.error ≡ none → (o.has_rel ≡ true) ⊎ (o.has_rel ≡ false) → Holds n p
      rel fine (inr absent) =
          let same : some (done q) ≡ some p = rw absent at (rw (fine, handle_answer) at h) in
          let same_queue : done q ≡ p = cc in
          subst (Holds n) same_queue (spend n (once (equal o.oid k)) q held)
      rel fine (inl present) = elim (Option-cases (lookup o.oid q.transferables)) [
        | inl unknown ↦
            cc (rw (unknown, handle_answer) at (rw present at (rw (fine, handle_answer) at h)))
        | inr (t, found) ↦
            let (at, few, bound, named) = held in
            let name : o.oid ≡ t.oid = sym (named o.oid t found) in
            let same : some (add_to_adapter begun t q) ≡ some p =
              rw found at (rw present at (rw (fine, handle_answer) at h)) in
            let same_queue : add_to_adapter begun t q ≡ p = cc in
            subst (Holds n) same_queue (
              add_to_adapter-Holds begun t n q
                (subst (λ i. Holds (once (equal i k) + n) q) name held))
      ]

  pub handle_answers-Holds :
      (begun : ℕ → Option Fault) (os : List Answer) (q p : TransferQueue)
      → handle_answers begun os q ≡ some p
      → Holds (times_told k os) q
      → Holds 0 p
  unfolding handle_answers
  handle_answers-Holds begun [] q p h held = let same : q ≡ p = cc in subst (Holds 0) same held
  handle_answers-Holds begun (o ∷ os) q p h held =
      elim (Option-cases (handle_answer (begun (length os)) o q)) [
        | inl panics ↦ cc (rw (panics, handle_answers) at h)
        | inr (r, ok) ↦
            handle_answers-Holds begun os r p (rw (ok, handle_answers) at h)
              (handle_answer-Holds (begun (length os)) o (times_told k os) q r ok held)
      ]

  pub fail_batch-Holds :
      (reported : Bool) (e : Fault) (batch : List Transferable) (q : TransferQueue)
      → Holds (times_in k batch) q
      → Holds 0 (fail_batch reported e batch q)
  unfolding fail_batch
  fail_batch-Holds reported e [] q held = held
  fail_batch-Holds reported e (t ∷ batch) q held = elim (Bool-cases (can_retry_object q t.oid e)) [
    | inl again ↦ rw again (
        fail_batch-Holds reported e batch (retry t q)
          (retry-Holds t e (times_in k batch) q again held))
    | inr last ↦ rw last (
        fail_batch-Holds true e batch (done (if reported then q else report e q)) (failed reported))
  ]
    where
      failed : (b : Bool) → Holds (times_in k batch) (done (if b then q else report e q))
      failed true = spend (times_in k batch) (once (equal t.oid k)) q held
      failed false = spend (times_in k batch) (once (equal t.oid k)) q held

  pub check_one-Holds :
      (begun error : Option Fault) (found : Bool) (t : Transferable) (q : TransferQueue)
      → Holds (once (equal t.oid k) + 0) q
      → Holds 0 (check_one begun error found t q)
  unfolding check_one
  check_one-Holds begun (some e) found t q h = elim (Bool-cases (can_retry_object q t.oid e)) [
    | inl again ↦ rw again (retry-Holds t e 0 q again h)
    | inr last ↦ rw last (spend 0 (once (equal t.oid k)) q h)
  ]
  check_one-Holds begun none true t q h = add_to_adapter-Holds begun t 0 q h
  check_one-Holds begun none false t q h = spend 0 (once (equal t.oid k)) q h
