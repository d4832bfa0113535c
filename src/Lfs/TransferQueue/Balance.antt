-- ===== src/Lfs/TransferQueue/Balance.antt =====
-- The counter of pending transfers: it never falls below zero, and it is zero only with nothing pending.
use expert_octo_doodle.Common.{
  ℕ, ◌+◌, ◌≤◌, List, [], ◌∷◌, ◌++◌, Option, some, none, Bool, true, false, if◌then◌else◌, Bytes,
  length, length-append, lookup, ltb, ◌≢◌, ◌⊎◌, ◌≡◌, refl, ap, ◌∙◌, arith, Option-cases, Bool-cases,
  inl, inr,
}
use expert_octo_doodle.Errors.{Fault}
use expert_octo_doodle.Lfs.TransferQueue.{
  Transferable, RetryCounter, TransferQueue, Answer, done, report, retry, add, can_retry_object,
  handle_transfer_result, add_to_adapter, handle_answer, handle_answers, fail_batch, check_one,
  collect_retry,
}
use expert_octo_doodle.Lfs.TransferQueue.Steps.{
  new_transfer_queue, Step, adds, collects, transfers, refuses, answers, checks, Reachable, start,
  step,
}

-- How many objects are on their way.
abbrev pub pending : TransferQueue → ℕ
pending q = length q.input + (length q.retries + length q.in_adapter)

-- What was done with up to `n` objects that are in no list: each is finished or in a list at most once.
abbrev Spends : ℕ → TransferQueue → TransferQueue → Type 0
Spends n q p = (p.finished + pending p ≤ q.finished + pending q + n) × (p.added ≡ q.added)

retry-Spends : (t : Transferable) (q : TransferQueue) → Spends 1 q (retry t q)
retry-Spends t q = (omega (arith, length-append q.retries (t ∷ [])), refl)

failed-Spends :
    (reported : Bool) (e : Fault) (q : TransferQueue)
    → Spends 1 q (done (if reported then q else report e q))
failed-Spends true e q = (omega arith, refl)
failed-Spends false e q = (omega arith, refl)

handle_transfer_result-Spends :
    (oid : Bytes) (r : Option Fault) (q : TransferQueue)
    → Spends 1 q (handle_transfer_result oid r q)
unfolding handle_transfer_result
handle_transfer_result-Spends oid none q = (omega arith, refl)
handle_transfer_result-Spends oid (some e) q = elim (Bool-cases (can_retry_object q oid e)) [
  | inr last ↦ rw last (omega arith, refl)
  | inl again ↦ rw again (elim (Option-cases (lookup oid q.transferables)) [
    | inl unknown ↦ rw (unknown, handle_transfer_result) (omega arith, refl)
    | inr (t, known) ↦ rw (known, handle_transfer_result) (retry-Spends t q)
  ])
]

add_to_adapter-Spends :
    (begun : Option Fault) (t : Transferable) (q : TransferQueue)
    → Spends 1 q (add_to_adapter begun t q)
unfolding add_to_adapter
add_to_adapter-Spends begun t q = elim (Bool-cases q.dry_run) [
  | inl dry ↦ rw dry (handle_transfer_result-Spends t.oid none q)
  | inr wet ↦ rw wet (of_begun begun)
]
  where
    of_begun :
        (begun : Option Fault)
        → Spends 1 q (elim begun [
          | some e ↦ done (report e q)
          | none ↦ record q { in_adapter = q.in_adapter ++ t.oid ∷ [] }
        ])
    of_begun none = (omega (arith, length-append q.in_adapter (t.oid ∷ [])), refl)
    of_begun (some e) = (omega arith, refl)

handle_answer-Spends :
    (begun : Option Fault) (o : Answer) (q p : TransferQueue)
    → handle_answer begun o q ≡ some p
    → Spends 1 q p
unfolding handle_answer
handle_answer-Spends begun o q p h = elim (Option-cases o.error) [
  | inr (e, failed) ↦
      let s : Spends 1 q (done (report e q)) = (omega arith, refl) in
      let same : some (done (report e q)) ≡ some p = rw (failed, handle_answer) at h in
      ground (arith, s, same)
  | inl fine ↦ rel fine (Bool-cases o.has_rel)
]
  where
    rel : o.error ≡ none → (o.has_rel ≡ true) ⊎ (o.has_rel ≡ false) → Spends 1 q p
    rel fine (inr absent) =
        let s : Spends 1 q (done q) = (omega arith, refl) in
        let same : some (done q) ≡ some p = rw absent at (rw (fine, handle_answer) at h) in
        ground (arith, s, same)
    rel fine (inl present) = elim (Option-cases (lookup o.oid q.transferables)) [
      | inl unknown ↦
          cc (rw (unknown, handle_answer) at (rw present at (rw (fine, handle_answer) at h)))
      | inr (t, known) ↦
          let s = add_to_adapter-Spends begun t q in
          let same : some (add_to_adapter begun t q) ≡ some p =
            rw known at (rw present at (rw (fine, handle_answer) at h)) in
          ground (arith, s, same)
    ]

Spends-trans : (m n : ℕ) (q p r : TransferQueue) → Spends m q p → Spends n p r → Spends (m + n) q r
Spends-trans m n q p r (a, b) (c, d) = (omega arith, d ∙ b)

handle_answers-Spends :
    (begun : ℕ → Option Fault) (os : List Answer) (q p : TransferQueue)
    → handle_answers begun os q ≡ some p
    → Spends (length os) q p
unfolding handle_answers
handle_answers-Spends begun [] q p h = let same : q ≡ p = cc in rw (← same) (omega arith, refl)
handle_answers-Spends begun (o ∷ os) q p h =
    elim (Option-cases (handle_answer (begun (length os)) o q)) [
      | inl panics ↦ cc (rw (panics, handle_answers) at h)
      | inr (r, ok) ↦
          let rest = handle_answers-Spends begun os r p (rw (ok, handle_answers) at h) in
          let both =
            Spends-trans 1 (length os) q r p (handle_answer-Spends (begun (length os)) o q r ok)
              rest in
          (omega (arith, both.0), both.1)
    ]

fail_batch-Spends :
    (reported : Bool) (e : Fault) (batch : List Transferable) (q : TransferQueue)
    → Spends (length batch) q (fail_batch reported e batch q)
unfolding fail_batch
fail_batch-Spends reported e [] q = (omega arith, refl)
fail_batch-Spends reported e (t ∷ batch) q = elim (Bool-cases (can_retry_object q t.oid e)) [
  | inl again ↦
      let both =
        Spends-trans 1 (length batch) q (retry t q) (fail_batch reported e batch (retry t q))
          (retry-Spends t q) (fail_batch-Spends reported e batch (retry t q)) in
      rw again (omega (arith, both.0), both.1)
  | inr last ↦
      let p : TransferQueue = done (if reported then q else report e q) in
      let both =
        Spends-trans 1 (length batch) q p (fail_batch true e batch p) (failed-Spends reported e q)
          (fail_batch-Spends true e batch p) in
      rw last (omega (arith, both.0), both.1)
]

check_one-Spends :
    (begun error : Option Fault) (found : Bool) (t : Transferable) (q : TransferQueue)
    → Spends 1 q (check_one begun error found t q)
unfolding check_one
check_one-Spends begun (some e) found t q = elim (Bool-cases (can_retry_object q t.oid e)) [
  | inl again ↦ rw again (retry-Spends t q)
  | inr last ↦ rw last (omega arith, refl)
]
check_one-Spends begun none true t q = add_to_adapter-Spends begun t q
check_one-Spends begun none false t q = (omega arith, refl)

collect_retry-Spends : (t : Transferable) (q : TransferQueue) → Spends 1 q (collect_retry t q)
unfolding collect_retry
collect_retry-Spends t q = (omega (arith, length-append q.input (t ∷ [])), refl)

-- No more objects are finished or pending than were added.
abbrev pub IsBalanced : TransferQueue → Type 0
IsBalanced q = q.finished + pending q ≤ q.added

add-IsBalanced : (t : Transferable) (q : TransferQueue) → IsBalanced q → IsBalanced (add t q)
unfolding add
add-IsBalanced t q h = elim (Option-cases (lookup t.oid q.transferables)) [
  | inr (u, known) ↦ rw (known, add) h
  | inl new ↦ rw (new, add) (omega (arith, length-append q.input (t ∷ [])))
]

-- From a queue less some objects, that are then spent.
spent-IsBalanced :
    (n : ℕ) (q r p : TransferQueue)
    → IsBalanced q
    → r.added ≡ q.added
    → r.finished + pending r + n ≡ q.finished + pending q
    → Spends n r p
    → IsBalanced p
spent-IsBalanced n q r p h same_added less (few, same) = omega arith

Step-IsBalanced : (q p : TransferQueue) → Step q p → IsBalanced q → IsBalanced p
Step-IsBalanced q p (adds t) h = add-IsBalanced t q h
Step-IsBalanced q p (collects t rest e) h =
    spent-IsBalanced 1 q (record q { retries = rest }) p h refl (omega (arith, ap length e))
      (collect_retry-Spends t (record q { retries = rest }))
Step-IsBalanced q p (transfers front back oid result e) h =
    spent-IsBalanced 1 q (record q { in_adapter = front ++ back }) p h refl
      (omega (arith, ap length e, length-append front (oid ∷ back), length-append front back))
      (handle_transfer_result-Spends oid result (record q { in_adapter = front ++ back }))
Step-IsBalanced q p (refuses batch rest x e other) h =
    spent-IsBalanced (length batch) q (record q { input = rest }) p h refl
      (omega (arith, ap length e, length-append batch rest))
      (fail_batch-Spends false x batch (record q { input = rest }))
Step-IsBalanced q p (answers batch rest begun os e same ok) h =
    spent-IsBalanced (length os) q (record q { input = rest }) p h refl
      (omega (arith, ap length e, length-append batch rest))
      (handle_answers-Spends begun os (record q { input = rest }) p ok)
Step-IsBalanced q p (checks t rest begun error found e) h =
    spent-IsBalanced 1 q (record q { input = rest }) p h refl (omega (arith, ap length e))
      (check_one-Spends begun error found t (record q { input = rest }))

Reachable-IsBalanced : (q p : TransferQueue) → Reachable q p → IsBalanced q → IsBalanced p
Reachable-IsBalanced q p start h = h
Reachable-IsBalanced q p (step {p = r} reach s) h =
    Step-IsBalanced r p s (Reachable-IsBalanced q r reach h)

-- In every order of steps from a new queue, where each batch is answered with as many objects as it has:
-- no more transfers are marked as finished than were added, so that the counter of `q.wait` never falls
-- below zero, and whenever it is zero nothing waits for the API, for a retry or in the adapter.
pub wait-Reachable :
    (dry_run : Bool) (rc : RetryCounter) (q : TransferQueue)
    → Reachable (new_transfer_queue dry_run rc) q
    → (q.finished ≤ q.added) × ((q.finished ≢ q.added) ⊎ (pending q ≡ 0))
wait-Reachable dry_run rc q reach =
    let h = Reachable-IsBalanced _ q reach (omega arith) in (omega arith, decide h)
  where
    decide : IsBalanced q → (q.finished ≢ q.added) ⊎ (pending q ≡ 0)
    decide h = elim (Bool-cases (ltb q.finished q.added)) [
      | inl below ↦ inl (λ e. ground arith)
      | inr full ↦ inr (ground arith)
    ]
