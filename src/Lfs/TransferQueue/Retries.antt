-- ===== src/Lfs/TransferQueue/Retries.antt =====
-- lfs/transfer_queue.go: how often an object is tried again, in every order of steps.
use expert_octo_doodle.Common.{
  ℕ, ◌+◌, ◌≤◌, List, [], ◌∷◌, ◌++◌, Option, some, none, Bool, true, false, if◌then◌else◌, Bytes,
  equal, equal_iff, lookup, lookup-insert, insert, ◌≡◌, refl, sym, ap, ◌∙◌, arith, Option-cases,
  Bool-cases, inl, inr,
}
use mathlib.Core.Path.{subst}
use expert_octo_doodle.Commands.Fetch.Once.{times, once}
use expert_octo_doodle.Lfs.TransferQueue.{
  Transferable, RetryCounter, TransferQueue, add, count_for, increment, collect_retry,
}
use expert_octo_doodle.Lfs.TransferQueue.Steps.{
  new_transfer_queue, Step, adds, collects, transfers, refuses, answers, checks,
}
use expert_octo_doodle.Lfs.TransferQueue.Places.{
  times_in, times_told, places, times_in-append, times-append, known, known-le, Holds,
  handle_transfer_result-Holds, handle_answers-Holds, fail_batch-Holds, check_one-Holds,
}

-- The server's answer names each object as often as the batch does at most.
abbrev pub IsFaithful : {q p : TransferQueue} → Step q p → Type 0
IsFaithful (answers batch rest begun os e same ok) =
    (k : Bytes) → times_told k os ≤ times_in k batch
IsFaithful _ = Unit

-- The queues that are reached from a queue in steps with such answers.
pub data Reached (q : TransferQueue) : TransferQueue → Type 0 where
  first : Reached q q
  next : {p r : TransferQueue} → Reached q p → (s : Step p r) → IsFaithful s → Reached q r

abbrev or_zero : Option ℕ → ℕ
or_zero none = 0
or_zero (some n) = n

or_zero_if :
    (b : Bool) (n : ℕ) (o : Option ℕ)
    → or_zero (if b then some n else o) ≡ (if b then n else or_zero o)
or_zero_if true n o = refl
or_zero_if false n o = refl

count_for_lem : (r : RetryCounter) (k : Bytes) → count_for r k ≡ or_zero (lookup k r.count)
unfolding count_for
count_for_lem r k = refl

count_for-increment :
    (oid k : Bytes) (r : RetryCounter)
    → count_for (increment oid r) k ≡ (if equal oid k then count_for r oid + 1 else count_for r k)
unfolding increment
count_for-increment oid k r =
    count_for_lem (increment oid r) k
    ∙ ap or_zero (lookup-insert oid k (count_for r oid + 1) r.count)
    ∙ or_zero_if (equal oid k) (count_for r oid + 1) (lookup k r.count)
    ∙ ap (λ n. if equal oid k then count_for r oid + 1 else n) (sym (count_for_lem r k))

max_retries-increment :
    (oid : Bytes) (r : RetryCounter) → (increment oid r).max_retries ≡ r.max_retries
unfolding increment
max_retries-increment oid r = refl

-- How often an object is taken from `retriesc`, to be sent to the server again: by a step, on top of what there was.
abbrev pub tried_by : Bytes → {q p : TransferQueue} → Step q p → ℕ → ℕ
tried_by k (collects t rest e) tries = once (equal t.oid k) + tries
tried_by k _ tries = tries

-- On the way to a queue.
abbrev pub tries_of : Bytes → {q p : TransferQueue} → Reached q p → ℕ
tries_of k first = 0
tries_of k (next reached s f) = tried_by k s (tries_of k reached)

module _ (k : Bytes) (m tries : ℕ) where
  -- A retry that is collected moves from the count of those that are about to be.
  collect_retry-Holds :
      (t : Transferable) (rest : List Transferable) (q : TransferQueue)
      → q.retries ≡ t ∷ rest
      → Holds k m tries 0 q
      → Holds k m (once (equal t.oid k) + tries) 0 (collect_retry t (record q { retries = rest }))
  unfolding collect_retry
  collect_retry-Holds t rest q e (at, few, same, named) =
      let moved = ap (times_in k) e in
      let counted = count_for-increment t.oid k q.rc in
      (
        omega (arith, at, moved, times_in-append k q.input (t ∷ [])),
        omega (arith, few, moved),
        (
          max_retries-increment t.oid q.rc ∙ same.0,
          counted ∙ (elim (Bool-cases (equal t.oid k)) [
            | inr other ↦ rw other (omega (arith, same.1))
            | inl it ↦ rw it (omega (arith, ap (count_for q.rc) ((equal_iff t.oid k).0 it), same.1))
          ]),
        ),
        named,
      )

  add-Holds :
      (t : Transferable) (q : TransferQueue) → Holds k m tries 0 q → Holds k m tries 0 (add t q)
  unfolding add
  add-Holds t q h = elim (Option-cases (lookup t.oid q.transferables)) [
    | inr (u, found) ↦ rw (found, add) h
    | inl new ↦ rw (new, add) (of_new new h)
  ]
    where
      of_new :
          lookup t.oid q.transferables ≡ none
          → Holds k m tries 0 q
          → Holds k m tries 0 (record q {
            added = q.added + 1;
            transferables = insert t.oid t q.transferables;
            input = q.input ++ t ∷ [];
          })
      of_new new (at, few, same, named) =
          let inserted = ap known (lookup-insert t.oid k t q.transferables) in
          let moved = times_in-append k q.input (t ∷ []) in
          (
            elim (Bool-cases (equal t.oid k)) [
              | inl it ↦
                  let absent =
                    ap known (
                      subst (λ i. lookup i q.transferables ≡ none) ((equal_iff t.oid k).0 it)
                        new) in
                  omega (
                    arith,
                    at,
                    moved,
                    ap once it,
                    absent,
                    inserted ∙ ap (λ b. known (if b then some t else lookup k q.transferables)) it,
                  )
              | inr other ↦ omega (
                arith,
                at,
                moved,
                ap once other,
                inserted ∙ ap (λ b. known (if b then some t else lookup k q.transferables)) other,
              )
            ],
            few,
            same,
            λ j u found. elim (Bool-cases (equal t.oid j)) [
              | inl it ↦
                  let same_one : some t ≡ some u =
                    sym (
                      lookup-insert t.oid j t q.transferables
                      ∙ ap (λ b. if b then some t else lookup j q.transferables) it)
                    ∙ found in
                  let one : t ≡ u = cc in ap (λ v. v.oid) (sym one) ∙ (equal_iff t.oid j).0 it
              | inr other ↦ named j u (
                  sym (
                    lookup-insert t.oid j t q.transferables
                    ∙ ap (λ b. if b then some t else lookup j q.transferables) other)
                  ∙ found)
            ],
          )

  Step-Holds :
      (q p : TransferQueue) (s : Step q p)
      → IsFaithful s
      → Holds k m tries 0 q
      → Holds k m (tried_by k s tries) 0 p
  Step-Holds q p (adds t) f h = add-Holds t q h
  Step-Holds q p (collects t rest e) f h = collect_retry-Holds t rest q e h
  Step-Holds q p (transfers front back oid result e) f (at, few, same, named) =
      let one : times k (oid ∷ back) ≡ once (equal oid k) + times k back = ground arith in
      let moved = ap (times k) e ∙ times-append k front (oid ∷ back) in
      handle_transfer_result-Holds k m tries oid result 0 (record q { in_adapter = front ++ back })
        (omega (arith, at, one, moved, times-append k front back), few, same, named)
  Step-Holds q p (refuses batch rest x e other) f (at, few, same, named) =
      let moved = ap (times_in k) e ∙ times_in-append k batch rest in
      fail_batch-Holds k m tries false x batch (record q { input = rest })
        (omega (arith, at, moved), few, same, named)
  Step-Holds q p (answers batch rest begun os e lengths ok) f (at, few, same, named) =
      let moved = ap (times_in k) e ∙ times_in-append k batch rest in
      handle_answers-Holds k m tries begun os (record q { input = rest }) p ok
        (omega (arith, at, moved, f k), few, same, named)
  Step-Holds q p (checks t rest begun error found e) f (at, few, same, named) =
      let moved = ap (times_in k) e in
      check_one-Holds k m tries begun error found t (record q { input = rest })
        (omega (arith, at, moved), few, same, named)

Reached-Holds :
    (k : Bytes) (m : ℕ) (q p : TransferQueue) (reached : Reached q p)
    → Holds k m 0 0 q
    → Holds k m (tries_of k reached) 0 p
Reached-Holds k m q p first h = h
Reached-Holds k m q p (next {p = r} reached s f) h =
    Step-Holds k m (tries_of k reached) r p s f (Reached-Holds k m q r reached h)

-- In every order of steps from a new queue, where the server's answers name each object of a batch once: an object waits in one
-- place at most, and the times that it was put back to be sent again, with those where it waits for that, are `max_retries` at most.
pub retries-Reached :
    (dry_run : Bool) (max_retries : ℕ) (q : TransferQueue)
    (reached : Reached
      (new_transfer_queue dry_run (record { max_retries = max_retries; count = [] }))
      q)
    (k : Bytes)
    → (places k q ≤ 1) × (tries_of k reached + times_in k q.retries ≤ max_retries)
unfolding count_for lookup
retries-Reached dry_run max_retries q reached k =
    let start : Holds k max_retries 0 0
        (new_transfer_queue dry_run (record { max_retries = max_retries; count = [] })) =
      (omega arith, omega arith, (refl, refl), λ j t found. cc) in
    let h = Reached-Holds k max_retries _ q reached start in
    (
      omega (arith, h.0, known-le k max_retries (tries_of k reached) (lookup k q.transferables)),
      h.1,
    )
