-- ===== src/Tests/Queue.antt =====
-- A transfer queue with one object, whose transfer fails once and is tried again.
use expert_octo_doodle.Common.{
  [], ◌∷◌, none, some, true, false, codes, equal, lookup, insert, ◌≡◌, ◌≢◌, ◌≤◌, ◌+◌, ◌⊎◌, refl,
  arith,
}
use expert_octo_doodle.Errors.{Fault, plain, new_retriable_error, new_wrapped_error, is_error}
use expert_octo_doodle.Lfs.TransferQueue.{
  Transferable, RetryCounter, collect_retry, TransferQueue, Answer, new_retry_counter, add,
  handle_transfer_result, handle_answers, can_retry_object, can_retry, count_for,
}
use expert_octo_doodle.Lfs.TransferQueue.Steps.{
  new_transfer_queue, Reachable, start, step, adds, answers, transfers, collects,
}
use expert_octo_doodle.Lfs.TransferQueue.Places.{places, times_in}
use expert_octo_doodle.Lfs.TransferQueue.Retries.{Reached, first, next, tries_of, retries-Reached}
use expert_octo_doodle.Lfs.TransferQueue.Balance.{pending, wait-Reachable}

abbrev an_object : Transferable
an_object = record { oid = codes "abc"; name = codes "a.png"; size = 5 }

abbrev an_answer : Answer
an_answer = record { oid = codes "abc"; error = none; has_rel = true }

abbrev a_fault : Fault
a_fault = new_retriable_error (some (plain (codes "reset")))

abbrev one_retry : RetryCounter
one_retry = record { max_retries = 1; count = [] }

abbrev q0 : TransferQueue
q0 = new_transfer_queue false one_retry

abbrev q1 : TransferQueue
q1 = add an_object q0

abbrev q2 : TransferQueue
q2 = record q1 { input = []; in_adapter = codes "abc" ∷ [] }

abbrev q3 : TransferQueue
q3 = handle_transfer_result (codes "abc") (some a_fault) (record q2 { in_adapter = [] })

q1-input : q1.input ≡ an_object ∷ []
unfolding add lookup
q1-input = refl

q1-answered : handle_answers (λ n. none) (an_answer ∷ []) (record q1 { input = [] }) ≡ some q2
unfolding handle_answers add lookup insert equal
q1-answered = refl

q3-retries : q3.retries ≡ an_object ∷ []
unfolding handle_transfer_result can_retry_object can_retry count_for is_error new_wrapped_error
    new_retry_counter add lookup insert equal
q3-retries = refl

q3-Reachable : Reachable q0 q3
q3-Reachable =
    step
      (step (step start (adds an_object))
        (answers (an_object ∷ []) [] (λ n. none) (an_answer ∷ []) q1-input refl q1-answered))
      (transfers [] [] (codes "abc") (some a_fault) refl)

wait-Reachable_example : (q3.finished ≤ q3.added) × ((q3.finished ≢ q3.added) ⊎ (pending q3 ≡ 0))
wait-Reachable_example = wait-Reachable false one_retry q3 q3-Reachable

q3-Reached : Reached q0 q3
q3-Reached =
    next
      (next (next first (adds an_object) tt)
        (answers (an_object ∷ []) [] (λ n. none) (an_answer ∷ []) q1-input refl q1-answered)
        (λ k. omega arith))
      (transfers [] [] (codes "abc") (some a_fault) refl) tt

-- The retry is collected.
abbrev q4 : TransferQueue
q4 = collect_retry an_object (record q3 { retries = [] })

q4-Reached : Reached q0 q4
q4-Reached = next q3-Reached (collects an_object [] q3-retries) tt

retries-Reached_example :
    (places (codes "abc") q4 ≤ 1)
    × (tries_of (codes "abc") q4-Reached + times_in (codes "abc") q4.retries ≤ 1)
retries-Reached_example = retries-Reached false 1 q4 q4-Reached (codes "abc")
