-- ===== src/Tests/Workers.antt =====
-- An adapter with two workers and one job.
use expert_octo_doodle.Common.{
  ◌≤◌, ◌<◌, [], ◌∷◌, none, true, codes, pos, ◌≡◌, refl, arith, All, ◌⊎◌,
}
use expert_octo_doodle.Transfer.AdapterBase.{
  Transfer, Adapter, take, start, do_transfer, send, refused, Step, add, close, first_works,
  first_stops, wake, other_stops, auth_ok, Reach, begun, later,
}
use expert_octo_doodle.Transfer.AdapterBase.Login.{IsWaiting, Reach-login}
use expert_octo_doodle.Transfer.AdapterBase.Conserved.{count_results}
use expert_octo_doodle.Transfer.AdapterBase.Drained.{AllStopped}
use expert_octo_doodle.Transfer.AdapterBase.Remaining.{remaining}
use expert_octo_doodle.Transfer.AdapterBase.Ending.{CanStep, Reach-ends, Reach-results}

abbrev job : Transfer
job = record { oid = codes "a1"; size = pos 3; expires_at = none ∷ [] }

job_fine : refused 0 job ≡ none
unfolding refused
job_fine = refl

abbrev Run : Type 0
Run = (a : Adapter) × Reach 1 a

-- The job is added, and the first worker starts to transfer it.
abbrev started : Run
started =
    let added : Run = (_, later begun (add job refl (omega arith))) in
    let taken : Run = (_, later added.1 (first_works (take job []) (omega arith))) in
    (_, later taken.1 (first_works (start 0 job [] job_fine) (omega arith)))

-- It wakes the other worker, sends the result, and the channel is closed.
abbrev closing : Run
closing =
    let signalled : Run = (_, later started.1 (auth_ok job refl refl)) in
    let ended : Run =
      (_, later signalled.1 (first_works (do_transfer none job []) (omega arith))) in
    let sent : Run = (_, later ended.1 (first_works (send _ []) (omega arith))) in
    (_, later sent.1 (close refl))

abbrev over : Run
over =
    let awake : Run = (_, later closing.1 (wake [] [] refl (omega arith))) in
    let first_over : Run = (_, later awake.1 (first_stops refl refl refl)) in
    (_, later first_over.1 (other_stops [] [] refl refl refl))

Reach-login_example : (started.0.dones ≤ 1) × (started.0.dones ≡ 0 → All IsWaiting started.0.others)
Reach-login_example = Reach-login started.1

Reach-ends_example :
    (AllStopped closing.0 ⊎ CanStep closing.0)
    × ((b : Adapter) → Step closing.0 b → remaining b < remaining closing.0)
Reach-ends_example = Reach-ends closing.1 refl

Reach-results_example : count_results (λ t. true) over.0.results ≡ 1
Reach-results_example = Reach-results (λ t. true) over.1 (refl, (refl, tt))
