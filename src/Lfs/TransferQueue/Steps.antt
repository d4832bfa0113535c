-- ===== src/Lfs/TransferQueue/Steps.antt =====
-- The steps that the goroutines of a transfer queue take, and the queues that are reached.
use expert_octo_doodle.Common.{
  ℕ, List, [], ◌∷◌, ◌++◌, Option, some, Bool, false, Bytes, length, ◌≡◌,
}
use expert_octo_doodle.Errors.{Fault, is_error, is_not_implemented}
use expert_octo_doodle.Lfs.TransferQueue.{
  Transferable, RetryCounter, TransferQueue, Answer, add, handle_transfer_result, handle_answers,
  fail_batch, check_one, collect_retry,
}

abbrev pub new_transfer_queue : Bool → RetryCounter → TransferQueue
new_transfer_queue dry_run rc = record {
  dry_run = dry_run;
  transferables = [];
  rc = rc;
  added = 0;
  finished = 0;
  input = [];
  retries = [];
  in_adapter = [];
  errors = [];
  completed = [];
}

-- A step: a call of `Add`, a retry that is collected, a result of the adapter, a batch that the API
-- refuses for a reason other than that it has no batches, a batch that it answers with as many objects,
-- or a single check.
pub data Step : TransferQueue → TransferQueue → Type 0 where
  adds : {q : TransferQueue} (t : Transferable) → Step q (add t q)
  collects :
      {q : TransferQueue} (t : Transferable) (rest : List Transferable)
      → q.retries ≡ t ∷ rest
      → Step q (collect_retry t (record q { retries = rest }))
  transfers :
      {q : TransferQueue} (front back : List Bytes) (oid : Bytes) (result : Option Fault)
      → q.in_adapter ≡ front ++ oid ∷ back
      → Step q (handle_transfer_result oid result (record q { in_adapter = front ++ back }))
  refuses :
      {q : TransferQueue} (batch rest : List Transferable) (e : Fault)
      → q.input ≡ batch ++ rest
      → is_error is_not_implemented e ≡ false
      → Step q (fail_batch false e batch (record q { input = rest }))
  answers :
      {q p : TransferQueue} (batch rest : List Transferable) (begun : ℕ → Option Fault)
      (os : List Answer)
      → q.input ≡ batch ++ rest
      → length os ≡ length batch
      → handle_answers begun os (record q { input = rest }) ≡ some p
      → Step q p
  checks :
      {q : TransferQueue} (t : Transferable) (rest : List Transferable) (begun error : Option Fault)
      (found : Bool)
      → q.input ≡ t ∷ rest
      → Step q (check_one begun error found t (record q { input = rest }))

pub data Reachable (q : TransferQueue) : TransferQueue → Type 0 where
  start : Reachable q q
  step : {p r : TransferQueue} → Reachable q p → Step p r → Reachable q r
