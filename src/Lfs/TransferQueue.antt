-- ===== src/Lfs/TransferQueue.antt =====
-- lfs/transfer_queue.go: the objects of a queue on their way through the API, the adapter and retries.
-- The channels and the batcher are lists, and the goroutines take steps in any order. Locks, trace
-- output and the progress meter are left out. The counter of `q.wait` is `added` less `finished`, since
-- a `Done` below zero panics.
pub mod Steps
pub mod Balance
pub mod Places
pub mod Retries
use expert_octo_doodle.Common.{
  ℕ, ◌+◌, List, [], ◌∷◌, ◌++◌, Option, none, some, Bool, true, false, ◌&&◌, if◌then◌else◌, ltb,
  length, Bytes, Map, lookup, insert, ℤ, pos, negsuc, zero, suc,
}
use expert_octo_doodle.Errors.{Fault, is_error, is_retriable}

-- `Transferable`, of which the queue reads the oid.
pub record Transferable : Type 0 where
  pub oid : Bytes
  pub name : Bytes
  pub size : ℕ

pub record RetryCounter : Type 0 where
  pub max_retries : ℕ
  pub count : Map ℕ

-- `newRetryCounter`, over what `cfg.Unmarshal` leaves in `MaxRetries`; `none` is its error.
unfoldable pub new_retry_counter : Option ℤ → RetryCounter
new_retry_counter (some (pos (suc n))) = record { max_retries = suc n; count = [] }
new_retry_counter _ = record { max_retries = 1; count = [] }

unfoldable pub count_for : RetryCounter → Bytes → ℕ
count_for r oid = elim (lookup oid r.count) [ none ↦ 0 | some n ↦ n ]

unfoldable pub increment : Bytes → RetryCounter → RetryCounter
unfolding count_for
increment oid r = record r { count = insert oid (count_for r oid + 1) r.count }

unfoldable pub can_retry : RetryCounter → Bytes → Bool
can_retry r oid = ltb (count_for r oid) r.max_retries

-- `input` is what waits for the API, in the batcher or in `apic`; `retries` is `retriesc`; `in_adapter`
-- are the objects that the adapter has given no result for; `completed` is what the watchers are told.
pub record TransferQueue : Type 0 where
  pub dry_run : Bool
  pub transferables : Map Transferable
  pub rc : RetryCounter
  pub added : ℕ
  pub finished : ℕ
  pub input : List Transferable
  pub retries : List Transferable
  pub in_adapter : List Bytes
  pub errors : List Fault
  pub completed : List Bytes

-- `q.wait.Done()`, `q.errorc <- err` and `q.retry(t)`
abbrev pub done : TransferQueue → TransferQueue
done q = record q { finished = q.finished + 1 }

abbrev pub report : Fault → TransferQueue → TransferQueue
report e q = record q { errors = q.errors ++ e ∷ [] }

abbrev pub retry : Transferable → TransferQueue → TransferQueue
retry t q = record q { retries = q.retries ++ t ∷ [] }

-- `Add`
unfoldable pub add : Transferable → TransferQueue → TransferQueue
add t q = elim (lookup t.oid q.transferables) [
  | some _ ↦ q
  | none ↦ record q {
    added = q.added + 1;
    transferables = insert t.oid t q.transferables;
    input = q.input ++ t ∷ [];
  }
]

unfoldable pub can_retry_object : TransferQueue → Bytes → Fault → Bool
can_retry_object q oid e = can_retry q.rc oid && is_error is_retriable e

unfoldable pub handle_transfer_result : Bytes → Option Fault → TransferQueue → TransferQueue
handle_transfer_result oid none q = done (record q { completed = q.completed ++ oid ∷ [] })
handle_transfer_result oid (some e) q =
    if can_retry_object q oid e
    then elim (lookup oid q.transferables) [ some t ↦ retry t q | none ↦ report e q ]
    else done (report e q)

-- `addToAdapter`, over the error of `ensureAdapterBegun`.
unfoldable pub add_to_adapter : Option Fault → Transferable → TransferQueue → TransferQueue
unfolding handle_transfer_result
add_to_adapter begun t q = if q.dry_run then handle_transfer_result t.oid none q else elim begun [
  | some e ↦ done (report e q)
  | none ↦ record q { in_adapter = q.in_adapter ++ t.oid ∷ [] }
]

-- An object of the server's answer: its error, already wrapped, or whether it has the action that the
-- queue is for.
pub record Answer : Type 0 where
  pub oid : Bytes
  pub error : Option Fault
  pub has_rel : Bool

-- One round over the answer; `none` is the panic of `transfer.Size()` on an oid that is not known.
unfoldable pub handle_answer : Option Fault → Answer → TransferQueue → Option TransferQueue
unfolding add_to_adapter
handle_answer begun o q = elim o.error [
  | some e ↦ some (done (report e q))
  | none ↦
      if o.has_rel
      then elim (lookup o.oid q.transferables) [
        | some t ↦ some (add_to_adapter begun t q)
        | none ↦ none
      ]
      else some (done q)
]

-- The round over each object; `begun n` is the error of `ensureAdapterBegun` for the object with `n` behind it.
unfoldable pub handle_answers :
    (ℕ → Option Fault) → List Answer → TransferQueue → Option TransferQueue
unfolding handle_answer
handle_answers begun [] q = some q
handle_answers begun (o ∷ os) q = elim (handle_answer (begun (length os)) o q) [
  | none ↦ none
  | some p ↦ handle_answers begun os p
]

-- The loop over a batch that the API refused: the error is reported once, `reported` tells whether it was.
unfoldable pub fail_batch : Bool → Fault → List Transferable → TransferQueue → TransferQueue
fail_batch reported e [] q = q
fail_batch reported e (t ∷ batch) q =
    let again = fail_batch reported e batch (retry t q) in
    let failed = fail_batch true e batch (done (if reported then q else report e q)) in
    if can_retry_object q t.oid e then again else failed

-- A round of `individualApiRoutine`, over the result of `LegacyCheck`: an error, or whether there is an
-- object to transfer.
unfoldable pub check_one :
    Option Fault → Option Fault → Bool → Transferable → TransferQueue → TransferQueue
unfolding add_to_adapter
check_one begun (some e) found t q =
    if can_retry_object q t.oid e then retry t q else done (report e q)
check_one begun none found t q = if found then add_to_adapter begun t q else done q

-- A round of `retryCollector`
unfoldable pub collect_retry : Transferable → TransferQueue → TransferQueue
collect_retry t q = record q { rc = increment t.oid q.rc; input = q.input ++ t ∷ [] }
