-- ===== src/Transfer/AdapterBase.antt =====
-- transfer/adapterbase.go: the workers of an adapter as steps in any order, and `IsExpired` of api/object.go. The
-- implementation of a transfer may give any result; it calls `authOkFunc` once at most, as those of the
-- package do. A time is a number of nanoseconds.
pub mod Login
pub mod Conserved
pub mod Drained
pub mod Remaining
pub mod Ending
use expert_octo_doodle.Common.{
  ℕ, zero, suc, ◌+◌, ◌-◌, ◌*◌, ◌<◌, ◌≤◌, List, [], ◌∷◌, ◌++◌, Option, none, some, Bool, true, false,
  if◌then◌else◌, ltb, Bytes, length, ℤ, pos, negsuc, ◌≡◌,
}

-- `expires_at` has the times of the actions; `none` is the zero time.
pub record Transfer : Type 0 where
  pub oid : Bytes
  pub size : ℤ
  pub expires_at : List (Option ℕ)

pub data JobError : Type 0 where
  expired : ℕ → JobError
  invalid_size : JobError
  transfer_failed : Bytes → JobError

pub record TransferResult : Type 0 where
  pub transfer : Transfer
  pub error : Option JobError

-- The loop of `IsExpired`.
unfoldable pub expiry : List (Option ℕ) → ℕ → Option ℕ
expiry [] now = none
expiry (none ∷ times) now = expiry times now
expiry (some t ∷ times) now = elim (ltb t now) [ true ↦ some t | false ↦ expiry times now ]

abbrev pub is_expired : Transfer → ℕ → Option ℕ
is_expired t now = expiry t.expires_at now

-- `5 * time.Second`
abbrev pub object_expiration_to_transfer : ℕ
object_expiration_to_transfer = 5000000000

abbrev is_negative : ℤ → Bool
is_negative (pos n) = false
is_negative (negsuc n) = true

-- What `worker` finds wrong with a job before it calls the implementation.
unfoldable pub refused : ℕ → Transfer → Option JobError
unfolding expiry
refused now t = elim (is_expired t (now + object_expiration_to_transfer)) [
  | some at ↦ some (expired at)
  | none ↦ if is_negative t.size then some invalid_size else none
]

-- Where a worker is: in front of `authWait.Wait()`, in front of a receive, in front of the checks of a job, in `DoTransfer`, in front of
-- the send of a result, or behind its end.
pub data Worker : Type 0 where
  waiting : Worker
  receiving : Worker
  busy : Transfer → Worker
  transferring : Transfer → Worker
  sending : TransferResult → Worker
  stopped : Worker

-- `first` is the worker 0, and `signal` its `signalAuthOnResponse`; `dones` counts the calls of `authWait.Done()`, and
-- `added` what `Add` was called with. `results` is what was sent to `outChan`, and `unread` how many of these
-- nobody has received.
pub record Adapter : Type 0 where
  pub job_chan : List Transfer
  pub closed : Bool
  pub signal : Bool
  pub dones : ℕ
  pub first : Worker
  pub others : List Worker
  pub results : List TransferResult
  pub unread : ℕ
  pub added : List Transfer

abbrev pub job_chan_size : ℕ
job_chan_size = 100

-- The size of the channel that the transfer queue makes for the results.
abbrev pub result_chan_size : ℕ
result_chan_size = 20

-- A round of the loop over the jobs: the channel, the worker, and the results that are sent.
pub data Work : List Transfer → Worker → List Transfer → Worker → List TransferResult → Type 0 where
  take : (t : Transfer) (jobs : List Transfer) → Work (t ∷ jobs) receiving jobs (busy t) []
  refuse :
      (now : ℕ) (e : JobError) (t : Transfer) (jobs : List Transfer)
      → refused now t ≡ some e
      → Work jobs (busy t) jobs (sending (record { transfer = t; error = some e })) []
  start :
      (now : ℕ) (t : Transfer) (jobs : List Transfer)
      → refused now t ≡ none
      → Work jobs (busy t) jobs (transferring t) []
  do_transfer :
      (outcome : Option JobError) (t : Transfer) (jobs : List Transfer)
      → Work jobs (transferring t) jobs (sending (record { transfer = t; error = outcome })) []
  send : (r : TransferResult) (jobs : List Transfer) → Work jobs (sending r) jobs receiving (r ∷ [])

abbrev replicate_waiting : ℕ → List Worker
replicate_waiting zero = []
replicate_waiting (suc n) = waiting ∷ replicate_waiting n

-- `Begin` with this number of workers besides the first, each of which starts.
abbrev pub begin : ℕ → Adapter
begin others = record {
  job_chan = [];
  closed = false;
  signal = true;
  dones = 0;
  first = receiving;
  others = replicate_waiting others;
  results = [];
  unread = 0;
  added = [];
}

-- The end of the first worker: it wakes the others if it has not done so.
abbrev pub stop_first : Adapter → Adapter
stop_first a = record a {
  first = stopped;
  signal = false;
  dones = if a.signal then a.dones + 1 else a.dones;
}

-- `Add` and `End`, the workers, and the reader of `outChan`: a send waits while the channel is full.
pub data Step (a : Adapter) : Adapter → Type 0 where
  add :
      (t : Transfer)
      → a.closed ≡ false
      → length a.job_chan < job_chan_size
      → Step a (record a { job_chan = a.job_chan ++ t ∷ []; added = a.added ++ t ∷ [] })
  close : a.closed ≡ false → Step a (record a { closed = true })
  first_works :
      {jobs : List Transfer} {w : Worker} {sent : List TransferResult}
      → Work a.job_chan a.first jobs w sent
      → a.unread + length sent ≤ result_chan_size
      → Step a (record a {
        job_chan = jobs;
        first = w;
        results = a.results ++ sent;
        unread = a.unread + length sent;
      })
  other_works :
      {jobs : List Transfer} {v w : Worker} {sent : List TransferResult} (front back : List Worker)
      → a.others ≡ front ++ v ∷ back
      → Work a.job_chan v jobs w sent
      → a.unread + length sent ≤ result_chan_size
      → Step a (record a {
        job_chan = jobs;
        others = front ++ w ∷ back;
        results = a.results ++ sent;
        unread = a.unread + length sent;
      })
  receives : 0 < a.unread → Step a (record a { unread = a.unread - 1 })
  auth_ok :
      (t : Transfer)
      → a.first ≡ transferring t
      → a.signal ≡ true
      → Step a (record a { signal = false; dones = a.dones + 1 })
  wake :
      (front back : List Worker)
      → a.others ≡ front ++ waiting ∷ back
      → 0 < a.dones
      → Step a (record a { others = front ++ receiving ∷ back })
  first_stops : a.first ≡ receiving → a.job_chan ≡ [] → a.closed ≡ true → Step a (stop_first a)
  other_stops :
      (front back : List Worker)
      → a.others ≡ front ++ receiving ∷ back
      → a.job_chan ≡ []
      → a.closed ≡ true
      → Step a (record a { others = front ++ stopped ∷ back })

pub data Reach (n : ℕ) : Adapter → Type 0 where
  begun : Reach n (begin n)
  later : {a b : Adapter} → Reach n a → Step a b → Reach n b
