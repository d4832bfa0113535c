-- ===== src/Transfer/AdapterBase/Login.antt =====
-- The first worker logs in alone, and wakes the others once.
use expert_octo_doodle.Common.{
  ℕ, zero, suc, ◌+◌, ◌≤◌, List, [], ◌∷◌, ◌++◌, Bool, true, false, ◌≡◌, ◌≢◌, refl, ap, arith, All,
}
use mathlib.Core.Path.{subst}
use expert_octo_doodle.Transfer.AdapterBase.{
  Transfer, TransferResult, Worker, waiting, receiving, stopped, Adapter, Work, take, refuse, start,
  do_transfer, send, replicate_waiting, begin, Step, add, close, first_works, other_works, receives,
  auth_ok, wake, first_stops, other_stops, Reach, begun, later,
}

abbrev pub as_one : Bool → ℕ
as_one true = 1
as_one false = 0

abbrev pub IsWaiting : Worker → Type 0
IsWaiting w = w ≡ waiting

pub record IsLogin (a : Adapter) : Type 0 where
  pub once : a.dones + as_one a.signal ≡ 1
  pub quiet : a.dones ≡ 0 → All IsWaiting a.others
  pub first_awake : a.first ≢ waiting
  pub first_ended : a.first ≡ stopped → a.signal ≡ false

pub All-middle :
    (P : Worker → Type 0) (front back : List Worker) (v : Worker) → All P (front ++ v ∷ back) → P v
All-middle P [] back v (h, rest) = h
All-middle P (w ∷ front) back v (h, rest) = All-middle P front back v rest

-- Who works is awake before and after it.
pub Work-awake :
    {jobs jobs' : List Transfer} {v w : Worker} {sent : List TransferResult}
    → Work jobs v jobs' w sent
    → (v ≢ waiting) × (w ≢ waiting) × (w ≢ stopped)
Work-awake (take t jobs) = (λ e. cc, λ e. cc, λ e. cc)
Work-awake (refuse now e t jobs h) = (λ e. cc, λ e. cc, λ e. cc)
Work-awake (start now t jobs h) = (λ e. cc, λ e. cc, λ e. cc)
Work-awake (do_transfer outcome t jobs) = (λ e. cc, λ e. cc, λ e. cc)
Work-awake (send r jobs) = (λ e. cc, λ e. cc, λ e. cc)

All-replicate_waiting : (n : ℕ) → All IsWaiting (replicate_waiting n)
All-replicate_waiting zero = tt
All-replicate_waiting (suc n) = (refl, All-replicate_waiting n)

begin-IsLogin : (n : ℕ) → IsLogin (begin n)
begin-IsLogin n = record {
  once = refl;
  quiet = λ e. All-replicate_waiting n;
  first_awake = λ e. cc;
  first_ended = λ e. cc;
}

-- A worker among others that all wait.
middle_waits :
    {others : List Worker} (front back : List Worker) (v : Worker)
    → others ≡ front ++ v ∷ back
    → All IsWaiting others
    → v ≡ waiting
middle_waits front back v split all =
    All-middle IsWaiting front back v (subst (All IsWaiting) split all)

Step-IsLogin : {a b : Adapter} → Step a b → IsLogin a → IsLogin b
Step-IsLogin (add t accepting room) h = record {
  once = h.once;
  quiet = h.quiet;
  first_awake = h.first_awake;
  first_ended = h.first_ended;
}
Step-IsLogin (close accepting) h = record {
  once = h.once;
  quiet = h.quiet;
  first_awake = h.first_awake;
  first_ended = h.first_ended;
}
Step-IsLogin (first_works work room) h = record {
  once = h.once;
  quiet = h.quiet;
  first_awake = (Work-awake work).1;
  first_ended = λ e. absurd ((Work-awake work).2 e);
}
Step-IsLogin (other_works {v = v} front back split work room) h = record {
  once = h.once;
  quiet = λ e. absurd ((Work-awake work).0 (middle_waits front back v split (h.quiet e)));
  first_awake = h.first_awake;
  first_ended = h.first_ended;
}
Step-IsLogin (receives some) h = record {
  once = h.once;
  quiet = h.quiet;
  first_awake = h.first_awake;
  first_ended = h.first_ended;
}
Step-IsLogin {a} (auth_ok t at signal) h = record {
  once = omega (arith, h.once, ap as_one signal);
  quiet = λ e. absurd (omega (arith, e));
  first_awake = h.first_awake;
  first_ended = λ e. refl;
}
Step-IsLogin {a} (wake front back split signalled) h = record {
  once = h.once;
  quiet = λ e. absurd (omega (arith, e, signalled));
  first_awake = h.first_awake;
  first_ended = h.first_ended;
}
Step-IsLogin {a} (first_stops at empty closed) h = record {
  once = ground (arith, h.once);
  quiet = λ e. h.quiet (ground (arith, h.once, e));
  first_awake = λ e. cc;
  first_ended = λ e. refl;
}
Step-IsLogin {a} (other_stops front back split empty closed) h = record {
  once = h.once;
  quiet = λ e. cc (middle_waits front back receiving split (h.quiet e));
  first_awake = h.first_awake;
  first_ended = h.first_ended;
}

pub Reach-IsLogin : {n : ℕ} {a : Adapter} → Reach n a → IsLogin a
Reach-IsLogin {n} begun = begin-IsLogin n
Reach-IsLogin (later r step) = Step-IsLogin step (Reach-IsLogin r)

-- The wait group of the login is released once at most, and before that no worker but the first has taken a
-- job.
pub Reach-login :
    {n : ℕ} {a : Adapter} → Reach n a → (a.dones ≤ 1) × (a.dones ≡ 0 → All IsWaiting a.others)
Reach-login {n} {a} r = (omega (arith, (Reach-IsLogin r).once), (Reach-IsLogin r).quiet)
