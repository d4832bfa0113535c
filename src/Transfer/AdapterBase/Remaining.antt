-- ===== src/Transfer/AdapterBase/Remaining.antt =====
-- What remains to do for an adapter, which each step lowers.
use expert_octo_doodle.Common.{ℕ, ◌+◌, ◌*◌, ◌<◌, List, [], ◌∷◌, ◌++◌, true, ◌≡◌, ap, arith, length}
use expert_octo_doodle.Transfer.AdapterBase.{
  Transfer, TransferResult, Worker, waiting, receiving, busy, transferring, sending, stopped,
  Adapter, Work, take, refuse, start, do_transfer, send, Step, add, close, first_works, other_works,
  receives, auth_ok, wake, first_stops, other_stops,
}
use expert_octo_doodle.Transfer.AdapterBase.Login.{as_one}

-- What is left to do.
abbrev pub left_of : Worker → ℕ
left_of waiting = 2
left_of receiving = 1
left_of (busy t) = 5
left_of (transferring t) = 4
left_of (sending r) = 3
left_of stopped = 0

abbrev pub left_of_all : List Worker → ℕ
left_of_all [] = 0
left_of_all (w ∷ ws) = left_of w + left_of_all ws

abbrev pub remaining : Adapter → ℕ
remaining a =
    5 * length a.job_chan + left_of a.first + left_of_all a.others + as_one a.signal + a.unread

left_of_all-middle :
    (front back : List Worker) (w : Worker)
    → left_of_all (front ++ w ∷ back) ≡ left_of_all front + left_of w + left_of_all back
left_of_all-middle [] back w = omega arith
left_of_all-middle (v ∷ front) back w = omega (arith, left_of_all-middle front back w)

Work-lt :
    {jobs jobs' : List Transfer} {v w : Worker} {sent : List TransferResult}
    → Work jobs v jobs' w sent
    → 5 * length jobs' + left_of w + length sent < 5 * length jobs + left_of v
Work-lt (take t jobs) = omega arith
Work-lt (refuse now e t jobs h) = omega arith
Work-lt (start now t jobs h) = omega arith
Work-lt (do_transfer outcome t jobs) = omega arith
Work-lt (send r jobs) = omega arith

pub Step-lt : {a b : Adapter} → a.closed ≡ true → Step a b → remaining b < remaining a
Step-lt {a} closed (add t accepting room) = cc
Step-lt {a} closed (close accepting) = cc
Step-lt {a} closed (first_works work room) = omega (arith, Work-lt work)
Step-lt {a} closed (other_works {v = v} {w = w} front back split work room) = omega (
  arith,
  Work-lt work,
  ap left_of_all split,
  left_of_all-middle front back v,
  left_of_all-middle front back w,
)
Step-lt {a} closed (receives some) = omega arith
Step-lt {a} closed (auth_ok t at signal) = omega (arith, ap as_one signal)
Step-lt {a} closed (wake front back split signalled) = omega (
  arith,
  ap left_of_all split,
  left_of_all-middle front back waiting,
  left_of_all-middle front back receiving,
)
Step-lt {a} closed (first_stops at empty done) = omega (arith, ap left_of at)
Step-lt {a} closed (other_stops front back split empty done) = omega (
  arith,
  ap left_of_all split,
  left_of_all-middle front back receiving,
  left_of_all-middle front back stopped,
)
