-- ===== src/Transfer/AdapterBase/Drained.antt =====
-- A worker stops only when the channel of jobs is closed and empty.
use expert_octo_doodle.Common.{ℕ, zero, suc, List, [], ◌∷◌, ◌++◌, true, ◌≡◌, refl, All}
use mathlib.Core.Path.{subst}
use expert_octo_doodle.Transfer.AdapterBase.{
  Transfer, TransferResult, Worker, waiting, receiving, stopped, Adapter, Work, take, refuse, start,
  do_transfer, send, replicate_waiting, begin, Step, add, close, first_works, other_works, receives,
  auth_ok, wake, first_stops, other_stops, Reach, begun, later,
}
use expert_octo_doodle.Transfer.AdapterBase.Login.{Work-awake}

abbrev pub IsStopped : Worker → Type 0
IsStopped w = w ≡ stopped

abbrev pub AllStopped : Adapter → Type 0
AllStopped a = IsStopped a.first × All IsStopped a.others

-- The channel is closed and empty.
abbrev pub Drained : Adapter → Type 0
Drained a = (a.closed ≡ true) × (a.job_chan ≡ [])

-- A worker stops only then.
pub record IsEnding (a : Adapter) : Type 0 where
  pub by_first : a.first ≡ stopped → Drained a
  pub by_others : All (λ w. w ≡ stopped → Drained a) a.others

module _ (P Q : Worker → Type 0) where
  All-map : ((w : Worker) → P w → Q w) → (ws : List Worker) → All P ws → All Q ws
  All-map f [] h = tt
  All-map f (w ∷ ws) (h, rest) = (f w h, All-map f ws rest)

All-replace :
    (P : Worker → Type 0) (front back : List Worker) (v w : Worker)
    → P w
    → All P (front ++ v ∷ back)
    → All P (front ++ w ∷ back)
All-replace P [] back v w new (h, rest) = (new, rest)
All-replace P (u ∷ front) back v w new (h, rest) = (h, All-replace P front back v w new rest)

Work-nil :
    {jobs jobs' : List Transfer} {v w : Worker} {sent : List TransferResult}
    → Work jobs v jobs' w sent
    → jobs ≡ []
    → jobs' ≡ []
Work-nil (take t jobs) e = cc
Work-nil (refuse now x t jobs h) e = e
Work-nil (start now t jobs h) e = e
Work-nil (do_transfer outcome t jobs) e = e
Work-nil (send r jobs) e = e

Step-Drained : (a b : Adapter) → Step a b → Drained a → Drained b
Step-Drained a b (add t accepting room) (c, e) = cc
Step-Drained a b (close accepting) (c, e) = (refl, e)
Step-Drained a b (first_works work room) (c, e) = (c, Work-nil work e)
Step-Drained a b (other_works front back split work room) (c, e) = (c, Work-nil work e)
Step-Drained a b (receives some) d = d
Step-Drained a b (auth_ok t at signal) d = d
Step-Drained a b (wake front back split signalled) d = d
Step-Drained a b (first_stops at empty closed) d = d
Step-Drained a b (other_stops front back split empty closed) d = d

-- The others of a step that changes one of them.
others_replaced :
    (a b : Adapter) (front back : List Worker) (v w : Worker)
    → (Drained a → Drained b)
    → (w ≡ stopped → Drained b)
    → a.others ≡ front ++ v ∷ back
    → All (λ u. u ≡ stopped → Drained a) a.others
    → All (λ u. u ≡ stopped → Drained b) (front ++ w ∷ back)
others_replaced a b front back v w on new split h =
    All-replace (λ u. u ≡ stopped → Drained b) front back v w new
      (All-map (λ u. u ≡ stopped → Drained a) (λ u. u ≡ stopped → Drained b) (λ u d e. on (d e))
        (front ++ v ∷ back) (subst (All (λ u. u ≡ stopped → Drained a)) split h))

kept :
    (a b : Adapter)
    → (Drained a → Drained b)
    → IsEnding a
    → All (λ u. u ≡ stopped → Drained b) a.others
kept a b on h =
    All-map (λ u. u ≡ stopped → Drained a) (λ u. u ≡ stopped → Drained b) (λ u d e. on (d e))
      a.others h.by_others

Step-IsEnding : {a b : Adapter} → Step a b → IsEnding a → IsEnding b
Step-IsEnding {a} {b} (add t accepting room) h = record {
  by_first = λ e. Step-Drained a b (add t accepting room) (h.by_first e);
  by_others = kept a b (Step-Drained a b (add t accepting room)) h;
}
Step-IsEnding {a} {b} (close accepting) h = record {
  by_first = λ e. Step-Drained a b (close accepting) (h.by_first e);
  by_others = kept a b (Step-Drained a b (close accepting)) h;
}
Step-IsEnding {a} {b} (first_works work room) h = record {
  by_first = λ e. absurd ((Work-awake work).2 e);
  by_others = kept a b (Step-Drained a b (first_works work room)) h;
}
Step-IsEnding {a} {b} (other_works {v = v} {w = w} front back split work room) h = record {
  by_first = λ e. Step-Drained a b (other_works front back split work room) (h.by_first e);
  by_others =
      others_replaced a b front back v w (Step-Drained a b (other_works front back split work room))
        (λ e. absurd ((Work-awake work).2 e)) split h.by_others;
}
Step-IsEnding {a} {b} (receives some) h = record { by_first = h.by_first; by_others = h.by_others }
Step-IsEnding {a} {b} (auth_ok t at signal) h = record {
  by_first = h.by_first;
  by_others = h.by_others;
}
Step-IsEnding {a} {b} (wake front back split signalled) h = record {
  by_first = h.by_first;
  by_others = others_replaced a b front back waiting receiving (λ d. d) (λ e. cc) split h.by_others;
}
Step-IsEnding {a} {b} (first_stops at empty closed) h = record {
  by_first = λ e. (closed, empty);
  by_others = h.by_others;
}
Step-IsEnding {a} {b} (other_stops front back split empty closed) h = record {
  by_first = h.by_first;
  by_others =
      others_replaced a b front back receiving stopped (λ d. d) (λ e. (closed, empty)) split
        h.by_others;
}

begin-IsEnding : (n : ℕ) → IsEnding (begin n)
begin-IsEnding n = record { by_first = λ e. cc; by_others = none_stopped n }
  where
    none_stopped : (k : ℕ) → All (λ w. w ≡ stopped → Drained (begin n)) (replicate_waiting k)
    none_stopped zero = tt
    none_stopped (suc k) = (λ e. cc, none_stopped k)

pub Reach-IsEnding : {n : ℕ} {a : Adapter} → Reach n a → IsEnding a
Reach-IsEnding {n} begun = begin-IsEnding n
Reach-IsEnding (later r step) = Step-IsEnding step (Reach-IsEnding r)
