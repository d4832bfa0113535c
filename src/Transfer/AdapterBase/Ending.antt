-- ===== src/Transfer/AdapterBase/Ending.antt =====
-- What `End` waits for: once the channel of jobs is closed, every schedule in which the results are received ends with all workers stopped.
use expert_octo_doodle.Common.{
  ◌-◌, leb, Bool-cases, ◌≤◌, ◌+◌, length, ℕ, ◌<◌, List, [], ◌∷◌, ◌++◌, append_assoc, Bool, true,
  ◌≡◌, refl, sym, ap, ◌∙◌, arith, All, ◌⊎◌, inl, inr, Option-cases, none,
}
use expert_octo_doodle.Transfer.AdapterBase.{
  Transfer, TransferResult, Worker, waiting, receiving, busy, transferring, sending, stopped,
  refused, Adapter, Work, take, refuse, start, do_transfer, send, Step, first_works, other_works,
  receives, result_chan_size, auth_ok, add, close, begun, later, wake, first_stops, other_stops,
  Reach,
}
use expert_octo_doodle.Transfer.AdapterBase.Login.{as_one, IsLogin, Reach-IsLogin}
use expert_octo_doodle.Transfer.AdapterBase.Conserved.{
  count, count_results, held, held_by, Reach-Conserved,
}
use expert_octo_doodle.Transfer.AdapterBase.Drained.{IsStopped, AllStopped, Reach-IsEnding}
use expert_octo_doodle.Transfer.AdapterBase.Remaining.{remaining, Step-lt}

-- What a worker can do with the channel that is there.
data Stand (jobs : List Transfer) (w : Worker) : Type 0 where
  works :
      {jobs' : List Transfer} {w' : Worker} {sent : List TransferResult}
      → Work jobs w jobs' w' sent
      → Stand jobs w
  idles : w ≡ receiving → jobs ≡ [] → Stand jobs w
  waits : w ≡ waiting → Stand jobs w
  has_stopped : w ≡ stopped → Stand jobs w

stand : (jobs : List Transfer) (w : Worker) → Stand jobs w
stand jobs waiting = waits refl
stand [] receiving = idles refl refl
stand (t ∷ jobs) receiving = works (take t jobs)
stand jobs (busy t) = elim (Option-cases (refused 0 t)) [
  | inl fine ↦ works (start 0 t jobs fine)
  | inr (e, wrong) ↦ works (refuse 0 e t jobs wrong)
]
stand jobs (transferring t) = works (do_transfer none t jobs)
stand jobs (sending r) = works (send r jobs)
stand jobs stopped = has_stopped refl

-- A step that a worker takes.
abbrev pub IsOfWorker : {a b : Adapter} → Step a b → Type 0
IsOfWorker (first_works work room) = Unit
IsOfWorker (other_works front back split work room) = Unit
IsOfWorker (auth_ok t at signal) = Unit
IsOfWorker (wake front back split signalled) = Unit
IsOfWorker (first_stops at empty done) = Unit
IsOfWorker (other_stops front back split empty done) = Unit
IsOfWorker _ = ⊥

-- A worker can go on, or the channel of results is full and its reader can receive.
abbrev pub CanStep : Adapter → Type 0
CanStep a =
    ((b : Adapter) × (s : Step a b) × IsOfWorker s)
    ⊎ ((a.unread ≡ result_chan_size) × Step a (record a { unread = a.unread - 1 }))

Work-le :
    {jobs jobs' : List Transfer} {v w : Worker} {sent : List TransferResult}
    → Work jobs v jobs' w sent
    → length sent ≤ 1
Work-le (take t jobs) = omega arith
Work-le (refuse now e t jobs h) = omega arith
Work-le (start now t jobs h) = omega arith
Work-le (do_transfer outcome t jobs) = omega arith
Work-le (send r jobs) = omega arith

-- A worker that has something to do can do it unless the channel of results is full.
if_room :
    {jobs' : List Transfer} {w w' : Worker} {sent : List TransferResult} (a : Adapter)
    → a.unread ≤ result_chan_size
    → Work a.job_chan w jobs' w' sent
    → (a.unread + length sent ≤ result_chan_size → CanStep a)
    → CanStep a
if_room {sent = sent} a fits work then_step =
    elim (Bool-cases (leb (a.unread + length sent) result_chan_size)) [
      | inl room ↦ then_step (ground (arith, room))
      | inr full ↦
          let all : a.unread ≡ result_chan_size = ground (arith, full, fits, Work-le work) in
          inr (all, receives (omega (arith, all)))
    ]

-- The first of the others that has not stopped.
others_progress :
    (a : Adapter)
    → a.unread ≤ result_chan_size
    → a.closed ≡ true
    → 0 < a.dones
    → (front ws : List Worker) → a.others ≡ front ++ ws
    → All IsStopped ws ⊎ CanStep a
others_progress a fits closed signalled front [] split = inl tt
others_progress a fits closed signalled front (w ∷ ws) split = elim (stand a.job_chan w) [
  | works work ↦
      inr (if_room a fits work (λ room. inl (_, other_works front ws split work room, tt)))
  | idles at empty ↦
      inr (inl (_, other_stops front ws (split ∙ ap (λ v. front ++ v ∷ ws) at) empty closed, tt))
  | waits at ↦ inr (inl (_, wake front ws (split ∙ ap (λ v. front ++ v ∷ ws) at) signalled, tt))
  | has_stopped at ↦
      elim (others_progress a fits closed signalled (front ++ w ∷ []) ws
        (split ∙ sym (append_assoc front (w ∷ []) ws))) [
          | inl all ↦ inl (at, all)
          | inr step ↦ inr step
        ]
]

progress :
    (a : Adapter)
    → a.unread ≤ result_chan_size
    → IsLogin a
    → a.closed ≡ true
    → AllStopped a ⊎ CanStep a
progress a fits login closed = elim (stand a.job_chan a.first) [
  | works work ↦ inr (if_room a fits work (λ room. inl (_, first_works work room, tt)))
  | idles at empty ↦ inr (inl (_, first_stops at empty closed, tt))
  | waits at ↦ absurd (login.first_awake at)
  | has_stopped at ↦
      elim (others_progress a fits closed
        (omega (arith, login.once, ap as_one (login.first_ended at))) [] a.others refl) [
          | inl all ↦ inl (at, all)
          | inr step ↦ inr step
        ]
]

held_by-stopped : (p : Transfer → Bool) (ws : List Worker) → All IsStopped ws → held_by p ws ≡ 0
held_by-stopped p [] h = refl
held_by-stopped p (w ∷ ws) (at, h) = omega (arith, ap (held p) at, held_by-stopped p ws h)

-- The channel of results holds no more than it has room for.
Reach-le : {n : ℕ} {a : Adapter} → Reach n a → a.unread ≤ result_chan_size
Reach-le begun = omega arith
Reach-le (later r (add t accepting room)) = Reach-le r
Reach-le (later r (close accepting)) = Reach-le r
Reach-le (later r (first_works work room)) = room
Reach-le (later r (other_works front back split work room)) = room
Reach-le (later r (receives some)) = omega (arith, Reach-le r)
Reach-le (later r (auth_ok t at signal)) = Reach-le r
Reach-le (later r (wake front back split signalled)) = Reach-le r
Reach-le (later r (first_stops at empty done)) = Reach-le r
Reach-le (later r (other_stops front back split empty done)) = Reach-le r

-- Once the channel of jobs is closed, an adapter in any state that its steps reach has stopped all its workers, or a worker can go on,
-- or the channel of results is full, and its reader has to receive one; and each step, of the workers or the
-- reader, lowers what remains to do. So the workers stop under every schedule, whether logins and transfers succeed or fail, if
-- the reader receives whenever the channel is full, which is an assumption on the caller.
pub Reach-ends :
    {n : ℕ} {a : Adapter}
    → Reach n a
    → a.closed ≡ true
    → (AllStopped a ⊎ CanStep a) × ((b : Adapter) → Step a b → remaining b < remaining a)
Reach-ends {n} {a} r closed =
    (progress a (Reach-le r) (Reach-IsLogin r) closed, λ b step. Step-lt closed step)

-- When all workers have stopped, each transfer that was added has one result: by any test, as many transfers have
-- a result as were added.
pub Reach-results :
    {n : ℕ} {a : Adapter} (p : Transfer → Bool)
    → Reach n a
    → AllStopped a
    → count_results p a.results ≡ count p a.added
Reach-results {n} {a} p r (first, others) = omega (
  arith,
  Reach-Conserved p r,
  ap (count p) ((Reach-IsEnding r).by_first first).1,
  ap (held p) first,
  held_by-stopped p a.others others,
)
