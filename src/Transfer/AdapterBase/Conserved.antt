-- ===== src/Transfer/AdapterBase/Conserved.antt =====
-- No job is lost, and none has two results.
use expert_octo_doodle.Common.{
  ℕ, zero, suc, ◌+◌, List, [], ◌∷◌, ◌++◌, Bool, if◌then◌else◌, ◌≡◌, refl, ap, arith,
}
use expert_octo_doodle.Transfer.AdapterBase.{
  Transfer, TransferResult, Worker, waiting, receiving, busy, transferring, sending, stopped,
  Adapter, Work, take, refuse, start, do_transfer, send, replicate_waiting, Step, add, close,
  first_works, other_works, receives, auth_ok, wake, first_stops, other_stops, Reach, begun, later,
}

-- Everything is counted by a test of transfers.
module _ (p : Transfer → Bool) where
  abbrev pub one : Transfer → ℕ
  one t = if p t then 1 else 0

  abbrev pub count : List Transfer → ℕ
  count [] = 0
  count (t ∷ ts) = one t + count ts

  abbrev pub count_results : List TransferResult → ℕ
  count_results [] = 0
  count_results (r ∷ rs) = one r.transfer + count_results rs

  abbrev pub held : Worker → ℕ
  held waiting = 0
  held receiving = 0
  held (busy t) = one t
  held (transferring t) = one t
  held (sending r) = one r.transfer
  held stopped = 0

  abbrev pub held_by : List Worker → ℕ
  held_by [] = 0
  held_by (w ∷ ws) = held w + held_by ws

  count-append : (ts us : List Transfer) → count (ts ++ us) ≡ count ts + count us
  count-append [] us = omega arith
  count-append (t ∷ ts) us = omega (arith, count-append ts us)

  count_results-append :
      (rs us : List TransferResult) → count_results (rs ++ us) ≡ count_results rs + count_results us
  count_results-append [] us = omega arith
  count_results-append (r ∷ rs) us = omega (arith, count_results-append rs us)

  held_by-middle :
      (front back : List Worker) (w : Worker)
      → held_by (front ++ w ∷ back) ≡ held_by front + held w + held_by back
  held_by-middle [] back w = omega arith
  held_by-middle (v ∷ front) back w = omega (arith, held_by-middle front back w)

  held_by-replicate_waiting : (n : ℕ) → held_by (replicate_waiting n) ≡ 0
  held_by-replicate_waiting zero = refl
  held_by-replicate_waiting (suc n) = omega (arith, held_by-replicate_waiting n)

  -- A round moves a job on.
  Work-count :
      {jobs jobs' : List Transfer} {v w : Worker} {sent : List TransferResult}
      → Work jobs v jobs' w sent
      → count jobs + held v ≡ count jobs' + held w + count_results sent
  Work-count (take t jobs) = omega arith
  Work-count (refuse now e t jobs h) = omega arith
  Work-count (start now t jobs h) = omega arith
  Work-count (do_transfer outcome t jobs) = omega arith
  Work-count (send r jobs) = omega arith

  abbrev pub Conserved : Adapter → Type 0
  Conserved a =
      count a.added ≡ count a.job_chan + held a.first + held_by a.others + count_results a.results

  Step-Conserved : {a b : Adapter} → Step a b → Conserved a → Conserved b
  Step-Conserved {a} (add t accepting room) h =
      omega (arith, h, count-append a.added (t ∷ []), count-append a.job_chan (t ∷ []))
  Step-Conserved {a} (close accepting) h = h
  Step-Conserved {a} (first_works {sent = sent} work room) h =
      omega (arith, h, Work-count work, count_results-append a.results sent)
  Step-Conserved {a} (other_works {v = v} {w = w} {sent = sent} front back split work room) h =
      omega (
        arith,
        h,
        Work-count work,
        count_results-append a.results sent,
        ap held_by split,
        held_by-middle front back v,
        held_by-middle front back w,
      )
  Step-Conserved {a} (receives some) h = h
  Step-Conserved {a} (auth_ok t at signal) h = h
  Step-Conserved {a} (wake front back split signalled) h = omega (
    arith,
    h,
    ap held_by split,
    held_by-middle front back waiting,
    held_by-middle front back receiving,
  )
  Step-Conserved {a} (first_stops at empty closed) h = omega (arith, h, ap held at)
  Step-Conserved {a} (other_stops front back split empty closed) h = omega (
    arith,
    h,
    ap held_by split,
    held_by-middle front back receiving,
    held_by-middle front back stopped,
  )

  pub Reach-Conserved : {n : ℕ} {a : Adapter} → Reach n a → Conserved a
  Reach-Conserved {n} begun = omega (arith, held_by-replicate_waiting n)
  Reach-Conserved (later r step) = Step-Conserved step (Reach-Conserved r)
