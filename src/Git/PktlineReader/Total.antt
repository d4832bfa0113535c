-- ===== src/Git/PktlineReader/Total.antt =====
-- `Read` ends on every stream.
use expert_octo_doodle.Common.{
  ℕ, zero, suc, ◌+◌, ◌≤◌, ◌<◌, ◌≢◌, [], ◌∷◌, ltb, Bytes, length, arith, inl, inr, Bool-cases,
}
use expert_octo_doodle.Git.Pktline
use expert_octo_doodle.Git.Pktline.{Result, Input, read_packet}
use expert_octo_doodle.Git.Pktline.Total.{Takes, read_packet-Takes}
use expert_octo_doodle.Git.PktlineReader.{PktlineReader, Progress, stuck, fetch, read_loop, read}

fetch-ne-stuck :
    (again : Bytes → PktlineReader → Progress × PktlineReader) (cap : ℕ) (got : Bytes) (s : Input)
    (x : Result Bytes) (t : Input)
    → Takes 4 s (x, t)
    → ((g : Bytes) (r : PktlineReader)
        → length r.pl.bytes + 4 ≤ length s.bytes
        → (again g r).0 ≢ stuck)
    → (fetch again cap got (x, t)).0 ≢ stuck
fetch-ne-stuck again cap got s (Pktline.Result.err e) t h k = λ p. cc
fetch-ne-stuck again cap got s (Pktline.Result.stuck) t h k = absurd h
fetch-ne-stuck again cap got s (Pktline.Result.ok []) t h k = λ p. cc
fetch-ne-stuck again cap got s (Pktline.Result.ok (c ∷ chunk)) t h k = k _ _ h

read_loop-ne-stuck :
    (fuel cap : ℕ) (got buf : Bytes) (s : Input)
    → length s.bytes < fuel
    → (read_loop fuel cap got (record { pl = s; buf = buf })).0 ≢ stuck
unfolding read_loop
read_loop-ne-stuck zero cap got buf s h = absurd (omega arith)
read_loop-ne-stuck (suc fuel) cap got (c ∷ buf) s h = λ p. cc
read_loop-ne-stuck (suc fuel) cap got [] s h =
    fetch-ne-stuck (read_loop fuel cap) cap got s (read_packet s).0 (read_packet s).1
      (read_packet-Takes s) λ g r fewer. read_loop-ne-stuck fuel cap g r.buf r.pl (omega arith)

-- `Read` returns on every stream, whatever is buffered and however long its argument is.
pub read-ne-stuck : (cap : ℕ) (r : PktlineReader) → (read cap r).0 ≢ stuck
unfolding read
read-ne-stuck cap r = elim (Bool-cases (ltb 0 (length r.buf))) [
  | inl h ↦ rw h (read_loop-ne-stuck _ cap _ _ r.pl (omega arith))
  | inr h ↦ rw h (read_loop-ne-stuck _ cap _ r.buf r.pl (omega arith))
]
