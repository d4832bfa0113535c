-- ===== src/Git/PktlineWriter.antt =====
-- git/pkt_line_writer.go: an `io.Writer` that cuts what it is given into packets.
-- `NewPktlineWriter` gives its argument back if that is a `PktlineWriter`; here the writer is new.
pub mod Flushing
pub mod Writing
pub mod Held
pub mod Stream
use expert_octo_doodle.Common.{
  ℕ, zero, suc, ◌+◌, ◌-◌, List, [], ◌∷◌, ◌++◌, Option, none, some, ltb, ◌==◌, if◌then◌else◌, Bytes,
  length, take, drop,
}
use expert_octo_doodle.Tools.Math.{min_int}
use expert_octo_doodle.Git.Pktline.{
  Error, Sink, Write, max_packet_length, write_packet, write_flush,
}

pub record PktlineWriter (W : Type 0) : Type 0 where
  pub buf : Bytes
  pub pl : W

-- The count of bytes and the error that a call returns. `stuck`: the model's loop is out of fuel.
pub data Count : Type 0 where
  done : ℕ → Option Error → Count
  stuck : Count

abbrev pub new_pktline_writer : {W : Type 0} → W → PktlineWriter W
new_pktline_writer w = record { buf = []; pl = w }

module _ {W : Type 0} where
  -- The rest of a round of `flush` behind `writePacket`.
  abbrev pub flushed :
      (ℕ → PktlineWriter W → Count × PktlineWriter W)
      → ℕ
      → PktlineWriter W
      → Option Error × W
      → Count × PktlineWriter W
  flushed again n p (some e, w) = (done 0 (some e), record p { pl = w })
  flushed again n p (none, w) =
      let m = min_int (length p.buf) max_packet_length in
      again (n + m) (record { buf = drop m p.buf; pl = w })

  -- The rest of a round of `Write` behind the call of `flush`.
  abbrev pub go_on :
      (Bytes → ℕ → PktlineWriter W → Count × PktlineWriter W)
      → Bytes
      → ℕ
      → Count × PktlineWriter W
      → Count × PktlineWriter W
  go_on again rest n (done _ none, p) = again rest n p
  go_on again rest n (done _ (some e), p) = (done n (some e), p)
  go_on again rest n (stuck, p) = (stuck, p)

  -- The rest of `Flush` behind the call of `flush`.
  abbrev pub and_write_flush : Write W → Count × PktlineWriter W → Option Error × PktlineWriter W
  and_write_flush k (done _ (some e), p) = (some e, p)
  and_write_flush k (_, p) = ((k p.pl).0, record p { pl = (k p.pl).1 })

module _ {W : Type 0} (s : Sink W) where
  unfoldable pub flush_loop : ℕ → ℕ → PktlineWriter W → Count × PktlineWriter W
  unfolding min_int
  flush_loop zero n p = (stuck, p)
  flush_loop (suc fuel) n p = elim p.buf [
    | [] ↦ (done n none, p)
    | c ∷ buf ↦ flushed (flush_loop fuel) n p (write_packet s p.buf p.pl)
  ]

  -- `flush`. Each round takes a byte at least out of the buffer.
  unfoldable pub flush_buffer : PktlineWriter W → Count × PktlineWriter W
  unfolding flush_loop
  flush_buffer p = flush_loop (length p.buf + 1) 0 p

  -- `for len(p[n:]) > 0`, over `p[n:]` and `n`
  unfoldable pub write_loop : ℕ → Bytes → ℕ → PktlineWriter W → Count × PktlineWriter W
  unfolding min_int
  write_loop zero rest n p = (stuck, p)
  write_loop (suc fuel) [] n p = (done n none, p)
  write_loop (suc fuel) (c ∷ rest) n p =
      let m = min_int (length (c ∷ rest)) (max_packet_length - length p.buf) in
      let p' = record p { buf = p.buf ++ take m (c ∷ rest) } in
      let full = go_on (write_loop fuel) (drop m (c ∷ rest)) (n + m) (flush_buffer p') in
      let room = write_loop fuel (drop m (c ∷ rest)) (n + m) p' in
      if length p'.buf == max_packet_length then full else room

  -- `Write`. Each round takes a byte at least, but for one that starts with a full buffer.
  unfoldable pub write : Bytes → PktlineWriter W → Count × PktlineWriter W
  unfolding write_loop
  write bytes p = write_loop (length bytes + 3) bytes 0 p

  -- `Flush`; `flush_buffer` is never stuck.
  unfoldable pub flush : PktlineWriter W → Option Error × PktlineWriter W
  flush p = and_write_flush (write_flush s) (flush_buffer p)
