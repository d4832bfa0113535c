-- ===== src/Git/PktlineWriter/Flushing.antt =====
-- `flush` writes what is buffered as one packet, since the buffer never holds more than that.
use expert_octo_doodle.Common.{
  ℕ, suc, ◌≤◌, ◌<◌, ◌≡◌, ◌≢◌, ◌∙◌, refl, [], ◌∷◌, Option, none, some, Bytes, length, arith,
  drop-eq-nil,
}
use native.Mathlib.Nat.{zero-add}
use native.Mathlib.Numerals.{add-one}
use expert_octo_doodle.Tools.Math.{min_int}
use expert_octo_doodle.Git.Pktline.{Error, Sink, max_packet_length, write_packet}
use expert_octo_doodle.Git.PktlineWriter.{
  PktlineWriter, Count, done, stuck, flushed, flush_loop, flush_buffer,
}

module _ {W : Type 0} where
  -- What `flush` returns once `writePacket` has.
  abbrev pub flush_outcome : PktlineWriter W → Option Error × W → Count × PktlineWriter W
  flush_outcome p (some e, w) = (done 0 (some e), record p { pl = w })
  flush_outcome p (none, w) = (done (length p.buf) none, record { buf = []; pl = w })

module _ {W : Type 0} (s : Sink W) where
  flush_loop-nil :
      (fuel n : ℕ) (w : W)
      → flush_loop s (suc fuel) n (record { buf = []; pl = w })
        ≡ (done n none, record { buf = []; pl = w })
  unfolding flush_loop
  flush_loop-nil fuel n w = refl

  flushed-outcome :
      (fuel : ℕ) (p : PktlineWriter W) (r : Option Error × W)
      → length p.buf ≤ max_packet_length
      → flushed (flush_loop s (suc fuel)) 0 p r ≡ flush_outcome p r
  flushed-outcome fuel p (some e, w) h = refl
  flushed-outcome fuel p (none, w) h =
      let all : min_int (length p.buf) max_packet_length ≡ length p.buf =
        unfold min_int in ground arith in
      rw (all, drop-eq-nil (length p.buf) p.buf (omega arith))
        (flush_loop-nil fuel _ w ∙ rw zero-add)

  flush_cons :
      (buf : Bytes) (w : W)
      → 0 < length buf
      → length buf ≤ max_packet_length
      → flush_buffer s (record { buf = buf; pl = w })
        ≡ flush_outcome (record { buf = buf; pl = w }) (write_packet s buf w)
  unfolding flush_buffer flush_loop
  flush_cons [] w h fits = absurd (omega arith)
  flush_cons (c ∷ buf) w h fits = rw add-one (
      flushed-outcome (length buf) (record { buf = c ∷ buf; pl = w }) (write_packet s (c ∷ buf) w)
        fits)

  -- On any sink, a buffer of 1 to 65516 bytes is written by one call of `writePacket`: on success the
  -- buffer is then empty and its former length is returned, and on an error it is kept and 0 is
  -- returned with the error.
  pub flush_buffer_once :
      (p : PktlineWriter W)
      → 0 < length p.buf
      → length p.buf ≤ max_packet_length
      → flush_buffer s p ≡ flush_outcome p (write_packet s p.buf p.pl)
  flush_buffer_once p = flush_cons p.buf p.pl

  pub flush_buffer-nil :
      (w : W)
      → flush_buffer s (record { buf = []; pl = w }) ≡ (done 0 none, record { buf = []; pl = w })
  unfolding flush_buffer
  flush_buffer-nil w = refl

  -- `flush` leaves no more in the buffer than it found, and it ends.
  outcome-shrinks :
      (p : PktlineWriter W) (r : Option Error × W)
      → ((flush_outcome p r).0 ≢ stuck) × (length (flush_outcome p r).1.buf ≤ length p.buf)
  outcome-shrinks p (some e, w) = (λ x. cc, omega arith)
  outcome-shrinks p (none, w) = (λ x. cc, omega arith)

  pub flush_buffer-shrinks :
      (buf : Bytes) (w : W)
      → length buf ≤ max_packet_length
      → ((flush_buffer s (record { buf = buf; pl = w })).0 ≢ stuck)
        × (length (flush_buffer s (record { buf = buf; pl = w })).1.buf ≤ length buf)
  flush_buffer-shrinks [] w h = rw (flush_buffer-nil w) (λ x. cc, omega arith)
  flush_buffer-shrinks (c ∷ buf) w h =
      rw (flush_cons (c ∷ buf) w (omega arith) h)
        (outcome-shrinks (record { buf = c ∷ buf; pl = w }) (write_packet s (c ∷ buf) w))
