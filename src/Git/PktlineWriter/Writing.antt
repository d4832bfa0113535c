-- ===== src/Git/PktlineWriter/Writing.antt =====
-- One round of the loop of `Write`, and the contract of `io.Writer` on any sink.
use native.Mathlib.Nat.{add-zero}
use expert_octo_doodle.Common.{
  ℕ, zero, suc, ◌+◌, ◌-◌, ◌≤◌, ◌<◌, ◌≡◌, refl, [], ◌∷◌, ◌++◌, Option, none, some, ltb, ltb→lt, ◌⊎◌,
  Bytes, length, take, drop, arith, drop-eq-nil, take-eq_self, inl, inr, length-append, length-take,
  length-drop, append-nil, Bool-cases,
}
use expert_octo_doodle.Tools.Math.{min_int}
use expert_octo_doodle.Git.Pktline.{Error, Sink, max_packet_length, write_packet}
use expert_octo_doodle.Git.PktlineWriter.{
  PktlineWriter, Count, done, go_on, flush_buffer, write_loop, write,
}
use expert_octo_doodle.Git.PktlineWriter.Flushing.{flush_outcome, flush_buffer_once}

min_int_left : (a b : ℕ) → a ≤ b → min_int a b ≡ a
unfolding min_int
min_int_left a b h = ground arith

min_int_right : (a b : ℕ) → b ≤ a → min_int a b ≡ b
unfolding min_int
min_int_right a b h = ground arith

-- What `io.Writer` asks of a call with `total` bytes: it returns, with a count of at most `total`,
-- and of less only beside an error. The buffer holds no more than a packet behind it.
pub record IsWrite {W : Type 0} (total : ℕ) (out : Count × PktlineWriter W) : Type 0 where
  pub count : ℕ
  pub error : Option Error
  pub out_is : out.0 ≡ done count error
  pub count_le : count ≤ total
  pub short_has_error : (count ≡ total) ⊎ ((e : Error) × (error ≡ some e))
  pub buffer_le : length out.1.buf ≤ max_packet_length

module _ {W : Type 0} (s : Sink W) where
  -- The data that is left fits with room to spare: it is buffered.
  pub write_room :
      (fuel : ℕ) (rest : Bytes) (n : ℕ) (buf : Bytes) (w : W)
      → length buf + length rest < max_packet_length
      → write_loop s (suc (suc fuel)) rest n (record { buf = buf; pl = w })
        ≡ (done (n + length rest) none, record { buf = buf ++ rest; pl = w })
  unfolding write_loop
  write_room fuel [] n buf w h = rw (append-nil, add-zero)
  write_room fuel (c ∷ rest) n buf w h =
      rw (min_int_left (length (c ∷ rest)) (max_packet_length - length buf) (omega arith)) (
        rw
          (
            take-eq_self (length rest) rest (omega arith),
            drop-eq-nil (length rest) rest (omega arith),
          )
          (ground (arith, length-append buf (c ∷ rest))))

  -- The data that is left fills the buffer: the buffer is flushed.
  pub write_full :
      (fuel : ℕ) (rest : Bytes) (n : ℕ) (buf : Bytes) (w : W) (m : ℕ)
      → 0 < length rest
      → length buf + m ≡ max_packet_length
      → m ≤ length rest
      → write_loop s (suc fuel) rest n (record { buf = buf; pl = w })
        ≡ go_on
            (write_loop s fuel)
            (drop m rest)
            (n + m)
            (flush_buffer s (record { buf = buf ++ take m rest; pl = w }))
  unfolding write_loop
  write_full fuel [] n buf w m h full fits = absurd (omega arith)
  write_full fuel (c ∷ rest) n buf w m h full fits =
      rw (min_int_right (length (c ∷ rest)) (max_packet_length - length buf) (omega arith)) (
        rw (let e : max_packet_length - length buf ≡ m = omega arith in e)
          (ground (arith, length-append buf (take m (c ∷ rest)), length-take m (c ∷ rest))))

  IsWrite-done :
      (n : ℕ) (p : PktlineWriter W) → length p.buf ≤ max_packet_length → IsWrite n (done n none, p)
  IsWrite-done n p h = record {
    count = n;
    error = none;
    out_is = refl;
    count_le = omega arith;
    short_has_error = inl refl;
    buffer_le = h;
  }

  -- Behind a flush of a full buffer the loop goes on with an empty one, or ends by the error.
  IsWrite-go_on :
      (again : Bytes → ℕ → PktlineWriter W → Count × PktlineWriter W) (rest : Bytes) (n total : ℕ)
      (buf : Bytes) (w : W) (r : Option Error × W)
      → length buf ≤ max_packet_length
      → n ≤ total
      → ((w' : W) → IsWrite total (again rest n (record { buf = []; pl = w' })))
      → IsWrite total (go_on again rest n (flush_outcome (record { buf = buf; pl = w }) r))
  IsWrite-go_on again rest n total buf w (none, w') small le k = k w'
  IsWrite-go_on again rest n total buf w (some e, w') small le k = record {
    count = n;
    error = some e;
    out_is = refl;
    count_le = le;
    short_has_error = inr (e, refl);
    buffer_le = small;
  }

  full-IsWrite :
      (fuel : ℕ) (rest : Bytes) (n total : ℕ) (buf : Bytes) (w : W) (m : ℕ)
      → 0 < length rest
      → length buf + m ≡ max_packet_length
      → m ≤ length rest
      → n + length rest ≡ total
      → ((w' : W)
          → IsWrite total (write_loop s fuel (drop m rest) (n + m) (record { buf = []; pl = w' })))
      → IsWrite total (write_loop s (suc fuel) rest n (record { buf = buf; pl = w }))
  full-IsWrite fuel rest n total buf w m more full fits whole k =
      let buf' : Bytes = buf ++ take m rest in
      let long : length buf' ≡ max_packet_length =
        omega (arith, length-append buf (take m rest), length-take m rest) in
      rw
        (
          write_full fuel rest n buf w m more full fits,
          flush_buffer_once s (record { buf = buf'; pl = w }) (omega arith) (omega arith),
        )
        (IsWrite-go_on (write_loop s fuel) (drop m rest) (n + m) total buf' w
          (write_packet s buf' w) (omega arith) (omega arith) k)

  write_loop_below :
      (fuel : ℕ) (rest : Bytes) (n total : ℕ) (buf : Bytes) (w : W)
      → length buf < max_packet_length
      → length rest + 1 < fuel
      → n + length rest ≡ total
      → IsWrite total (write_loop s fuel rest n (record { buf = buf; pl = w }))
  write_loop_below zero rest n total buf w small enough whole = absurd (omega arith)
  write_loop_below (suc zero) rest n total buf w small enough whole = absurd (omega arith)
  write_loop_below (suc (suc fuel)) rest n total buf w small enough whole =
      elim (Bool-cases (ltb (length buf + length rest) max_packet_length)) [
        | inl room ↦
            rw (write_room fuel rest n buf w (ground arith), whole)
              (IsWrite-done total _ (omega (arith, length-append buf rest, ltb→lt _ _ room)))
        | inr over ↦
            let m = max_packet_length - length buf in
            let fits : m ≤ length rest = ground arith in
            full-IsWrite (suc fuel) rest n total buf w m (omega arith) (omega arith) fits whole
              λ w'.
                write_loop_below (suc fuel) (drop m rest) (n + m) total [] w' (omega arith)
                  (omega (arith, length-drop m rest)) (omega (arith, length-drop m rest))
      ]

  write_loop_full :
      (fuel : ℕ) (rest : Bytes) (n total : ℕ) (buf : Bytes) (w : W)
      → length buf ≡ max_packet_length
      → length rest + 2 < fuel
      → n + length rest ≡ total
      → IsWrite total (write_loop s fuel rest n (record { buf = buf; pl = w }))
  write_loop_full zero rest n total buf w full enough whole = absurd (omega arith)
  write_loop_full (suc fuel) [] n total buf w full enough whole =
      unfold write_loop in
      let e : n ≡ total = omega arith in rw e (IsWrite-done total _ (omega arith))
  write_loop_full (suc fuel) (c ∷ rest) n total buf w full enough whole =
      full-IsWrite fuel (c ∷ rest) n total buf w 0 (omega arith) (omega arith) (omega arith) whole
        λ w'.
          write_loop_below fuel (c ∷ rest) (n + 0) total [] w' (omega arith) (omega arith)
            (omega arith)

  -- On every sink, whatever it refuses: from a buffer of at most a packet, `Write` keeps the
  -- contract of `io.Writer` and leaves at most a packet in the buffer.
  pub write-IsWrite :
      (bytes : Bytes) (p : PktlineWriter W)
      → length p.buf ≤ max_packet_length
      → IsWrite (length bytes) (write s bytes p)
  unfolding write
  write-IsWrite bytes p small = elim (Bool-cases (ltb (length p.buf) max_packet_length)) [
    | inl below ↦
        write_loop_below _ bytes 0 (length bytes) p.buf p.pl (ltb→lt _ _ below) (omega arith)
          (omega arith)
    | inr full ↦
        write_loop_full _ bytes 0 (length bytes) p.buf p.pl (ground arith) (omega arith)
          (omega arith)
  ]
