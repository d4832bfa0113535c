-- ===== src/Git/PktlineReader/Reads.antt =====
-- One call of `Read`, whatever is buffered and however long its argument is.
use expert_octo_doodle.Common.{
  ℕ, ◌+◌, ◌≤◌, ◌<◌, ◌≡◌, ◌∙◌, sym, refl, ap, List, [], ◌∷◌, ◌++◌, some, ltb, lt→ltb, Bytes, length,
  take, drop, arith, inl, inr, Bool-cases, All, append_assoc, length-append, length-take,
  length-drop, take-append-drop, take-eq_self, drop-eq-nil,
}
use native.Mathlib.Numerals.{add-one}
use expert_octo_doodle.Tools.Math.{min_int}
use expert_octo_doodle.Git.Pktline.{Error, eof, hex4}
use expert_octo_doodle.Git.Pktline.Packets.{packet, stream_of, length-packet}
use expert_octo_doodle.Git.PktlineReader.{done, read_loop, read}
use expert_octo_doodle.Git.PktlineReader.Content.{
  IsPayload, data_packets, concat, reader_at, Fills, loop_rest, loop_some, loop_buffered,
  min_int_left, min_int_right,
}

length-data_packets : (bs : List Bytes) → length bs < length (data_packets bs)
length-data_packets [] = unfold hex4 in omega arith
length-data_packets (b ∷ bs) =
    omega
      (arith, length-append (packet b) (data_packets bs), length-packet b, length-data_packets bs)

module _ (bs : List Bytes) (rest : Bytes) (e : Error) where
  abbrev fuel : ℕ
  fuel = length (data_packets bs ++ rest) + 1

  enough_fuel : length bs < fuel
  enough_fuel = omega (arith, length-append (data_packets bs) rest, length-data_packets bs)

  read-nil :
      (cap : ℕ) → read cap (reader_at [] bs rest e) ≡ read_loop fuel cap [] (reader_at [] bs rest e)
  unfolding read
  read-nil cap = refl

  read-buffered :
      (cap n : ℕ) (buf : Bytes)
      → 0 < length buf
      → min_int cap (length buf) ≡ n
      → read cap (reader_at buf bs rest e)
        ≡ read_loop fuel cap (take n buf) (reader_at (drop n buf) bs rest e)
  unfolding read
  read-buffered cap n buf h m = rw (m, lt→ltb 0 (length buf) h)

  read_whole_buffer :
      (cap : ℕ) (buf : Bytes)
      → length buf ≤ cap
      → read cap (reader_at buf bs rest e) ≡ read_loop fuel cap buf (reader_at [] bs rest e)
  read_whole_buffer cap [] h = read-nil cap
  read_whole_buffer cap (c ∷ buf) h =
      read-buffered cap (length (c ∷ buf)) (c ∷ buf) (omega arith) (min_int_right _ _ h)
      ∙ rw (take-eq_self (length buf) buf (omega arith), drop-eq-nil (length buf) buf (omega arith))

  -- In front of packets of 1 to 65516 bytes and a flush packet: where the argument has room for what
  -- is buffered and all data of the packets, `Read` gives both with `io.EOF`, and then stands behind
  -- the flush packet with an empty buffer.
  pub read_whole_content :
      (cap : ℕ) (buf : Bytes)
      → All IsPayload bs
      → length (buf ++ concat bs) ≤ cap
      → read cap (reader_at buf bs rest e)
        ≡ (done (buf ++ concat bs) (some eof), record { pl = stream_of rest e; buf = [] })
  read_whole_content cap buf h fits =
      read_whole_buffer cap buf (omega (arith, length-append buf (concat bs)))
      ∙ loop_rest bs fuel cap buf rest e h enough_fuel
          (omega (arith, length-append buf (concat bs)))

  read_inside_buffer :
      (cap : ℕ) (buf : Bytes)
      → All IsPayload bs
      → cap < length buf
      → Fills cap (buf ++ concat bs) rest e (read cap (reader_at buf bs rest e))
  read_inside_buffer cap buf h cut = record {
    got = take cap buf;
    buf = drop cap buf;
    payloads = bs;
    out_is =
        read-buffered cap cap buf (omega arith) (min_int_left _ _ (omega arith))
        ∙ rw add-one (
            loop_buffered _ cap (take cap buf) (drop cap buf) bs rest e
              (omega (arith, length-drop cap buf)));
    got_length = omega (arith, length-take cap buf);
    content =
        sym (append_assoc (take cap buf) (drop cap buf) (concat bs))
        ∙ ap (λ v. v ++ concat bs) (take-append-drop cap buf);
    are_payloads = h;
  }

  -- In front of packets of 1 to 65516 bytes and a flush packet: where the argument has no room for
  -- what is buffered and all data of the packets, `Read` fills it with the first bytes of that data
  -- and no error, and what is left, buffered or in packets, is the rest of the data.
  pub read_some_content :
      (cap : ℕ) (buf : Bytes)
      → All IsPayload bs
      → cap < length (buf ++ concat bs)
      → Fills cap (buf ++ concat bs) rest e (read cap (reader_at buf bs rest e))
  read_some_content cap buf h cut = elim (Bool-cases (ltb cap (length buf))) [
    | inl inside ↦ read_inside_buffer cap buf h (ground arith)
    | inr beyond ↦ rw (read_whole_buffer cap buf (ground arith)) (
        loop_some bs fuel cap buf rest e h enough_fuel (ground arith)
          (omega (arith, length-append buf (concat bs))))
  ]
