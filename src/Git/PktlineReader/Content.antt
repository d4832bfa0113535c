-- ===== src/Git/PktlineReader/Content.antt =====
-- `Read` hands out the data of the packets in order, and the end of the stream at the flush packet.
use expert_octo_doodle.Common.{
  ℕ, zero, suc, ◌+◌, ◌-◌, ◌≤◌, ◌<◌, ◌≡◌, ◌∙◌, sym, refl, ap, List, [], ◌∷◌, ◌++◌, none, some, ltb,
  Bytes, length, take, drop, arith, inl, inr, Bool-cases, All, append-nil, append_assoc,
  length-append, length-take, length-drop, take-append-drop, take-eq_self, drop-eq-nil,
}
use expert_octo_doodle.Tools.Math.{min_int}
use expert_octo_doodle.Git.Pktline.{Error, eof, ok, Input, hex4, max_packet_length}
use expert_octo_doodle.Git.Pktline.Packets.{
  packet, stream_of, read_packet-packet, read_packet_flush,
}
use expert_octo_doodle.Git.PktlineReader.{PktlineReader, Progress, done, fetch, read_loop}

-- The data of a packet that is no flush packet.
abbrev pub IsPayload : Bytes → Type 0
IsPayload b = (0 < length b) × (length b ≤ max_packet_length)

abbrev pub data_packets : List Bytes → Bytes
data_packets [] = hex4 0
data_packets (b ∷ bs) = packet b ++ data_packets bs

abbrev pub concat : List Bytes → Bytes
concat [] = []
concat (b ∷ bs) = b ++ concat bs

-- A reader with `buf` buffered, in front of packets, a flush packet, and whatever follows.
abbrev pub reader_at : Bytes → List Bytes → Bytes → Error → PktlineReader
reader_at buf bs rest e = record { pl = stream_of (data_packets bs ++ rest) e; buf = buf }

-- A read that filled its argument: `total` is what it gave and what is left behind it.
pub record Fills (cap : ℕ) (total rest : Bytes) (e : Error) (out : Progress × PktlineReader)
    : Type 0 where
  pub got : Bytes
  pub buf : Bytes
  pub payloads : List Bytes
  pub out_is : out ≡ (done got none, reader_at buf payloads rest e)
  pub got_length : length got ≡ cap
  pub content : got ++ (buf ++ concat payloads) ≡ total
  pub are_payloads : All IsPayload payloads

pub min_int_left : (a b : ℕ) → a ≤ b → min_int a b ≡ a
unfolding min_int
min_int_left a b h = ground arith

pub min_int_right : (a b : ℕ) → b ≤ a → min_int a b ≡ b
unfolding min_int
min_int_right a b h = ground arith

fetch-payload :
    (again : Bytes → PktlineReader → Progress × PktlineReader) (cap : ℕ) (got b : Bytes) (t : Input)
    (k : ℕ)
    → 0 < length b
    → min_int (length b) (cap - length got) ≡ k
    → fetch again cap got (ok b, t) ≡ again (got ++ take k b) (record { pl = t; buf = drop k b })
fetch-payload again cap got [] t k h e = absurd (omega arith)
fetch-payload again cap got (c ∷ b) t k h e = rw e

loop_packet :
    (fuel cap : ℕ) (got b : Bytes) (bs : List Bytes) (rest : Bytes) (e : Error) (k : ℕ)
    → IsPayload b
    → min_int (length b) (cap - length got) ≡ k
    → read_loop (suc fuel) cap got (reader_at [] (b ∷ bs) rest e)
      ≡ read_loop fuel cap (got ++ take k b) (reader_at (drop k b) bs rest e)
unfolding read_loop
loop_packet fuel cap got b bs rest e k (some_data, small) is_min =
    rw (append_assoc, read_packet-packet b (data_packets bs ++ rest) e some_data small)
      (fetch-payload (read_loop fuel cap) cap got b (stream_of (data_packets bs ++ rest) e) k
        some_data is_min)

loop_whole :
    (fuel cap : ℕ) (got b : Bytes) (bs : List Bytes) (rest : Bytes) (e : Error)
    → IsPayload b
    → length b ≤ cap - length got
    → read_loop (suc fuel) cap got (reader_at [] (b ∷ bs) rest e)
      ≡ read_loop fuel cap (got ++ b) (reader_at [] bs rest e)
loop_whole fuel cap got b bs rest e payload fits =
    loop_packet fuel cap got b bs rest e (length b) payload (min_int_left _ _ fits)
    ∙ rw (take-eq_self (length b) b (omega arith), drop-eq-nil (length b) b (omega arith))

pub loop_buffered :
    (fuel cap : ℕ) (got buf : Bytes) (bs : List Bytes) (rest : Bytes) (e : Error)
    → 0 < length buf
    → read_loop (suc fuel) cap got (reader_at buf bs rest e)
      ≡ (done got none, reader_at buf bs rest e)
unfolding read_loop
loop_buffered fuel cap got [] bs rest e h = absurd (omega arith)
loop_buffered fuel cap got (c ∷ buf) bs rest e h = refl

-- What the loop still has to hand out fits into the argument: all of it, and the end.
pub loop_rest :
    (bs : List Bytes) (fuel cap : ℕ) (got rest : Bytes) (e : Error)
    → All IsPayload bs
    → length bs < fuel
    → length got + length (concat bs) ≤ cap
    → read_loop fuel cap got (reader_at [] bs rest e)
      ≡ (done (got ++ concat bs) (some eof), record { pl = stream_of rest e; buf = [] })
loop_rest bs zero cap got rest e h f fits = absurd (omega arith)
loop_rest [] (suc fuel) cap got rest e h f fits =
    unfold read_loop in rw (read_packet_flush rest e) (rw append-nil)
loop_rest (b ∷ bs) (suc fuel) cap got rest e (payload, h) f fits =
    loop_whole fuel cap got b bs rest e payload (omega (arith, length-append b (concat bs)))
    ∙ loop_rest bs fuel cap (got ++ b) rest e h (omega arith)
        (omega (arith, length-append b (concat bs), length-append got b))
    ∙ rw append_assoc

-- The argument is filled inside a packet.
loop_cut :
    (fuel cap : ℕ) (got b : Bytes) (bs : List Bytes) (rest : Bytes) (e : Error)
    → IsPayload b
    → All IsPayload bs
    → length got ≤ cap
    → cap - length got < length b
    → 0 < fuel
    → Fills cap
        (got ++ (b ++ concat bs))
        rest
        e
        (read_loop (suc fuel) cap got (reader_at [] (b ∷ bs) rest e))
loop_cut zero cap got b bs rest e payload h le cut f = absurd (omega arith)
loop_cut (suc fuel) cap got b bs rest e payload h le cut f =
    let k = cap - length got in
    record {
      got = got ++ take k b;
      buf = drop k b;
      payloads = bs;
      out_is =
          loop_packet (suc fuel) cap got b bs rest e k payload (min_int_right _ _ (omega arith))
          ∙ loop_buffered fuel cap (got ++ take k b) (drop k b) bs rest e
              (omega (arith, length-drop k b));
      got_length = omega (arith, length-append got (take k b), length-take k b);
      content =
          append_assoc got (take k b) _
          ∙ ap (λ v. got ++ v)
              (sym (append_assoc (take k b) (drop k b) (concat bs))
                ∙ ap (λ v. v ++ concat bs) (take-append-drop k b));
      are_payloads = h;
    }

-- What it has to hand out does not fit: the argument is filled.
pub loop_some :
    (bs : List Bytes) (fuel cap : ℕ) (got rest : Bytes) (e : Error)
    → All IsPayload bs
    → length bs < fuel
    → length got ≤ cap
    → cap < length got + length (concat bs)
    → Fills cap (got ++ concat bs) rest e (read_loop fuel cap got (reader_at [] bs rest e))
loop_some bs zero cap got rest e h f le lt = absurd (omega arith)
loop_some [] (suc fuel) cap got rest e h f le lt = absurd (omega arith)
loop_some (b ∷ bs) (suc fuel) cap got rest e (payload, h) f le lt =
    elim (Bool-cases (ltb (cap - length got) (length b))) [
      | inl cut ↦ loop_cut fuel cap got b bs rest e payload h le (ground arith) (omega arith)
      | inr whole ↦
          rw (loop_whole fuel cap got b bs rest e payload (ground arith), ← append_assoc)
            (loop_some bs fuel cap (got ++ b) rest e h (omega arith)
              (ground (arith, length-append got b))
              (omega (arith, length-append b (concat bs), length-append got b)))
    ]
