-- ===== src/Git/Pktline/RoundTrip.antt =====
-- Reading back lists of text packets, and what a stream that ends early gives.
use expert_octo_doodle.Common.{
  ℕ, zero, suc, ◌+◌, ◌-◌, ◌≤◌, ◌<◌, ◌≡◌, ◌∙◌, refl, List, [], ◌∷◌, ◌++◌, arith, Bytes, length,
  length-append, append_assoc, append-nil, ◌≢◌, All,
}
use expert_octo_doodle.Git.Pktline.{
  Error, ok, eof, Input, Read, max_packet_length, read_limited, read_packet, trim_newline,
  read_packet_text, read_packet_list_loop, read_packet_list, hex4, next_packet,
}
use expert_octo_doodle.Git.Pktline.Packets.{
  text_packet, list_packets, stream_of, read_packet-packet, read_packet-hex4, read_packet_flush,
  trim_newline-append, length-packet,
}

-- A text that a packet can carry and that `readPacketList` does not take for the end of the list.
abbrev pub IsLine : Bytes → Type 0
IsLine t = (t ≢ []) × (length t < max_packet_length)

pub read_packet_text-text_packet :
    (t rest : Bytes) (e : Error)
    → length t < max_packet_length
    → read_packet_text (stream_of (text_packet t ++ rest) e) ≡ (ok t, stream_of rest e)
read_packet_text-text_packet t rest e fits =
    unfold read_packet_text in
    rw
      (read_packet-packet (t ++ b'\n' ∷ []) rest e (omega (arith, length-append t (b'\n' ∷ [])))
        (omega (arith, length-append t (b'\n' ∷ []))))
      (rw (trim_newline-append t))

read_packet_text_flush :
    (rest : Bytes) (e : Error)
    → read_packet_text (stream_of (hex4 0 ++ rest) e) ≡ (ok [], stream_of rest e)
read_packet_text_flush rest e =
    unfold read_packet_text in rw (read_packet_flush rest e) (unfold trim_newline in refl)

next_packet-line :
    (again : List Bytes → Read (List Bytes)) (list : List Bytes) (t : Bytes) (s : Input)
    → t ≢ []
    → next_packet again list t s ≡ again (list ++ t ∷ []) s
next_packet-line again list [] s h = absurd (h refl)
next_packet-line again list (c ∷ t) s h = refl

loop-text_packet :
    (fuel : ℕ) (done : List Bytes) (t rest : Bytes) (e : Error)
    → IsLine t
    → read_packet_list_loop (suc fuel) done (stream_of (text_packet t ++ rest) e)
      ≡ read_packet_list_loop fuel (done ++ t ∷ []) (stream_of rest e)
unfolding read_packet_list_loop
loop-text_packet fuel done t rest e (ne, fits) =
    rw (read_packet_text-text_packet t rest e fits)
      (next_packet-line (read_packet_list_loop fuel) done t (stream_of rest e) ne)

loop-list_packets :
    (list done : List Bytes) (rest : Bytes) (e : Error) (fuel : ℕ)
    → All IsLine list
    → length list < fuel
    → read_packet_list_loop fuel done (stream_of (list_packets list ++ rest) e)
      ≡ (ok (done ++ list), stream_of rest e)
loop-list_packets list done rest e zero lines h = absurd (omega arith)
loop-list_packets [] done rest e (suc fuel) lines h =
    unfold read_packet_list_loop in rw (read_packet_text_flush rest e) (rw append-nil)
loop-list_packets (t ∷ list) done rest e (suc fuel) (line, lines) h =
    rw (append_assoc, loop-text_packet fuel done t (list_packets list ++ rest) e line)
      (loop-list_packets list (done ++ t ∷ []) rest e fuel lines (omega arith) ∙ rw append_assoc)

length-list_packets : (list : List Bytes) → length list < length (list_packets list)
length-list_packets [] = unfold hex4 in omega arith
length-list_packets (t ∷ list) = omega (
  arith,
  length-append (text_packet t) (list_packets list),
  length-packet (t ++ b'\n' ∷ []),
  length-list_packets list,
)

-- The packets of a list of non-empty lines of less than 65516 bytes, with a flush packet behind them,
-- are read back by `readPacketList` as that list, whatever follows, and nothing behind the flush
-- packet is taken.
pub read_packet_list-list_packets :
    (list : List Bytes) (rest : Bytes) (e : Error)
    → All IsLine list
    → read_packet_list (stream_of (list_packets list ++ rest) e) ≡ (ok list, stream_of rest e)
unfolding read_packet_list
read_packet_list-list_packets list rest e lines =
    loop-list_packets list [] rest e _ lines
      (omega (arith, length-append (list_packets list) rest, length-list_packets list))

-- A stream that ends inside the data of a packet, whose header announces `n` bytes of data with `n` at
-- most 65516, gives the data so far and no error.
pub read_packet_cut :
    (n : ℕ) (front : Bytes)
    → length front < n
    → n ≤ max_packet_length
    → read_packet (stream_of (hex4 (n + 4) ++ front) eof) ≡ (ok front, stream_of [] eof)
read_packet_cut n front short fits =
    let back : n + 4 - 4 ≡ n = omega arith in
    read_packet-hex4 (n + 4) front eof (omega arith) ∙ unfold read_limited in ground (arith, back)
