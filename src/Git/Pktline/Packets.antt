-- ===== src/Git/Pktline/Packets.antt =====
-- The bytes that git/pkt_line.go puts on the wire, and that reading them gives the data back.
use expert_octo_doodle.Common.{
  ℕ, ◌+◌, ◌-◌, ◌≤◌, ◌<◌, ◌≡◌, ◌∙◌, refl, List, [], ◌∷◌, ◌++◌, arith, Bytes, length, length-append,
  append_assoc, take-append_self, drop-append_self, pos,
}
use expert_octo_doodle.Git.Pktline.{
  Error, ok, Input, max_packet_length, read_full, read_limited, read_payload, read_packet,
  trim_newline, hex4,
}
use expert_octo_doodle.Git.Pktline.Header.{parse_int-hex4}

-- A packet, the packet of a line of text, and a list of such lines with the flush packet behind it.
abbrev pub packet : Bytes → Bytes
packet payload = hex4 (length payload + 4) ++ payload

abbrev pub text_packet : Bytes → Bytes
text_packet text = packet (text ++ b'\n' ∷ [])

abbrev pub list_packets : List Bytes → Bytes
list_packets [] = hex4 0
list_packets (t ∷ list) = text_packet t ++ list_packets list

-- A stream of some bytes, and the error that it ends with.
abbrev pub stream_of : Bytes → Error → Input
stream_of bytes e = record { bytes = bytes; ending = e }

read_full-hex4 :
    (n : ℕ) (rest : Bytes) (e : Error)
    → read_full (stream_of (hex4 n ++ rest) e) ≡ (ok (hex4 n), stream_of rest e)
unfolding read_full hex4
read_full-hex4 n rest e = refl

pub read_packet-hex4 :
    (n : ℕ) (rest : Bytes) (e : Error)
    → n < 65536
    → read_packet (stream_of (hex4 n ++ rest) e) ≡ read_payload (pos n) (stream_of rest e)
read_packet-hex4 n rest e h =
    unfold read_packet in rw (read_full-hex4 n rest e) (rw (parse_int-hex4 n h))

read_limited_all :
    (payload rest : Bytes) (e : Error)
    → read_limited (length payload) (stream_of (payload ++ rest) e) ≡ (ok payload, stream_of rest e)
unfolding read_limited
read_limited_all payload rest e = ground (
  arith,
  length-append payload rest,
  take-append_self payload rest,
  drop-append_self payload rest,
)

read_payload-length :
    (payload rest : Bytes) (e : Error)
    → 0 < length payload
    → read_payload (pos (length payload + 4)) (stream_of (payload ++ rest) e)
      ≡ (ok payload, stream_of rest e)
read_payload-length payload rest e some_data =
    let back : length payload + 4 - 4 ≡ length payload = omega arith in
    ground (arith, back, read_limited_all payload rest e)

-- A packet with data is read back, whatever follows it.
pub read_packet-packet :
    (payload rest : Bytes) (e : Error)
    → 0 < length payload
    → length payload ≤ max_packet_length
    → read_packet (stream_of (packet payload ++ rest) e) ≡ (ok payload, stream_of rest e)
read_packet-packet payload rest e some_data fits = rw append_assoc (
    read_packet-hex4 (length payload + 4) (payload ++ rest) e (omega arith)
    ∙ read_payload-length payload rest e some_data)

pub read_packet_flush :
    (rest : Bytes) (e : Error)
    → read_packet (stream_of (hex4 0 ++ rest) e) ≡ (ok [], stream_of rest e)
read_packet_flush rest e = read_packet-hex4 0 rest e (omega arith)

pub trim_newline-append : (t : Bytes) → trim_newline (t ++ b'\n' ∷ []) ≡ t
unfolding trim_newline
trim_newline-append [] = refl
trim_newline-append (c ∷ []) = refl
trim_newline-append (c ∷ d ∷ t) = rw (trim_newline-append (d ∷ t))

length-hex4 : (n : ℕ) → length (hex4 n) ≡ 4
unfolding hex4
length-hex4 n = refl

pub length-packet : (b : Bytes) → length (packet b) ≡ length b + 4
length-packet b = omega (arith, length-append (hex4 (length b + 4)) b, length-hex4 (length b + 4))
