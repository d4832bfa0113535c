-- ===== src/Git/Pktline/Written.antt =====
-- What git/pkt_line.go writes: on a writer that accepts everything, exactly the packets, and on any
-- writer its first error.
use expert_octo_doodle.Common.{
  ◌+◌, ◌≤◌, ◌<◌, ◌≡◌, ◌∙◌, List, [], ◌∷◌, ◌++◌, some, none, arith, Bytes, length, length-append,
  append_assoc, append-nil, ap, sym, All,
}
use expert_octo_doodle.Git.Pktline.{
  Sink, Write, ◌>>◌, max_packet_length, too_long, hex4, write_packet, write_flush,
  write_packet_text, write_packet_list,
}
use expert_octo_doodle.Git.Pktline.Packets.{packet, list_packets}

-- A writer that accepts everything and keeps it in order, as `io.Writer` documents of one with no
-- error; `view` is what it has been given.
pub record Reliable {W : Type 0} (s : Sink W) (view : W → Bytes) : Type 0 where
  pub write_ok : (b : Bytes) (w : W) → (s.write b w).0 ≡ none
  pub write_view : (b : Bytes) (w : W) → view (s.write b w).1 ≡ view w ++ b
  pub flush_ok : (w : W) → (s.flush w).0 ≡ none
  pub flush_view : (w : W) → view (s.flush w).1 ≡ view w

-- The action succeeds and appends these bytes.
abbrev pub Writes : {W : Type 0} → (W → Bytes) → Write W → Bytes → Type 0
Writes {W} view m b = (w : W) → ((m w).0 ≡ none) × (view (m w).1 ≡ view w ++ b)

module _ {W : Type 0} (view : W → Bytes) where
  pub Writes-seq :
      (m k : Write W) (a b : Bytes)
      → Writes view m a
      → Writes view k b
      → Writes view (m >> k) (a ++ b)
  Writes-seq m k a b hm hk w =
      let (fine, seen) = hm w in
      rw (fine, ◌>>◌)
        ((hk (m w).1).0, (hk (m w).1).1 ∙ ap (λ v. v ++ b) seen ∙ append_assoc (view w) a b)

module _ {W : Type 0} (s : Sink W) (view : W → Bytes) (sink : Reliable s view) where
  write-Writes : (b : Bytes) → Writes view (s.write b) b
  write-Writes b w = (sink.write_ok b w, sink.write_view b w)

  flush-Writes : Writes view s.flush []
  flush-Writes w = (sink.flush_ok w, sink.flush_view w ∙ sym (append-nil (view w)))

  -- Data that fits is written as one packet.
  pub write_packet-Writes :
      (payload : Bytes)
      → length payload ≤ max_packet_length
      → Writes view (write_packet s payload) (packet payload)
  write_packet-Writes payload fits w =
      unfold write_packet in
      let h =
        Writes-seq view _ _ _ _ (write-Writes (hex4 (length payload + 4))) (write-Writes payload)
          w in
      ground (arith, h)

  pub write_flush-Writes : Writes view (write_flush s) (hex4 0)
  write_flush-Writes w =
      unfold write_flush in
      rw append-nil at (Writes-seq view _ _ _ _ (write-Writes (hex4 0)) flush-Writes w)

  -- On a sink that accepts everything, `writePacketList` on texts of less than 65516 bytes succeeds and
  -- writes the packet of each text with its newline, in order, and a flush packet.
  pub write_packet_list-Writes :
      (list : List Bytes)
      → All (λ t. length t < max_packet_length) list
      → Writes view (write_packet_list s list) (list_packets list)
  unfolding write_packet_list write_packet_text
  write_packet_list-Writes [] h = write_flush-Writes
  write_packet_list-Writes (t ∷ list) (fits, h) =
      Writes-seq view _ _ _ _
        (write_packet-Writes (t ++ b'\n' ∷ []) (omega (arith, length-append t (b'\n' ∷ []))))
        (write_packet_list-Writes list h)

-- Too much data is refused before anything is written.
pub write_packet_too_long :
    {W : Type 0} (s : Sink W) (payload : Bytes) (w : W)
    → max_packet_length < length payload
    → write_packet s payload w ≡ (some too_long, w)
unfolding write_packet
write_packet_too_long s payload w h = ground arith
