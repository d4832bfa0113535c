-- ===== src/Git/PktlineWriter/Held.antt =====
-- What a `PktlineWriter` holds on a sink that accepts everything: packets that were sent, and the rest.
use expert_octo_doodle.Common.{
  ℕ, zero, suc, ◌+◌, ◌-◌, ◌≤◌, ◌<◌, ◌≡◌, ◌∙◌, refl, sym, ap, List, [], ◌∷◌, ◌++◌, none, ltb, ltb→lt,
  Bytes, length, take, drop, arith, inl, inr, length-append, length-take, length-drop, append-nil,
  append_assoc, take-append-drop, Bool-cases, All, All-append,
}
use expert_octo_doodle.Git.Pktline.{Sink, max_packet_length, write_packet, hex4}
use expert_octo_doodle.Git.Pktline.Packets.{packet}
use expert_octo_doodle.Git.Pktline.Written.{Reliable, write_packet-Writes}
use expert_octo_doodle.Git.PktlineReader.Content.{IsPayload, concat, data_packets}
use expert_octo_doodle.Git.PktlineWriter.{
  PktlineWriter, Count, done, go_on, flush_buffer, write_loop, write,
}
use expert_octo_doodle.Git.PktlineWriter.Flushing.{flush_outcome, flush_buffer_once}
use expert_octo_doodle.Git.PktlineWriter.Writing.{write_room, write_full}

-- The packets of some data, with no flush packet.
abbrev pub packets_of : List Bytes → Bytes
packets_of [] = []
packets_of (b ∷ bs) = packet b ++ packets_of bs

pub packets_of-append :
    (xs bs : List Bytes) → packets_of (xs ++ bs) ≡ packets_of xs ++ packets_of bs
packets_of-append [] bs = refl
packets_of-append (a ∷ xs) bs =
    ap (λ v. packet a ++ v) (packets_of-append xs bs)
    ∙ sym (append_assoc (packet a) (packets_of xs) (packets_of bs))

pub packets_of-concat :
    (xs : List Bytes) (b : Bytes) → packets_of (xs ++ b ∷ []) ≡ packets_of xs ++ packet b
packets_of-concat xs b =
    packets_of-append xs (b ∷ []) ∙ ap (λ v. packets_of xs ++ v) (append-nil (packet b))

pub concat-append : (xs bs : List Bytes) → concat (xs ++ bs) ≡ concat xs ++ concat bs
concat-append [] bs = refl
concat-append (a ∷ xs) bs = rw (concat-append xs bs, append_assoc)

pub data_packets-packets_of : (bs : List Bytes) → data_packets bs ≡ packets_of bs ++ hex4 0
data_packets-packets_of [] = refl
data_packets-packets_of (b ∷ bs) =
    ap (λ v. packet b ++ v) (data_packets-packets_of bs)
    ∙ sym (append_assoc (packet b) (packets_of bs) (hex4 0))

concat-concat :
    (xs : List Bytes) (buf b : Bytes)
    → concat (xs ++ (buf ++ b) ∷ []) ++ [] ≡ (concat xs ++ buf) ++ b
concat-concat xs buf b = simp (concat-append, append-nil, append_assoc)

module _ {W : Type 0} (view : W → Bytes) where
  -- Of `content`, which was given to the writer since the sink showed `before`, the first part is
  -- in packets behind `before`, and the rest is buffered and is less than a packet.
  pub record Holds (before content : Bytes) (p : PktlineWriter W) : Type 0 where
    pub sent : List Bytes
    pub are_payloads : All IsPayload sent
    pub room : length p.buf < max_packet_length
    pub content_is : concat sent ++ p.buf ≡ content
    pub view_is : view p.pl ≡ before ++ packets_of sent

module _ {W : Type 0} (s : Sink W) (view : W → Bytes) (sink : Reliable s view) where
  pub flush_reliable :
      (buf : Bytes) (w : W)
      → 0 < length buf
      → length buf ≤ max_packet_length
      → (w' : W) × (flush_buffer s (record { buf = buf; pl = w })
          ≡ (done (length buf) none, record { buf = []; pl = w' }))
        × (view w' ≡ view w ++ packet buf)
  flush_reliable buf w some_data fits =
      let (fine, seen) = write_packet-Writes s view sink buf fits w in
      (
        (write_packet s buf w).1,
        flush_buffer_once s (record { buf = buf; pl = w }) some_data fits
            ∙ rw (fine, flush_outcome),
        seen,
      )

  -- The loop of `Write` keeps `Holds`, with what it has taken added to the content.
  abbrev pub Result : Bytes → Bytes → Count × PktlineWriter W → ℕ → Type 0
  Result before content out total =
      (p : PktlineWriter W) × (out ≡ (done total none, p)) × Holds view before content p

  Holds-sent :
      (before content rest : Bytes) (buf : Bytes) (w w' : W) (m : ℕ)
      → Holds view before content (record { buf = buf; pl = w })
      → IsPayload (buf ++ take m rest)
      → view w' ≡ view w ++ packet (buf ++ take m rest)
      → Holds view before (content ++ take m rest) (record { buf = []; pl = w' })
  Holds-sent before content rest buf w w' m h payload seen = record {
    sent = h.sent ++ (buf ++ take m rest) ∷ [];
    are_payloads = All-append IsPayload h.sent _ h.are_payloads (payload, tt);
    room = omega arith;
    content_is = concat-concat h.sent buf (take m rest) ∙ ap (λ v. v ++ take m rest) h.content_is;
    view_is =
        seen
        ∙ ap (λ v. v ++ packet (buf ++ take m rest)) h.view_is
        ∙ append_assoc before (packets_of h.sent) (packet (buf ++ take m rest))
        ∙ ap (λ v. before ++ v) (sym (packets_of-concat h.sent (buf ++ take m rest)));
  }

  Holds-buffered :
      (before content rest buf : Bytes) (w : W)
      → Holds view before content (record { buf = buf; pl = w })
      → length buf + length rest < max_packet_length
      → Holds view before (content ++ rest) (record { buf = buf ++ rest; pl = w })
  Holds-buffered before content rest buf w h fits = record {
    sent = h.sent;
    are_payloads = h.are_payloads;
    room = omega (arith, length-append buf rest);
    content_is = sym (append_assoc (concat h.sent) buf rest) ∙ ap (λ v. v ++ rest) h.content_is;
    view_is = h.view_is;
  }

  write_loop-Holds :
      (fuel : ℕ) (before content rest : Bytes) (n total : ℕ) (buf : Bytes) (w : W)
      → Holds view before content (record { buf = buf; pl = w })
      → length rest + 1 < fuel
      → n + length rest ≡ total
      → Result before
          (content ++ rest)
          (write_loop s fuel rest n (record { buf = buf; pl = w }))
          total
  write_loop-Holds zero before content rest n total buf w h enough whole = absurd (omega arith)
  write_loop-Holds (suc zero) before content rest n total buf w h enough whole =
      absurd (omega arith)
  write_loop-Holds (suc (suc fuel)) before content rest n total buf w h enough whole =
      elim (Bool-cases (ltb (length buf + length rest) max_packet_length)) [
        | inl room ↦ (
          record { buf = buf ++ rest; pl = w },
          rw (← whole) (write_room s fuel rest n buf w (ltb→lt _ _ room)),
          Holds-buffered before content rest buf w h (ltb→lt _ _ room),
        )
        | inr over ↦
            let m = max_packet_length - length buf in
            let r = h.room in
            let fits : m ≤ length rest = ground arith in
            let long : length (buf ++ take m rest) ≡ max_packet_length =
              omega (arith, length-append buf (take m rest), length-take m rest) in
            let (w', flushed_once, seen) =
              flush_reliable (buf ++ take m rest) w (omega arith) (omega arith) in
            let h' = Holds-sent before content rest buf w w' m h (omega arith, omega arith) seen in
            let (p, ends, holds) =
              write_loop-Holds (suc fuel) before (content ++ take m rest) (drop m rest) (n + m)
                total [] w' h' (omega (arith, length-drop m rest))
                (omega (arith, length-drop m rest)) in
            (
              p,
              write_full s (suc fuel) rest n buf w m (omega arith) (omega arith) fits
                  ∙ rw (flushed_once, go_on) ends,
              rw (append_assoc, take-append-drop) at holds,
            )
      ]

  -- On a sink that accepts everything, `Write` takes all of its argument and gives no error.
  pub write-Holds :
      (before content bytes : Bytes) (p : PktlineWriter W)
      → Holds view before content p
      → Result before (content ++ bytes) (write s bytes p) (length bytes)
  unfolding write
  write-Holds before content bytes p h =
      write_loop-Holds _ before content bytes 0 (length bytes) p.buf p.pl h (omega arith)
        (omega arith)
