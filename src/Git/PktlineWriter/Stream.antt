-- ===== src/Git/PktlineWriter/Stream.antt =====
-- A whole stream through `PktlineWriter`: some calls of `Write`, one of `Flush`, and the reader.
use expert_octo_doodle.Common.{
  ℕ, ◌≤◌, ◌≡◌, ◌∙◌, refl, sym, ap, List, [], ◌∷◌, ◌++◌, Option, none, some, Bytes, length, arith,
  append-nil, append_assoc, All, All-append,
}
use expert_octo_doodle.Git.Pktline.{Error, eof, Sink, hex4}
use expert_octo_doodle.Git.Pktline.Packets.{packet, stream_of}
use expert_octo_doodle.Git.Pktline.Written.{Reliable, write_flush-Writes}
use expert_octo_doodle.Git.PktlineReader.Content.{IsPayload, concat, data_packets}
use expert_octo_doodle.Git.PktlineReader.Reads.{read_whole_content}
use expert_octo_doodle.Git.PktlineReader
use expert_octo_doodle.Git.PktlineWriter.{
  PktlineWriter, done, flush_buffer, write, flush, new_pktline_writer,
}
use expert_octo_doodle.Git.PktlineWriter.Flushing.{flush_buffer-nil}
use expert_octo_doodle.Git.PktlineWriter.Held.{
  packets_of, packets_of-concat, concat-append, data_packets-packets_of, Holds, flush_reliable,
  write-Holds,
}

-- Calls of `Write` in a row.
abbrev pub write_all : {W : Type 0} → Sink W → List Bytes → PktlineWriter W → PktlineWriter W
write_all s [] p = p
write_all s (b ∷ calls) p = write_all s calls (write s b p).1

-- What `Flush` leaves: an empty buffer, and all of `content` in packets with a flush packet behind.
pub record Flushed {W : Type 0} (view : W → Bytes) (before content : Bytes)
    (out : Option Error × PktlineWriter W) : Type 0 where
  pub sent : List Bytes
  pub no_error : out.0 ≡ none
  pub buffer_empty : out.1.buf ≡ []
  pub are_payloads : All IsPayload sent
  pub content_is : concat sent ≡ content
  pub view_is : view out.1.pl ≡ before ++ data_packets sent

module _ {W : Type 0} (s : Sink W) (view : W → Bytes) (sink : Reliable s view) where
  flush-done :
      (before content : Bytes) (bs : List Bytes) (p : PktlineWriter W) (n : ℕ) (w : W)
      → flush_buffer s p ≡ (done n none, record { buf = []; pl = w })
      → All IsPayload bs
      → concat bs ≡ content
      → view w ≡ before ++ packets_of bs
      → Flushed view before content (flush s p)
  unfolding flush
  flush-done before content bs p n w e payloads c v =
      let (fine, seen) = write_flush-Writes s view sink w in
      rw e (record {
        sent = bs;
        no_error = fine;
        buffer_empty = refl;
        are_payloads = payloads;
        content_is = c;
        view_is =
            seen
            ∙ ap (λ x. x ++ hex4 0) v
            ∙ append_assoc before (packets_of bs) (hex4 0)
            ∙ ap (λ x. before ++ x) (sym (data_packets-packets_of bs));
      })

  flush_parts-Flushed :
      (before content buf : Bytes) (w : W)
      → Holds view before content (record { buf = buf; pl = w })
      → Flushed view before content (flush s (record { buf = buf; pl = w }))
  flush_parts-Flushed before content [] w h =
      flush-done before content h.sent (record { buf = []; pl = w }) 0 w (flush_buffer-nil s w)
        h.are_payloads (sym (append-nil (concat h.sent)) ∙ h.content_is) h.view_is
  flush_parts-Flushed before content (c ∷ buf) w h =
      let r = h.room in
      let (w', flushed_once, seen) =
        flush_reliable s view sink (c ∷ buf) w (omega arith) (omega arith) in
      flush-done before content (h.sent ++ (c ∷ buf) ∷ []) (record { buf = c ∷ buf; pl = w })
        (length (c ∷ buf)) w' flushed_once
        (All-append IsPayload h.sent _ h.are_payloads ((omega arith, omega arith), tt))
        (concat-append h.sent ((c ∷ buf) ∷ [])
          ∙ ap (λ x. concat h.sent ++ x) (append-nil (c ∷ buf))
          ∙ h.content_is)
        (seen
          ∙ ap (λ x. x ++ packet (c ∷ buf)) h.view_is
          ∙ append_assoc before (packets_of h.sent) (packet (c ∷ buf))
          ∙ ap (λ x. before ++ x) (sym (packets_of-concat h.sent (c ∷ buf))))

  pub flush-Flushed :
      (before content : Bytes) (p : PktlineWriter W)
      → Holds view before content p
      → Flushed view before content (flush s p)
  flush-Flushed before content p h = flush_parts-Flushed before content p.buf p.pl h

  write_all-Holds :
      (calls : List Bytes) (before content : Bytes) (p : PktlineWriter W)
      → Holds view before content p
      → Holds view before (content ++ concat calls) (write_all s calls p)
  write_all-Holds [] before content p h = rw append-nil h
  write_all-Holds (b ∷ calls) before content p h =
      let (p', e, h') = write-Holds s view sink before content b p h in
      let taken : Holds view before (content ++ b) (write s b p).1 = rw e h' in
      rw (← append_assoc) (write_all-Holds calls before (content ++ b) (write s b p).1 taken)

  new-Holds : (w : W) → Holds view (view w) [] (new_pktline_writer w)
  new-Holds w = record {
    sent = [];
    are_payloads = tt;
    room = omega arith;
    content_is = refl;
    view_is = sym (append-nil (view w));
  }

  -- On a sink that accepts everything, after any calls of `Write` on a new writer and one of `Flush`:
  -- there is no error, the buffer is empty, and the sink has been given packets of 1 to 65516 bytes
  -- that hold the concatenation of the calls' data, with a flush packet behind them.
  pub write_all-flush :
      (calls : List Bytes) (w : W)
      → Flushed view (view w) (concat calls) (flush s (write_all s calls (new_pktline_writer w)))
  write_all-flush calls w =
      flush-Flushed (view w) (concat calls) _
        (write_all-Holds calls (view w) [] (new_pktline_writer w) (new-Holds w))

  -- What a sink that accepts everything has been given by any calls of `Write` on a new writer and
  -- one of `Flush` is read back by one `Read` with room for all of it: it gives the concatenation of
  -- the calls' data with `io.EOF`, and the reader then stands behind the flush packet.
  pub read-write_all :
      (calls : List Bytes) (w : W) (cap : ℕ) (rest : Bytes) (e : Error)
      → length (concat calls) ≤ cap
      → (wire : Bytes) × (view (flush s (write_all s calls (new_pktline_writer w))).1.pl
          ≡ view w ++ wire)
        × (PktlineReader.read cap (record { pl = stream_of (wire ++ rest) e; buf = [] }) ≡ (
          PktlineReader.Progress.done (concat calls) (some eof),
          record { pl = stream_of rest e; buf = [] },
        ))
  read-write_all calls w cap rest e fits =
      let f = write_all-flush calls w in
      (
        data_packets f.sent,
        f.view_is,
        rw f.content_is at
            (read_whole_content f.sent rest e cap [] f.are_payloads (rw f.content_is fits)),
      )
