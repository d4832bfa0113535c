-- ===== src/Tests/Wire.antt =====
-- Packets, the reader and the writer, on small inputs.
use expert_octo_doodle.Common.{
  ◌≡◌, refl, arith, List, [], ◌∷◌, ◌++◌, none, some, Bytes, codes, parse_int, parse_uint, digits,
  digit, All,
}
use expert_octo_doodle.Git.Pktline
use expert_octo_doodle.Git.Pktline.{
  Error, eof, Sink, too_long, hex4, read_packet, read_packet_list, write_packet, write_packet_list,
  write_packet_text, write_flush, read_packet_list_loop, read_packet_text, trim_newline,
}
use expert_octo_doodle.Git.Pktline.Packets.{list_packets, stream_of}
use expert_octo_doodle.Git.Pktline.RoundTrip.{IsLine, read_packet_list-list_packets}
use expert_octo_doodle.Git.Pktline.Written.{Reliable}
use expert_octo_doodle.Git.PktlineReader
use expert_octo_doodle.Git.PktlineReader.Content.{IsPayload, concat}
use expert_octo_doodle.Git.PktlineWriter.{flush, write, new_pktline_writer}
use expert_octo_doodle.Git.PktlineWriter.Stream.{
  Flushed, write_all, write_all-flush, read-write_all,
}
use expert_octo_doodle.Git.PktlineWriter.Writing.{IsWrite, write-IsWrite}

-- A sink that keeps what it is given, and one that refuses everything.
abbrev pub log_sink : Sink Bytes
log_sink = record { write = λ b w. (none, w ++ b); flush = λ w. (none, w) }

abbrev broken_sink : Sink Bytes
broken_sink = record { write = λ b w. (some (Pktline.Error.stream 5), w); flush = λ w. (none, w) }

abbrev pub all_of : Bytes → Bytes
all_of w = w

pub log_sink-Reliable : Reliable log_sink all_of
log_sink-Reliable = record {
  write_ok = λ b w. refl;
  write_view = λ b w. refl;
  flush_ok = λ w. refl;
  flush_view = λ w. refl;
}

abbrev two_texts : List Bytes
two_texts = codes "abc" ∷ codes "de" ∷ []

two_lines : All IsLine two_texts
two_lines = ((λ p. cc, omega arith), ((λ p. cc, omega arith), tt))

two_payloads : All IsPayload two_texts
two_payloads = ((omega arith, omega arith), ((omega arith, omega arith), tt))

abbrev wire : Bytes
wire = codes "0008abc\n0007de\n0000"

write_two : (write_packet_list log_sink two_texts []).1 ≡ wire
unfolding write_packet_list write_packet_text write_packet write_flush hex4
write_two = refl

read_two :
    read_packet_list (stream_of (wire ++ codes "rest") eof)
    ≡ (Pktline.Result.ok two_texts, stream_of (codes "rest") eof)
unfolding read_packet_list read_packet_list_loop read_packet_text read_packet parse_int parse_uint
    digits digit trim_newline
read_two = refl

read_packet_list-list_packets_example :
    read_packet_list (stream_of (list_packets two_texts ++ codes "rest") eof)
    ≡ (Pktline.Result.ok two_texts, stream_of (codes "rest") eof)
read_packet_list-list_packets_example =
    read_packet_list-list_packets two_texts (codes "rest") eof two_lines

write-IsWrite_example :
    IsWrite 3 (write broken_sink (codes "abc") (record { buf = codes "z"; pl = [] }))
write-IsWrite_example =
    write-IsWrite broken_sink (codes "abc") (record { buf = codes "z"; pl = [] }) (omega arith)

write_all-flush_example :
    Flushed all_of []
      (concat two_texts)
      (flush log_sink (write_all log_sink two_texts (new_pktline_writer [])))
write_all-flush_example = write_all-flush log_sink all_of log_sink-Reliable two_texts []

read-write_all_example :
    (sent : Bytes) × ((flush log_sink (write_all log_sink two_texts (new_pktline_writer []))).1.pl
      ≡ [] ++ sent)
    × (PktlineReader.read 10 (record { pl = stream_of (sent ++ codes "rest") eof; buf = [] }) ≡ (
      PktlineReader.Progress.done (concat two_texts) (some eof),
      record { pl = stream_of (codes "rest") eof; buf = [] },
    ))
read-write_all_example =
    read-write_all log_sink all_of log_sink-Reliable two_texts [] 10 (codes "rest") eof
      (omega arith)
