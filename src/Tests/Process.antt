-- ===== src/Tests/Process.antt =====
-- The handshake and the requests of a filter process, on small inputs.
use mathlib.Core.List.{Mem, mem-cons}
use mathlib.Core.Logic.Or
use expert_octo_doodle.Common.{
  ◌≡◌, refl, arith, List, [], ◌∷◌, ◌++◌, none, some, true, false, Bytes, codes, equal, All,
}
use expert_octo_doodle.Git.Pktline.{eof}
use expert_octo_doodle.Git.Pktline.Packets.{list_packets, stream_of}
use expert_octo_doodle.Git.Pktline.RoundTrip.{IsLine}
use expert_octo_doodle.Git.PktlineReader
use expert_octo_doodle.Git.PktlineReader.Content.{IsPayload, data_packets, concat}
use expert_octo_doodle.Git.FilterProcess.{
  Pipe, Outcome, Scanner, init, negotiate_capabilities, is_string_in_slice, req_ver, req_caps, scan,
  payload,
}
use expert_octo_doodle.Git.FilterProcess.Handshake.{
  client_hello, init_lem, cap_clean, cap_smudge, negotiate_capabilities_lem,
}
use expert_octo_doodle.Git.FilterProcess.Requests.{IsKey, header_lines, read-scan}
use expert_octo_doodle.Tests.Wire.{log_sink, all_of, log_sink-Reliable}

abbrev versions : List Bytes
versions = codes "version=1" ∷ req_ver ∷ []

versions_lines : All IsLine versions
versions_lines = ((λ p. cc, omega arith), ((λ p. cc, omega arith), tt))

abbrev old_versions : List Bytes
old_versions = codes "version=1" ∷ []

old_versions_lines : All IsLine old_versions
old_versions_lines = ((λ p. cc, omega arith), tt)

offered : is_string_in_slice versions req_ver ≡ true
unfolding is_string_in_slice equal
offered = refl

missing : is_string_in_slice old_versions req_ver ≡ false
unfolding is_string_in_slice equal
missing = refl

abbrev git_side : Bytes → Pipe Bytes
git_side bytes = record { r = stream_of bytes eof; w = [] }

abbrev after_init : Pipe Bytes
after_init = record {
  r = stream_of (codes "rest") eof;
  w =
      (init_lem log_sink versions (codes "rest") eof [] versions_lines all_of log_sink-Reliable
        offered).0;
}

init_done :
    init log_sink (git_side (client_hello versions (codes "rest"))) ≡ (Outcome.ok tt, after_init)
init_done =
    (init_lem log_sink versions (codes "rest") eof [] versions_lines all_of log_sink-Reliable
      offered).1

req_caps_lines : All IsLine req_caps
req_caps_lines = ((λ p. cc, omega arith), ((λ p. cc, omega arith), tt))

has_clean : Mem cap_clean req_caps
has_clean = mem-cons.1 (Or.inl refl)

has_smudge : Mem cap_smudge req_caps
has_smudge = mem-cons.1 (Or.inr (mem-cons.1 (Or.inl refl)))

abbrev after_negotiation : Pipe Bytes
after_negotiation = record {
  r = stream_of (codes "rest") eof;
  w =
      (negotiate_capabilities_lem log_sink all_of log_sink-Reliable req_caps (codes "rest") eof []
        req_caps_lines has_clean has_smudge).0;
}

negotiation_done :
    negotiate_capabilities log_sink (git_side (list_packets req_caps ++ codes "rest"))
    ≡ (Outcome.ok tt, after_negotiation)
negotiation_done =
    (negotiate_capabilities_lem log_sink all_of log_sink-Reliable req_caps (codes "rest") eof []
      req_caps_lines has_clean has_smudge).1

abbrev clean_header : List (Bytes × Bytes)
clean_header = (codes "command", codes "clean") ∷ (codes "pathname", codes "a=b.png") ∷ []

clean_header_keys : All IsKey clean_header
clean_header_keys = (omega arith, (omega arith, tt))

clean_header_lines : All IsLine (header_lines clean_header)
clean_header_lines = ((λ p. cc, omega arith), ((λ p. cc, omega arith), tt))

abbrev scanner : Scanner Bytes
scanner = record { pl = git_side []; req = none; failure = none }

abbrev bad_lines : List Bytes
bad_lines = header_lines clean_header ++ codes "treeish" ∷ []

bad_lines_lines : All IsLine bad_lines
bad_lines_lines = ((λ p. cc, omega arith), ((λ p. cc, omega arith), ((λ p. cc, omega arith), tt)))

abbrev contents : List Bytes
contents = codes "abc" ∷ codes "de" ∷ []

contents_payloads : All IsPayload contents
contents_payloads = ((omega arith, omega arith), ((omega arith, omega arith), tt))

read-scan_example :
    (PktlineReader.read 10 (
      payload
        (scan (record scanner {
          pl =
              git_side (
                list_packets (header_lines clean_header)
                ++ (data_packets contents ++ codes "rest"));
        })).1)).0
    ≡ PktlineReader.Progress.done (concat contents) (some eof)
read-scan_example =
    read-scan scanner [] (codes "rest") eof clean_header contents 10 clean_header_keys
      clean_header_lines contents_payloads (omega arith)
