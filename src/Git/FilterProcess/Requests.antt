-- ===== src/Git/FilterProcess/Requests.antt =====
-- `Scan`: the requests that Git sends, and what is no request.
use expert_octo_doodle.Common.{
  ℕ, List, [], ◌∷◌, ◌++◌, Option, none, some, true, false, if◌then◌else◌, Bytes, equal, ◌≡◌, refl,
  ◌∙◌, ap, arith, All, inl, inr, ◌≢◌, length, ◌≤◌, Map, insert, lookup, lookup-insert, Option-cases,
  split_once, split_once-append, split_once-none, Lacks,
}
use expert_octo_doodle.Git.Pktline.{Error, eof, read_packet_list}
use expert_octo_doodle.Git.Pktline.Packets.{list_packets, stream_of}
use expert_octo_doodle.Git.Pktline.RoundTrip.{IsLine, read_packet_list-list_packets}
use expert_octo_doodle.Git.Pktline.Total.{read_packet_list-ne-stuck}
use expert_octo_doodle.Git.PktlineReader
use expert_octo_doodle.Git.PktlineReader.Content.{IsPayload, data_packets, concat}
use expert_octo_doodle.Git.PktlineReader.Reads.{read_whole_content}
use expert_octo_doodle.Git.FilterProcess.Handshake.{list_of}
use expert_octo_doodle.Git.FilterProcess.{
  Pipe, FilterError, Outcome, ok, err, panic, stuck, Request, request, parse_header, read_request,
  Scanner, Scanned, returns, panics, never, scanned, scan, payload,
}

-- A header of a request, as Git writes it and as the map that `readRequest` makes of it.
abbrev pub pair_line : Bytes × Bytes → Bytes
pair_line kv = kv.0 ++ b'=' ∷ kv.1

abbrev pub header_lines : List (Bytes × Bytes) → List Bytes
header_lines [] = []
header_lines (kv ∷ kvs) = pair_line kv ∷ header_lines kvs

abbrev pub header_map : List (Bytes × Bytes) → Map Bytes → Map Bytes
header_map [] m = m
header_map (kv ∷ kvs) m = header_map kvs (insert kv.0 kv.1 m)

-- A key that the first `=` ends.
abbrev pub IsKey : Bytes × Bytes → Type 0
IsKey kv = Lacks b'=' kv.0

parse_header-lines :
    (kvs : List (Bytes × Bytes)) (m : Map Bytes)
    → All IsKey kvs
    → parse_header (header_lines kvs) m ≡ ok (request (header_map kvs m))
unfolding parse_header
parse_header-lines [] m h = refl
parse_header-lines (kv ∷ kvs) m (h, hs) =
    rw (split_once-append b'=' kv.0 kv.1 h, parse_header)
      (parse_header-lines kvs (insert kv.0 kv.1 m) hs)

parse_header-panic :
    (front : List (Bytes × Bytes)) (bad : Bytes) (back : List Bytes) (m : Map Bytes)
    → All IsKey front
    → Lacks b'=' bad
    → parse_header (header_lines front ++ bad ∷ back) m ≡ panic
unfolding parse_header
parse_header-panic [] bad back m h b = rw (split_once-none b'=' bad b, parse_header)
parse_header-panic (kv ∷ front) bad back m (h, hs) b =
    rw (split_once-append b'=' kv.0 kv.1 h, parse_header)
      (parse_header-panic front bad back (insert kv.0 kv.1 m) hs b)

module _ {W : Type 0} (o : Scanner W) (w : W) (rest : Bytes) (e : Error) where
  -- A request with lines `key=value` that fit a packet, with no `=` in a key, is scanned: its header
  -- is the map with these entries inserted in order, no error is kept, and the stream stands at the
  -- payload.
  pub scan_lem :
      (kvs : List (Bytes × Bytes))
      → All IsKey kvs
      → All IsLine (header_lines kvs)
      → scan (record o {
        pl = record { r = stream_of (list_packets (header_lines kvs) ++ rest) e; w = w };
      })
        ≡ (
          returns true,
          record {
            pl = record { r = stream_of rest e; w = w };
            req = some (request (header_map kvs []));
            failure = none;
          },
        )
  scan_lem kvs keys lines =
      unfold scan read_request in
      rw (read_packet_list-list_packets (header_lines kvs) rest e lines)
        (rw (parse_header-lines kvs [] keys))

  -- A non-empty line without `=` in the header, behind lines `key=value`, makes `Scan` panic.
  scan_panics :
      (front : List (Bytes × Bytes)) (bad : Bytes) (back : List Bytes)
      → All IsKey front
      → Lacks b'=' bad
      → All IsLine (header_lines front ++ bad ∷ back)
      → (scan (record o {
        pl = record {
          r = stream_of (list_packets (header_lines front ++ bad ∷ back) ++ rest) e;
          w = w;
        };
      })).0
        ≡ panics
  scan_panics front bad back keys b lines =
      unfold scan read_request in
      rw (read_packet_list-list_packets (header_lines front ++ bad ∷ back) rest e lines)
        (rw (parse_header-panic front bad back [] keys b))

-- Behind a scanned request with lines `key=value` that fit a packet, one `Read` of its payload with
-- room for all of it gives the data of the packets, of 1 to 65516 bytes each, up to the flush packet,
-- with `io.EOF`.
pub read-scan :
    {W : Type 0} (o : Scanner W) (w : W) (rest : Bytes) (e : Error) (kvs : List (Bytes × Bytes))
    (bs : List Bytes) (cap : ℕ)
    → All IsKey kvs
    → All IsLine (header_lines kvs)
    → All IsPayload bs
    → length (concat bs) ≤ cap
    → (PktlineReader.read cap (
        payload
          (scan (record o {
            pl = record {
              r = stream_of (list_packets (header_lines kvs) ++ (data_packets bs ++ rest)) e;
              w = w;
            };
          })).1)).0
      ≡ PktlineReader.Progress.done (concat bs) (some eof)
read-scan o w rest e kvs bs cap keys lines payloads fits = rw (
  scan_lem o w (data_packets bs ++ rest) e kvs keys lines,
  read_whole_content bs rest e cap [] payloads fits,
)

-- The value that came last for a key.
abbrev pub last_value : Bytes → List (Bytes × Bytes) → Option Bytes → Option Bytes
last_value k [] v = v
last_value k (kv ∷ kvs) v = last_value k kvs (if equal kv.0 k then some kv.1 else v)

-- The header of a scanned request gives each key the value that came last for it.
pub lookup-header_map :
    (k : Bytes) (kvs : List (Bytes × Bytes)) (m : Map Bytes)
    → lookup k (header_map kvs m) ≡ last_value k kvs (lookup k m)
lookup-header_map k [] m = refl
lookup-header_map k (kv ∷ kvs) m =
    lookup-header_map k kvs (insert kv.0 kv.1 m)
    ∙ ap (last_value k kvs) (lookup-insert kv.0 k kv.1 m)

parse_header-ne-stuck : (list : List Bytes) (m : Map Bytes) → parse_header list m ≢ stuck
unfolding parse_header
parse_header-ne-stuck [] m = λ p. cc
parse_header-ne-stuck (pair ∷ list) m = elim (Option-cases (split_once b'=' pair)) [
  | inl h ↦ rw (h, parse_header) (λ p. cc)
  | inr (kv, h) ↦ rw (h, parse_header) (parse_header-ne-stuck list (insert kv.0 kv.1 m))
]

-- What the fields of the scanner hold once `Scan` has returned.
abbrev pub IsScanned : {W : Type 0} → Scanned × Scanner W → Type 0
IsScanned (returns true, o) = ((q : Request) × (o.req ≡ some q)) × (o.failure ≡ none)
IsScanned (returns false, o) = (o.req ≡ none) × (x : FilterError) × (o.failure ≡ some x)
IsScanned (panics, o) = (o.req ≡ none) × (o.failure ≡ none)
IsScanned (never, o) = ⊥

scanned-IsScanned :
    {W : Type 0} (r : Outcome Request × Pipe W) → r.0 ≢ stuck → IsScanned (scanned r)
scanned-IsScanned (ok req, p) h = ((req, refl), refl)
scanned-IsScanned (err e, p) h = (refl, e, refl)
scanned-IsScanned (panic, p) h = (refl, refl)
scanned-IsScanned (stuck, p) h = h refl

read_request-ne-stuck : {W : Type 0} (p : Pipe W) → (read_request p).0 ≢ stuck
unfolding read_request
read_request-ne-stuck p h = ground (
  arith,
  read_packet_list-ne-stuck p.r,
  parse_header-ne-stuck (list_of (read_packet_list p.r).0) [],
)

-- `Scan` returns or panics on every stream. Where it returns true there is a request and no error,
-- where it returns false there is an error and no request, whatever the scanner held before.
pub scan-IsScanned : {W : Type 0} (o : Scanner W) → IsScanned (scan o)
unfolding scan
scan-IsScanned o = scanned-IsScanned (read_request o.pl) (read_request-ne-stuck o.pl)
