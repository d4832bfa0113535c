-- ===== src/Git/FilterProcess.antt =====
-- git/filter_process_scanner.go: the handshake with Git, and the requests that Git sends.
-- Trace output is left out. A request's payload is a `PktlineReader` over the scanner's own stream.
pub mod Handshake
pub mod Requests
use expert_octo_doodle.Common.{
  ℕ, List, [], ◌∷◌, ◌++◌, Option, none, some, Bool, true, false, not, if◌then◌else◌, Bytes, codes,
  equal, split_once, Map, insert,
}
use expert_octo_doodle.Git.Pktline
use expert_octo_doodle.Git.Pktline.{
  Error, Input, Read, Write, Sink, read_packet_text, read_packet_list, write_packet_list,
}
use expert_octo_doodle.Git.PktlineReader.{PktlineReader}

-- `pktline`: the stream to read and the state of the writer.
pub record Pipe (W : Type 0) : Type 0 where
  pub r : Input
  pub w : W

-- The errors, one constructor for each place that makes one.
pub data FilterError : Type 0 where
  reading_initialization : Error → FilterError
  invalid_welcome : Bytes → FilterError
  reading_versions : Error → FilterError
  unsupported : Bytes → List Bytes → FilterError
  writing_initialization : Error → FilterError
  reading_capabilities : Error → FilterError
  writing_capabilities : Error → FilterError
  plain : Error → FilterError

-- A result of the package, or a panic by an index out of range. `stuck` is no Go value.
pub data Outcome (A : Type 0) : Type 0 where
  ok : A → Outcome A
  err : FilterError → Outcome A
  panic : Outcome A
  stuck : Outcome A

pub data Request : Type 0 where
  request : (header : Map Bytes) → Request

abbrev pub Action : Type 0 → Type 0 → Type 0
Action W A = Pipe W → Outcome A × Pipe W

abbrev pub outcome_of : {A : Type 0} → (Error → FilterError) → Pktline.Result A → Outcome A
outcome_of wrap (Pktline.Result.ok a) = ok a
outcome_of wrap (Pktline.Result.err e) = err (wrap e)
outcome_of wrap Pktline.Result.stuck = stuck

abbrev pub written : (Error → FilterError) → Option Error → Outcome Unit
written wrap none = ok tt
written wrap (some e) = err (wrap e)

module _ {W : Type 0} where
  abbrev continue : {A B : Type 0} → Outcome A → (A → Action W B) → Action W B
  continue (ok a) f p = f a p
  continue (err e) f p = (err e, p)
  continue panic f p = (panic, p)
  continue stuck f p = (stuck, p)

  infixl 5 ◌>>=◌ ◌>>◌
  abbrev pub ◌>>=◌ : {A B : Type 0} → Action W A → (A → Action W B) → Action W B
  ◌>>=◌ m f p = continue (m p).0 f (m p).1

  abbrev pub ◌>>◌ : {B : Type 0} → Action W Unit → Action W B → Action W B
  m >> k = m >>= λ _. k

  -- A read whose error is wrapped, and a write whose error is.
  abbrev pub reading : {A : Type 0} → (Error → FilterError) → Read A → Action W A
  reading wrap m p = (outcome_of wrap (m p.r).0, record p { r = (m p.r).1 })

  abbrev pub writing : (Error → FilterError) → Write W → Action W Unit
  writing wrap m p = (written wrap (m p.w).0, record p { w = (m p.w).1 })

  -- `if !test { return e }`
  abbrev pub require : Bool → FilterError → Action W Unit
  require true e p = (ok tt, p)
  require false e p = (err e, p)

unfoldable pub is_string_in_slice : List Bytes → Bytes → Bool
is_string_in_slice [] what = false
is_string_in_slice (x ∷ xs) what = if equal x what then true else is_string_in_slice xs what

abbrev pub req_ver : Bytes
req_ver = codes "version=2"

abbrev pub welcome : Bytes
welcome = codes "git-filter-client"

abbrev pub req_caps : List Bytes
req_caps = codes "capability=clean" ∷ codes "capability=smudge" ∷ []

module _ {W : Type 0} (s : Sink W) where
  -- `Init`
  unfoldable pub init : Action W Unit
  init = do
    init_msg ← reading reading_initialization read_packet_text
    require (equal init_msg welcome) (invalid_welcome init_msg)
    sup_vers ← reading reading_versions read_packet_list
    require (is_string_in_slice sup_vers req_ver) (unsupported req_ver sup_vers)
    writing writing_initialization (write_packet_list s (codes "git-filter-server" ∷ req_ver ∷ []))

  -- The loop over the required capabilities.
  abbrev require_all : List Bytes → List Bytes → Action W Unit
  require_all [] sup_caps = λ p. (ok tt, p)
  require_all (req_cap ∷ reqs) sup_caps =
      require (is_string_in_slice sup_caps req_cap) (unsupported req_cap sup_caps)
      >> require_all reqs sup_caps

  unfoldable pub negotiate_capabilities : Action W Unit
  negotiate_capabilities = do
    sup_caps ← reading reading_capabilities read_packet_list
    require_all req_caps sup_caps
    writing writing_capabilities (write_packet_list s req_caps)

  unfoldable pub write_status : Bytes → Action W Unit
  write_status status = writing plain (write_packet_list s ((codes "status=" ++ status) ∷ []))

-- The loop over the pairs: `v[1]` panics where `SplitN` found no `=`.
unfoldable pub parse_header : List Bytes → Map Bytes → Outcome Request
parse_header [] header = ok (request header)
parse_header (pair ∷ rest) header = elim (split_once b'=' pair) [
  | none ↦ panic
  | some kv ↦ parse_header rest (insert kv.0 kv.1 header)
]

module _ {W : Type 0} where
  unfoldable pub read_request : Action W Request
  unfolding parse_header
  read_request = do
    request_list ← reading plain read_packet_list
    λ p. (parse_header request_list [], p)

-- `FilterProcessScanner`
pub record Scanner (W : Type 0) : Type 0 where
  pub pl : Pipe W
  pub req : Option Request
  pub failure : Option FilterError

-- What `Scan` gives: whether there is a request, or a panic.
pub data Scanned : Type 0 where
  returns : Bool → Scanned
  panics : Scanned
  never : Scanned

module _ {W : Type 0} where
  abbrev pub scanned : Outcome Request × Pipe W → Scanned × Scanner W
  scanned (ok req, p) = (returns true, record { pl = p; req = some req; failure = none })
  scanned (err e, p) = (returns false, record { pl = p; req = none; failure = some e })
  scanned (panic, p) = (panics, record { pl = p; req = none; failure = none })
  scanned (stuck, p) = (never, record { pl = p; req = none; failure = none })

  -- `Scan`
  unfoldable pub scan : Scanner W → Scanned × Scanner W
  scan o = scanned (read_request o.pl)

  -- `req.Payload`
  abbrev pub payload : Scanner W → PktlineReader
  payload o = record { pl = o.pl.r; buf = [] }
