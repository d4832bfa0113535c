-- ===== src/Git/PktlineReader.antt =====
-- git/pkt_line_reader.go: an `io.Reader` over the data of the packets up to a flush packet.
pub mod Content
pub mod Reads
pub mod Total
use expert_octo_doodle.Common.{
  ℕ, zero, suc, ◌+◌, ◌-◌, List, [], ◌∷◌, ◌++◌, Option, none, some, ltb, if◌then◌else◌, Bytes,
  length, take, drop,
}
use expert_octo_doodle.Tools.Math.{min_int}
use expert_octo_doodle.Git.Pktline.{Error, eof, Result, Input, read_packet}
use expert_octo_doodle.Git.Pktline

pub record PktlineReader : Type 0 where
  pub pl : Input
  pub buf : Bytes

-- What `Read` has put into its argument, and its error. `stuck`: the model's loop is out of fuel.
pub data Progress : Type 0 where
  done : Bytes → Option Error → Progress
  stuck : Progress

-- One round of the loop: the next packet goes to what is left of the argument, then to `buf`.
abbrev pub fetch :
    (Bytes → PktlineReader → Progress × PktlineReader)
    → ℕ
    → Bytes
    → Result Bytes × Input
    → Progress × PktlineReader
fetch again cap got (Pktline.Result.err e, t) = (done got (some e), record { pl = t; buf = [] })
fetch again cap got (Pktline.Result.stuck, t) = (stuck, record { pl = t; buf = [] })
fetch again cap got (Pktline.Result.ok [], t) = (done got (some eof), record { pl = t; buf = [] })
fetch again cap got (Pktline.Result.ok (c ∷ chunk), t) =
    let nn = min_int (length (c ∷ chunk)) (cap - length got) in
    again (got ++ take nn (c ∷ chunk)) (record { pl = t; buf = drop nn (c ∷ chunk) })

-- `for len(r.buf) == 0`
unfoldable pub read_loop : ℕ → ℕ → Bytes → PktlineReader → Progress × PktlineReader
unfolding min_int
read_loop zero cap got r = (stuck, r)
read_loop (suc fuel) cap got r = elim r.buf [
  | [] ↦ fetch (read_loop fuel cap) cap got (read_packet r.pl)
  | c ∷ buf ↦ (done got none, r)
]

-- `Read(p)` with `cap` for `len(p)`. A round that goes on has taken four bytes of the stream.
unfoldable pub read : ℕ → PktlineReader → Progress × PktlineReader
unfolding read_loop
read cap r =
    let n = min_int cap (length r.buf) in
    if ltb 0 (length r.buf)
    then read_loop (length r.pl.bytes + 1) cap (take n r.buf) (record r { buf = drop n r.buf })
    else read_loop (length r.pl.bytes + 1) cap [] r
