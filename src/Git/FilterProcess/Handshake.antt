-- ===== src/Git/FilterProcess/Handshake.antt =====
-- `Init` and `NegotiateCapabilities`: what they accept, what they refuse, and what they write.
use mathlib.Core.Bool.{Bool-set}
use mathlib.Core.List.{Mem, mem-cons, not-mem-nil}
use mathlib.Core.Logic.Or
use expert_octo_doodle.Common.{
  List, [], ◌∷◌, ◌++◌, none, true, false, Bytes, codes, equal, equal_iff, equal_refl, ◌≡◌, sym,
  arith, All, ◌↔◌, inl, inr, Bool-cases,
}
use expert_octo_doodle.Git.Pktline
use expert_octo_doodle.Git.Pktline.{
  Error, Input, Read, Write, Sink, read_packet_text, read_packet_list, write_packet_list,
  max_packet_length,
}
use expert_octo_doodle.Git.Pktline.Packets.{text_packet, list_packets, stream_of}
use expert_octo_doodle.Git.Pktline.RoundTrip.{
  IsLine, read_packet_text-text_packet, read_packet_list-list_packets,
}
use expert_octo_doodle.Git.Pktline.Written.{Reliable, write_packet_list-Writes}
use expert_octo_doodle.Git.FilterProcess.{
  Pipe, unsupported, ok, err, is_string_in_slice, req_ver, welcome, req_caps, init,
  negotiate_capabilities,
}

abbrev pub server_hello : List Bytes
server_hello = codes "git-filter-server" ∷ req_ver ∷ []

-- Git's side of the welcome, with whatever it sends next.
abbrev pub client_hello : List Bytes → Bytes → Bytes
client_hello vers rest = text_packet welcome ++ (list_packets vers ++ rest)

module _ {W : Type 0} (s : Sink W) (vers : List Bytes) (rest : Bytes) (e : Error) (w : W)
    (lines : All IsLine vers) where
  -- In front of Git's welcome with a list of non-empty lines that fit a packet and do not offer
  -- version 2, `Init` gives the error that names them, has read the welcome up to its end, and has
  -- written nothing.
  pub init-unsupported :
      is_string_in_slice vers req_ver ≡ false
      → init s (record { r = stream_of (client_hello vers rest) e; w = w })
        ≡ (err (unsupported req_ver vers), record { r = stream_of rest e; w = w })
  init-unsupported missing =
      unfold init in
      rw
        (
          read_packet_text-text_packet welcome (list_packets vers ++ rest) e (omega arith),
          equal_refl welcome,
        )
        (rw (read_packet_list-list_packets vers rest e lines) (rw missing))

  module _ (view : W → Bytes) (sink : Reliable s view) where
    -- In front of Git's welcome with a list of non-empty lines that fit a packet and offer version 2,
    -- `Init` on a sink that accepts everything succeeds, stands behind the welcome, and has written
    -- the server's welcome.
    pub init_lem :
        is_string_in_slice vers req_ver ≡ true
        → (w' : W) × (init s (record { r = stream_of (client_hello vers rest) e; w = w })
            ≡ (ok tt, record { r = stream_of rest e; w = w' }))
          × (view w' ≡ view w ++ list_packets server_hello)
    init_lem offered =
        let (fine, seen) = write_packet_list-Writes s view sink server_hello (omega arith) w in
        (
          (write_packet_list s server_hello w).1,
          (unfold init in
              rw
                (
                  read_packet_text-text_packet welcome (list_packets vers ++ rest) e (omega arith),
                  equal_refl welcome,
                )
                (rw (read_packet_list-list_packets vers rest e lines) (rw offered (rw fine)))),
          seen,
        )

found-Mem : (xs : List Bytes) (what : Bytes) → is_string_in_slice xs what ≡ true → Mem what xs
unfolding is_string_in_slice
found-Mem [] what h = cc
found-Mem (x ∷ xs) what h = elim (Bool-cases (equal x what)) [
  | inl same ↦ mem-cons.1 (Or.inl (sym ((equal_iff x what).0 same)))
  | inr other ↦ mem-cons.1 (Or.inr (found-Mem xs what (rw other at h)))
]

Mem-found : (xs : List Bytes) (what : Bytes) → Mem what xs → is_string_in_slice xs what ≡ true
unfolding is_string_in_slice
Mem-found [] what m = absurd (not-mem-nil m)
Mem-found (x ∷ xs) what m =
    Or.elim (Bool-set _ _) (mem-cons.0 m) (λ e. rw ((equal_iff x what).1 (sym e)))
      (λ rest. ground (arith, Mem-found xs what rest))

-- The Go loop finds a string exactly if it is in the slice.
pub is_string_in_slice_iff :
    (xs : List Bytes) (what : Bytes) → (is_string_in_slice xs what ≡ true) ↔ Mem what xs
is_string_in_slice_iff xs what = (found-Mem xs what, Mem-found xs what)

-- The list that a read gave, if it gave one.
abbrev pub list_of : {A : Type 0} → Pktline.Result (List A) → List A
list_of (Pktline.Result.ok xs) = xs
list_of _ = []

-- On any stream and sink: where `Init` succeeds, Git has sent the welcome and then a list of
-- versions with version 2 in it, and the server's welcome was written without an error.
pub init_sound :
    {W : Type 0} (s : Sink W) (p q : Pipe W)
    → init s p ≡ (ok tt, q)
    → ((read_packet_text p.r).0 ≡ Pktline.Result.ok welcome)
      × (versions : List Bytes) × ((read_packet_list (read_packet_text p.r).1).0
          ≡ Pktline.Result.ok versions)
      × Mem req_ver versions
      × (write_packet_list s server_hello p.w ≡ (none, q.w))
unfolding init
init_sound s p q h =
    let text = read_packet_text p.r in
    let vers = list_of (read_packet_list text.1).0 in
    (
      ground (arith, equal_iff (list_of text.0) welcome),
      vers,
      ground arith,
      found-Mem vers req_ver (ground arith),
      ground arith,
    )

abbrev pub cap_clean : Bytes
cap_clean = codes "capability=clean"

abbrev pub cap_smudge : Bytes
cap_smudge = codes "capability=smudge"

module _ {W : Type 0} (s : Sink W) (view : W → Bytes) (sink : Reliable s view) (caps : List Bytes)
    (rest : Bytes) (e : Error) (w : W) (lines : All IsLine caps) where
  -- In front of a list of non-empty lines that fit a packet and offer both capabilities,
  -- `NegotiateCapabilities` on a sink that accepts everything succeeds, stands behind the list, and
  -- has written both.
  pub negotiate_capabilities_lem :
      Mem cap_clean caps
      → Mem cap_smudge caps
      → (w' : W) × (negotiate_capabilities s
            (record { r = stream_of (list_packets caps ++ rest) e; w = w })
          ≡ (ok tt, record { r = stream_of rest e; w = w' }))
        × (view w' ≡ view w ++ list_packets req_caps)
  negotiate_capabilities_lem clean smudge =
      let (fine, seen) = write_packet_list-Writes s view sink req_caps (omega arith) w in
      (
        (write_packet_list s req_caps w).1,
        (unfold negotiate_capabilities in
            rw (read_packet_list-list_packets caps rest e lines)
              (rw (Mem-found caps cap_clean clean, Mem-found caps cap_smudge smudge) (rw fine))),
        seen,
      )

-- On any stream and sink: where `NegotiateCapabilities` succeeds, Git has sent a list with both
-- capabilities, and both were written without an error.
pub negotiate_capabilities_sound :
    {W : Type 0} (s : Sink W) (p q : Pipe W)
    → negotiate_capabilities s p ≡ (ok tt, q)
    → (caps : List Bytes) × ((read_packet_list p.r).0 ≡ Pktline.Result.ok caps)
      × Mem cap_clean caps
      × Mem cap_smudge caps
      × (write_packet_list s req_caps p.w ≡ (none, q.w))
unfolding negotiate_capabilities
negotiate_capabilities_sound s p q h =
    let caps = list_of (read_packet_list p.r).0 in
    (
      caps,
      ground arith,
      found-Mem caps cap_clean (ground arith),
      found-Mem caps cap_smudge (ground arith),
      ground arith,
    )
