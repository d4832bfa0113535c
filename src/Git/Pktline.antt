-- ===== src/Git/Pktline.antt =====
-- git/pkt_line.go: packets of Git's pkt-line format, read from a byte stream and written to a sink.
pub mod Header
pub mod Packets
pub mod Total
pub mod RoundTrip
pub mod Written
use expert_octo_doodle.Common.{
  ℕ, zero, suc, ◌+◌, ◌-◌, ◌/◌, ◌%◌, List, [], ◌∷◌, ◌++◌, Option, none, some, ltb, leb, ◌==◌,
  if◌then◌else◌, Bytes, length, take, drop, ℤ, pos, negsuc, parse_int,
}

-- The errors of the package. `stream e` is any other error of the reader or writer underneath.
pub data Error : Type 0 where
  eof unexpected_eof bad_hex invalid_length too_long : Error
  stream : ℕ → Error

-- A Go result with its error. `stuck` is no Go value: a loop of the model ran out of fuel.
pub data Result {ℓ} (A : Type ℓ) : Type ℓ where
  ok : A → Result A
  err : Error → Result A
  stuck : Result A

-- What is still to be read, and the error that the reader underneath gives after it.
pub record Input : Type 0 where
  pub bytes : Bytes
  pub ending : Error

abbrev pub Read {ℓ} : Type ℓ → Type ℓ
Read A = Input → Result A × Input

abbrev continue {ℓ} : {A B : Type ℓ} → Result A → (A → Read B) → Read B
continue (ok a) f s = f a s
continue (err e) f s = (err e, s)
continue stuck f s = (stuck, s)

infixl 5 ◌>>=◌
abbrev pub ◌>>=◌ {ℓ} : {A B : Type ℓ} → Read A → (A → Read B) → Read B
◌>>=◌ m f s = let (r, t) = m s in continue r f t

abbrev pub pure {ℓ} : {A : Type ℓ} → A → Read A
pure a s = (ok a, s)

abbrev pub raise {ℓ} : {A : Type ℓ} → Error → Read A
raise e s = (err e, s)

-- The longest payload of a packet.
abbrev pub max_packet_length : ℕ
max_packet_length = 65516

-- `io.ReadFull` tells a stream that ends inside a header from one that ends before it.
abbrev inside : Error → Error
inside eof = unexpected_eof
inside e = e

-- `io.ReadFull(p.r, pktLenHex[:])`: four bytes, or an error.
unfoldable pub read_full : Read Bytes
read_full inp = elim inp.bytes [
  | a ∷ b ∷ c ∷ d ∷ rest ↦ (ok (a ∷ b ∷ c ∷ d ∷ []), record inp { bytes = rest })
  | [] ↦ (err inp.ending, inp)
  | _ ↦ (err (inside inp.ending), record inp { bytes = [] })
]

-- The error of `ioutil.ReadAll`, to which the end of the stream is none.
abbrev read_all_result : Error → Bytes → Result Bytes
read_all_result eof payload = ok payload
read_all_result e payload = err e

-- `ioutil.ReadAll(io.LimitReader(p.r, n))`
unfoldable pub read_limited : ℕ → Read Bytes
read_limited n inp =
    if leb n (length inp.bytes)
    then (ok (take n inp.bytes), record inp { bytes = drop n inp.bytes })
    else (read_all_result inp.ending inp.bytes, record inp { bytes = [] })

-- `strconv.ParseInt(string(pktLenHex[:]), 16, 0)`
abbrev parse_length : Option ℤ → Read ℤ
parse_length none = raise bad_hex
parse_length (some n) = pure n

-- The rest of `readPacket` behind the parsed length; a flush packet is read as no data.
abbrev read_payload : ℤ → Read Bytes
read_payload (negsuc _) s = raise invalid_length s
read_payload (pos n) s =
    if n == 0 then pure [] s else if leb n 4 then raise invalid_length s else read_limited (n - 4) s

unfoldable pub read_packet : Read Bytes
unfolding read_full read_limited
read_packet = do hex ← read_full; pkt_len ← parse_length (parse_int 16 hex); read_payload pkt_len

-- `strings.TrimSuffix(s, "\n")`
unfoldable pub trim_newline : Bytes → Bytes
trim_newline [] = []
trim_newline (c ∷ []) = if c == b'\n' then [] else c ∷ []
trim_newline (c ∷ d ∷ s) = c ∷ trim_newline (d ∷ s)

unfoldable pub read_packet_text : Read Bytes
read_packet_text = do data_read ← read_packet; pure (trim_newline data_read)

-- One round of the loop of `readPacketList`: an empty text ends it, any other is appended.
abbrev next_packet : (List Bytes → Read (List Bytes)) → List Bytes → Bytes → Read (List Bytes)
next_packet again list [] = pure list
next_packet again list (c ∷ text) = again (list ++ (c ∷ text) ∷ [])

unfoldable pub read_packet_list_loop : ℕ → List Bytes → Read (List Bytes)
read_packet_list_loop zero list = λ s. (stuck, s)
read_packet_list_loop (suc fuel) list = do
  text ← read_packet_text
  next_packet (read_packet_list_loop fuel) list text

-- A round that goes on has taken four bytes at least.
unfoldable pub read_packet_list : Read (List Bytes)
read_packet_list s = read_packet_list_loop (length s.bytes + 1) [] s

-- A `bufio.Writer`, which the code only calls; `none` is success.
pub record Sink (W : Type 0) : Type 0 where
  pub write : Bytes → W → Option Error × W
  pub flush : W → Option Error × W

abbrev pub Write : Type 0 → Type 0
Write W = W → Option Error × W

-- `if err := m; err != nil { return err }`, then `k`
abbrev unless_failed : {W : Type 0} → Option Error → Write W → Write W
unless_failed none k w = k w
unless_failed (some e) k w = (some e, w)

infixl 5 ◌>>◌
abbrev pub ◌>>◌ : {W : Type 0} → Write W → Write W → Write W
◌>>◌ m k w = unless_failed (m w).0 k (m w).1

abbrev hex_digit : ℕ → ℕ
hex_digit d = if ltb d 10 then b'0' + d else b'a' + d - 10

-- `fmt.Sprintf("%04x", n)` for `n` below 2^16, which the guard of `writePacket` gives.
unfoldable pub hex4 : ℕ → Bytes
hex4 n =
    hex_digit (n / 4096 % 16)
    ∷ hex_digit (n / 256 % 16)
    ∷ hex_digit (n / 16 % 16)
    ∷ hex_digit (n % 16)
    ∷ []

module _ {W : Type 0} (s : Sink W) where
  unfoldable pub write_packet : Bytes → Write W
  write_packet payload w =
      if ltb max_packet_length (length payload)
      then (some too_long, w)
      else (do s.write (hex4 (length payload + 4)); s.write payload) w

  unfoldable pub write_flush : Write W
  write_flush = do s.write (hex4 0); s.flush

  unfoldable pub write_packet_text : Bytes → Write W
  write_packet_text text = write_packet (text ++ b'\n' ∷ [])

  unfoldable pub write_packet_list : List Bytes → Write W
  write_packet_list [] = write_flush
  write_packet_list (i ∷ list) = do write_packet_text i; write_packet_list list
