-- ===== src/Git/Pktline/Total.antt =====
-- Every read of git/pkt_line.go ends: what one packet takes from the stream, and the loop's fuel.
use expert_octo_doodle.Common.{
  ℕ, zero, suc, ◌+◌, ◌-◌, ◌≤◌, ◌<◌, List, [], ◌∷◌, some, none, arith, Option, Bytes, length,
  length-drop, ◌≢◌, pos, negsuc, ℤ, parse_int,
}
use expert_octo_doodle.Git.Pktline.{
  Error, Result, ok, err, stuck, Input, Read, continue, next_packet, ◌>>=◌, read_full, read_limited,
  read_payload, read_packet, read_packet_text, read_packet_list_loop, read_packet_list,
  parse_length,
}

-- The read gave an error, or it gave data and took `n` bytes at least.
abbrev pub Takes {ℓ} : {A : Type ℓ} → ℕ → Input → Result A × Input → Type 0
Takes n s (ok _, t) = length t.bytes + n ≤ length s.bytes
Takes n s (err _, t) = Unit
Takes n s (stuck, t) = ⊥

read_full-Takes :
    (b : Bytes) (e : Error)
    → Takes 4 (record { bytes = b; ending = e }) (read_full (record { bytes = b; ending = e }))
unfolding read_full
read_full-Takes [] e = tt
read_full-Takes (a ∷ []) e = tt
read_full-Takes (a ∷ b ∷ []) e = tt
read_full-Takes (a ∷ b ∷ c ∷ []) e = tt
read_full-Takes (a ∷ b ∷ c ∷ d ∷ rest) e = omega arith

read_limited-Takes :
    (n : ℕ) (b : Bytes) (e : Error)
    → Takes 0 (record { bytes = b; ending = e }) (read_limited n (record { bytes = b; ending = e }))
unfolding read_limited
read_limited-Takes n b e = ground (arith, length-drop n b)

parse_payload-Takes : (o : Option ℤ) (s : Input) → Takes 0 s ((parse_length o >>= read_payload) s)
parse_payload-Takes none s = tt
parse_payload-Takes (some (negsuc n)) s = tt
parse_payload-Takes (some (pos n)) s = ground (arith, read_limited-Takes (n - 4) s.bytes s.ending)

module _ {B : Type 0} (n : ℕ) (s : Input) where
  after-Takes :
      (t : Input) (q : Result B × Input)
      → length t.bytes + n ≤ length s.bytes
      → Takes 0 t q
      → Takes n s q
  after-Takes t (ok b, u) h g = omega arith
  after-Takes t (err e, u) h g = tt
  after-Takes t (stuck, u) h g = g

module _ {A B : Type 0} (n : ℕ) (s : Input) where
  continue-Takes :
      (r : Result A) (t : Input) (f : A → Read B)
      → Takes n s (r, t)
      → ((a : A) (u : Input) → Takes 0 u (f a u))
      → Takes n s (continue r f t)
  continue-Takes (ok a) t f h k = after-Takes n s t (f a t) h (k a t)
  continue-Takes (err e) t f h k = tt
  continue-Takes stuck t f h k = h

  -- What is read after a read that took `n` bytes only adds to it.
  bind-Takes :
      (m : Read A) (f : A → Read B)
      → Takes n s (m s)
      → ((a : A) (u : Input) → Takes 0 u (f a u))
      → Takes n s ((m >>= f) s)
  bind-Takes m f h k = continue-Takes (m s).0 (m s).1 f h k

  continue-ne-stuck :
      (r : Result A) (t : Input) (f : A → Read B)
      → Takes n s (r, t)
      → ((a : A) (u : Input) → length u.bytes + n ≤ length s.bytes → (f a u).0 ≢ stuck)
      → (continue r f t).0 ≢ stuck
  continue-ne-stuck (ok a) t f h k = k a t h
  continue-ne-stuck (err e) t f h k = λ p. cc
  continue-ne-stuck stuck t f h k = absurd h

pub read_packet-Takes : (s : Input) → Takes 4 s (read_packet s)
read_packet-Takes s =
    unfold read_packet in
    bind-Takes 4 s read_full _ (read_full-Takes s.bytes s.ending)
      (λ hex t. parse_payload-Takes (parse_int 16 hex) t)

pub read_packet_text-Takes : (s : Input) → Takes 4 s (read_packet_text s)
read_packet_text-Takes s =
    unfold read_packet_text in
    bind-Takes 4 s read_packet _ (read_packet-Takes s) (λ p t. omega arith)

next_packet-ne-stuck :
    (again : List Bytes → Read (List Bytes)) (list : List Bytes) (text : Bytes) (s : Input)
    → ((l : List Bytes) → (again l s).0 ≢ stuck)
    → (next_packet again list text s).0 ≢ stuck
next_packet-ne-stuck again list [] s h = λ p. cc
next_packet-ne-stuck again list (c ∷ text) s h = h _

read_packet_list_loop-ne-stuck :
    (fuel : ℕ) (list : List Bytes) (s : Input)
    → length s.bytes < fuel
    → (read_packet_list_loop fuel list s).0 ≢ stuck
unfolding read_packet_list_loop
read_packet_list_loop-ne-stuck zero list s h = absurd (omega arith)
read_packet_list_loop-ne-stuck (suc fuel) list s h =
    continue-ne-stuck 4 s (read_packet_text s).0 (read_packet_text s).1 _ (read_packet_text-Takes s)
      λ text t fewer.
        next_packet-ne-stuck (read_packet_list_loop fuel) list text t
          λ l. read_packet_list_loop-ne-stuck fuel l t (omega arith)

-- `readPacketList` ends on every stream, with its packets or an error.
pub read_packet_list-ne-stuck : (s : Input) → (read_packet_list s).0 ≢ stuck
unfolding read_packet_list
read_packet_list-ne-stuck s = read_packet_list_loop-ne-stuck _ [] s (omega arith)
