-- ===== src/Lfs/Batcher/Order.antt =====
-- The batches hold the items in the order in which they were received, each of them once.
use expert_octo_doodle.Common.{
  ℕ, ◌+◌, ◌≤◌, ◌<◌, List, [], ◌∷◌, ◌++◌, Bool, true, false, ltb, length, length-append, ◌≡◌, refl,
  ◌∙◌, sym, ap, arith, append-nil, append_assoc, All, All-append, Bool-cases, inl, inr,
}
use expert_octo_doodle.Lfs.Batcher.{
  Event, item, flushed, closed, Batcher, new_batcher, send, accept, accept_input,
}

module _ {ℓ} {A : Type ℓ} where
  abbrev pub joined : List (List A) → List A
  joined [] = []
  joined (xs ∷ xss) = xs ++ joined xss

  -- The items that are received before the end of the input.
  abbrev pub items : List (Event A) → List A
  items [] = []
  items (item t ∷ events) = t ∷ items events
  items (flushed ∷ events) = items events
  items (closed ∷ events) = []

  joined-concat : (xss : List (List A)) (xs : List A) → joined (xss ++ xs ∷ []) ≡ joined xss ++ xs
  joined-concat [] xs = append-nil xs
  joined-concat (ys ∷ xss) xs = rw (joined-concat xss xs, append_assoc)

  -- A batcher that has received `received`: its batches and the one that is filled hold these items in
  -- order, no batch is larger than the batch size, and the one that is filled is not full.
  pub record Holds (received : List A) (b : Batcher A) : Type ℓ where
    pub all_items : joined b.ready ++ b.batch ≡ received
    pub sizes : All (λ xs. length xs ≤ b.batch_size) b.ready
    pub room : length b.batch < b.batch_size

  send-Holds :
      (received : List A) (b : Batcher A)
      → joined b.ready ++ b.batch ≡ received
      → All (λ xs. length xs ≤ b.batch_size) b.ready
      → length b.batch ≤ b.batch_size
      → 0 < b.batch_size
      → Holds received (send b)
  send-Holds received b all_items sizes fits pos = record {
    all_items = append-nil _ ∙ joined-concat b.ready b.batch ∙ all_items;
    sizes = All-append (λ xs. length xs ≤ b.batch_size) b.ready (b.batch ∷ []) sizes (fits, tt);
    room = pos;
  }

  item-Holds :
      (t : A) (received : List A) (b : Batcher A)
      → Holds received b
      → Holds (received ++ t ∷ []) (accept (item t) b)
  unfolding accept
  item-Holds t received b h =
      let r = h.room in
      let grown : joined b.ready ++ (b.batch ++ t ∷ []) ≡ received ++ t ∷ [] =
        sym (append_assoc (joined b.ready) b.batch (t ∷ []))
        ∙ ap (λ xs. xs ++ t ∷ []) h.all_items in
      let longer : length (b.batch ++ t ∷ []) ≡ length b.batch + 1 =
        omega (arith, length-append b.batch (t ∷ [])) in
      elim (Bool-cases (ltb (length (b.batch ++ t ∷ [])) b.batch_size)) [
        | inl below ↦ rw below (record { all_items = grown; sizes = h.sizes; room = ground arith })
        | inr full ↦ rw full (
            send-Holds (received ++ t ∷ []) (record b { batch = b.batch ++ t ∷ [] }) grown h.sizes
              (omega arith) (omega arith))
      ]

  flushed-Holds :
      (received : List A) (b : Batcher A) → Holds received b → Holds received (accept flushed b)
  unfolding accept
  flushed-Holds received b h =
      let r = h.room in send-Holds received b h.all_items h.sizes (omega arith) (omega arith)

  closed-Holds :
      (received : List A) (b : Batcher A) → Holds received b → Holds received (accept closed b)
  unfolding accept
  closed-Holds received b h =
      let s = flushed-Holds received b h in
      record { all_items = s.all_items; sizes = s.sizes; room = s.room }

  accept-item-returned : (t : A) (b : Batcher A) → (accept (item t) b).returned ≡ b.returned
  unfolding accept
  accept-item-returned t b = elim (Bool-cases (ltb (length (b.batch ++ t ∷ [])) b.batch_size)) [
    | inl below ↦ rw below
    | inr full ↦ rw full
  ]

  accept_input_returned :
      (events : List (Event A)) (b : Batcher A) → b.returned ≡ true → accept_input events b ≡ b
  unfolding accept_input
  accept_input_returned [] b h = refl
  accept_input_returned (e ∷ events) b h = rw h

  accept_input_cons :
      (e : Event A) (events : List (Event A)) (b : Batcher A)
      → b.returned ≡ false
      → accept_input (e ∷ events) b ≡ accept_input events (accept e b)
  unfolding accept_input
  accept_input_cons e events b h = rw h

  accept_input-Holds :
      (events : List (Event A)) (received : List A) (b : Batcher A)
      → b.returned ≡ false
      → Holds received b
      → Holds (received ++ items events) (accept_input events b)
  accept_input-Holds [] received b live h = unfold accept_input in rw append-nil h
  accept_input-Holds (item t ∷ events) received b live h =
      rw (accept_input_cons (item t) events b live, ← append_assoc received (t ∷ []) (items events))
        (accept_input-Holds events (received ++ t ∷ []) (accept (item t) b)
          (accept-item-returned t b ∙ live) (item-Holds t received b h))
  accept_input-Holds (flushed ∷ events) received b live h =
      rw (accept_input_cons flushed events b live) (
        accept_input-Holds events received (accept flushed b) (unfold accept in live)
          (flushed-Holds received b h))
  accept_input-Holds (closed ∷ events) received b live h =
      rw
        (
          accept_input_cons closed events b live,
          accept_input_returned events (accept closed b) (unfold accept in refl),
          append-nil,
        )
        (closed-Holds received b h)

  -- At every point, whatever the interleaving of items and flushes, the batches that were sent and the
  -- one that is filled hold the items in the order in which they were received, each of them once; no
  -- batch is larger than the batch size, which is positive, and the one that is filled is not full.
  pub accept_input-new_batcher :
      (n : ℕ) (events : List (Event A))
      → 0 < n
      → Holds (items events) (accept_input events (new_batcher n))
  accept_input-new_batcher n events pos =
      accept_input-Holds events [] (new_batcher n) refl
        (record { all_items = refl; sizes = tt; room = pos })

  -- Whether the end of the input is among the events.
  abbrev pub has_closed : List (Event A) → Bool
  has_closed [] = false
  has_closed (closed ∷ events) = true
  has_closed (item t ∷ events) = has_closed events
  has_closed (flushed ∷ events) = has_closed events

  closed-batch :
      (events : List (Event A)) (b : Batcher A)
      → b.returned ≡ false
      → has_closed events ≡ true
      → (accept_input events b).batch ≡ []
  closed-batch [] b live h = cc
  closed-batch (item t ∷ events) b live h =
      rw (accept_input_cons (item t) events b live)
        (closed-batch events (accept (item t) b) (accept-item-returned t b ∙ live) h)
  closed-batch (flushed ∷ events) b live h =
      rw (accept_input_cons flushed events b live)
        (closed-batch events (accept flushed b) (unfold accept in live) h)
  closed-batch (closed ∷ events) b live h =
      rw
        (
          accept_input_cons closed events b live,
          accept_input_returned events (accept closed b) (unfold accept in refl),
        )
        (unfold accept in refl)

  -- Once the end of the input was received, every item that was received before it is in a batch that
  -- was sent, in order, for a positive batch size.
  pub accept_input_exit :
      (n : ℕ) (events : List (Event A))
      → 0 < n
      → has_closed events ≡ true
      → joined (accept_input events (new_batcher n)).ready ≡ items events
  accept_input_exit n events pos h =
      let held = accept_input-new_batcher n events pos in
      let empty = closed-batch events (new_batcher n) refl h in
      sym (append-nil _)
      ∙ ap (λ xs. joined (accept_input events (new_batcher n)).ready ++ xs) (sym empty)
      ∙ held.all_items
