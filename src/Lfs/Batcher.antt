-- ===== src/Lfs/Batcher.antt =====
-- lfs/batcher.go: items that are added one by one and taken in batches.
-- The goroutine of `acceptInput` is a state, and what its `select` receives a sequence of events, so
-- that every interleaving of `Add`, `Flush` and `Exit` is a sequence. Behind an `Exit` the `select` may
-- receive from the closed `flush` any number of times before it sees that `input` is closed.
pub mod Order
use expert_octo_doodle.Common.{
  ℕ, List, [], ◌∷◌, ◌++◌, Bool, true, false, if◌then◌else◌, ltb, length,
}

-- What the `select` receives: an item of `Add`, a signal of `Flush`, or the end of `input`.
pub data Event {ℓ} (A : Type ℓ) : Type ℓ where
  item : A → Event A
  flushed : Event A
  closed : Event A

-- The batch that is filled, the batches that were sent to `batchReady`, and whether the goroutine has
-- returned.
pub record Batcher {ℓ} (A : Type ℓ) : Type ℓ where
  pub batch_size : ℕ
  pub batch : List A
  pub ready : List (List A)
  pub returned : Bool

module _ {ℓ} {A : Type ℓ} where
  abbrev pub new_batcher : ℕ → Batcher A
  new_batcher n = record { batch_size = n; batch = []; ready = []; returned = false }

  -- `b.batchReady <- batch`, and the next round of the outer loop.
  abbrev pub send : Batcher A → Batcher A
  send b = record b { batch = []; ready = b.ready ++ b.batch ∷ [] }

  -- A round of the inner loop, for a batch that is not full.
  unfoldable pub accept : Event A → Batcher A → Batcher A
  accept (item t) b =
      let b' = record b { batch = b.batch ++ t ∷ [] } in
      if ltb (length b'.batch) b.batch_size then b' else send b'
  accept flushed b = send b
  accept closed b = record (send b) { returned = true }

  -- `acceptInput` over the events; what comes once it has returned is not received.
  unfoldable pub accept_input : List (Event A) → Batcher A → Batcher A
  unfolding accept
  accept_input [] b = b
  accept_input (e ∷ events) b =
      let next = accept_input events (accept e b) in if b.returned then b else next
