-- ===== src/Storage/Queue.antt =====
-- internal/storage/badger.go: the queue that `Insert` fills and the loop of `runDrain`. The
-- goroutines interleave in any way: a run is a list of steps. `flush` is a parameter here;
-- Storage.Flush is the program's.
pub mod Batches
pub mod Delivers
pub mod Room
use mcpwatch.Base.{ℕ, Bool, List, [], ◌∷◌, ◌++◌, length, leb, if◌then◌else◌}
use mcpwatch.Base.Channel.{Channel, try_send}
use mcpwatch.Engine.Message.{Message}

abbrev pub queue_capacity : ℕ
queue_capacity = 4096

abbrev pub batch_size : ℕ
batch_size = 256

-- `S` is the state that a flush changes.
pub record Pipeline {ℓ} (S : Type ℓ) : Type ℓ where
  pub queue : Channel Message
  pub batch : List Message
  pub sink : S

-- A call of `Insert`, and the two cases of the select.
pub data Event : Type 0 where
  inserts : Message → Event
  receives ticks : Event

module _ {ℓ} {S : Type ℓ} where
  abbrev pub new_pipeline : S → Pipeline S
  new_pipeline s = record {
    queue = record { capacity = queue_capacity; items = [] };
    batch = [];
    sink = s;
  }

  -- `Insert`.
  unfoldable pub insert : Message → Pipeline S → Pipeline S
  insert m p = record p { queue = try_send m p.queue }

  module _ (flush : List Message → S → S) where
    -- `s.flush(batch); batch = batch[:0]`.
    unfoldable pub flush_batch : Pipeline S → Pipeline S
    flush_batch p = record p { sink = flush p.batch p.sink; batch = [] }

    -- A message from the queue; it waits where the queue is empty.
    unfoldable pub receive_from : List Message → Pipeline S → Pipeline S
    unfolding flush_batch
    receive_from [] p = p
    receive_from (m ∷ ms) p =
        let taken = record p { queue = record p.queue { items = ms }; batch = p.batch ++ m ∷ [] } in
        if leb batch_size (length taken.batch) then flush_batch taken else taken

    -- The ticker.
    unfoldable pub tick_from : List Message → Pipeline S → Pipeline S
    unfolding flush_batch
    tick_from [] p = p
    tick_from (m ∷ ms) p = flush_batch p

    unfoldable pub drain_step : Event → Pipeline S → Pipeline S
    unfolding insert
    drain_step (inserts m) p = insert m p
    drain_step receives p = receive_from p.queue.items p
    drain_step ticks p = tick_from p.batch p

    unfoldable pub drain_run : List Event → Pipeline S → Pipeline S
    drain_run [] p = p
    drain_run (e ∷ es) p = drain_run es (drain_step e p)
