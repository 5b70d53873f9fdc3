-- ===== src/Logging/Pipeline/Steps.antt =====
-- Every interleaving of senders, ticks, the consumer and Stop (internal/logging/pipeline.go), as
-- the runs of a step relation. Send runs in many goroutines at once: the channel is guarded by its
-- own lock, but the counter `dropped` is neither atomic nor under a mutex, so that the decision to
-- drop an entry, the read of the counter and the write to it are steps of their own.
use dns_filter.Prelude.{ℕ, ◌+◌, ◌≡◌, true, false, List, [], ◌∷◌, ◌++◌, some}
use dns_filter.Logging.Pipeline.{
  LogEntry, Pipeline, new_pipeline, offer, count_drop, close, Consumer, new_consumer, receive, tick,
}

-- The pipeline and its consumer, with what the senders have offered so far: the entries that
-- the channel took, in order, and the number that it did not take; the number of senders that are
-- about to read the counter, and what those have read that are about to write it.
pub record World : Type 0 where
  pub pipeline : Pipeline
  pub consumer : Consumer
  pub accepted : List LogEntry
  pub lost : ℕ
  pub unread : ℕ
  pub readers : List ℕ

abbrev pub after_send : LogEntry → Pipeline → World → World
after_send e p' w = record w { pipeline = p'; accepted = w.accepted ++ (e ∷ []) }

-- the entry in the channel for the consumer that waits at it, also where the buffer is 0
abbrev pub handed : LogEntry → World → World
handed e w = record w {
  pipeline = record w.pipeline { channel = e ∷ [] };
  accepted = w.accepted ++ (e ∷ []);
}

pub data Step (w : World) : World → Type 0 where
  sends :
      (e : LogEntry) (p' : Pipeline)
      → offer e w.pipeline ≡ some (true, p')
      → Step w (after_send e p' w)
  hands_over :
      (e : LogEntry) (p' : Pipeline) (c' : Consumer)
      → w.consumer.has_returned ≡ false
      → w.pipeline.is_closed ≡ false
      → w.pipeline.channel ≡ []
      → receive (handed e w).pipeline w.consumer ≡ some (p', c')
      → Step w (record (handed e w) { pipeline = p'; consumer = c' })
  drops :
      (e : LogEntry) (p' : Pipeline)
      → offer e w.pipeline ≡ some (false, p')
      → Step w (record w { pipeline = p'; lost = w.lost + 1; unread = w.unread + 1 })
  reads :
      (n : ℕ)
      → w.unread ≡ n + 1
      → Step w (record w { unread = n; readers = w.pipeline.dropped ∷ w.readers })
  writes :
      (v : ℕ) (before later : List ℕ)
      → w.readers ≡ before ++ (v ∷ later)
      → Step w (record w { pipeline = count_drop v w.pipeline; readers = before ++ later })
  receives :
      (p' : Pipeline) (c' : Consumer)
      → w.consumer.has_returned ≡ false
      → receive w.pipeline w.consumer ≡ some (p', c')
      → Step w (record w { pipeline = p'; consumer = c' })
  ticks :
      w.consumer.has_returned ≡ false → Step w (record w { consumer = tick w.pipeline w.consumer })
  closes : Step w (record w { pipeline = close w.pipeline })

pub data Reach (w : World) : World → Type 0 where
  here : Reach w w
  next : {u v : World} → Reach w u → Step u v → Reach w v

abbrev pub start : ℕ → World
start buffer = record {
  pipeline = new_pipeline true buffer;
  consumer = new_consumer;
  accepted = [];
  lost = 0;
  unread = 0;
  readers = [];
}
