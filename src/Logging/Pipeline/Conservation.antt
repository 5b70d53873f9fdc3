-- ===== src/Logging/Pipeline/Conservation.antt =====
-- What every run of the log conserves (internal/logging/pipeline.go).
use dns_filter.Prelude.{
  ℕ, ◌+◌, ◌%◌, ◌^◌, ◌≤◌, ◌<◌, ◌≡◌, refl, ap, ◌∙◌, true, false, List, [], ◌∷◌, ◌++◌, append-nil,
  append_assoc, some, arith, leb, length, Bool-cases, inl, inr,
}
use dns_filter.Logging.Pipeline.{
  LogEntry, Pipeline, new_pipeline, offer, close, Consumer, flush, flush_if_any, receive,
}
use dns_filter.Logging.Pipeline.Steps.{
  World, Step, Reach, start, handed, sends, hands_over, drops, reads, writes, receives, ticks,
  closes, here, next,
}
use dns_filter.Logging.Pipeline.Counting.{uncounted, Reach-IsCounted}
use dns_filter.Logging.Pipeline.Sound.{
  IsSound, sends-IsSound, List-cases, flush_if_any-IsSound, ticks-IsSound, flush_if_any-batch,
}

-- the consumer after the end of the closed channel
abbrev returned : World → World
returned w = record w {
  consumer = record (flush_if_any w.pipeline w.consumer) { has_returned = true };
}

returned-IsSound :
    (w : World)
    → w.pipeline.channel ≡ []
    → w.pipeline.is_closed ≡ true
    → IsSound w
    → IsSound (returned w)
returned-IsSound w empty closed s =
    let f = flush_if_any-IsSound w s in
    record {
      pool = f.pool;
      in_order = f.in_order;
      batch_positive = f.batch_positive;
      batch_bounded = f.batch_bounded;
      finished = λ r. (flush_if_any-batch w.pipeline w.consumer, empty, closed);
    }

-- the consumer after an entry, before it looks at the size of the batch
abbrev took : LogEntry → List LogEntry → World → World
took e rest w = record w {
  pipeline = record w.pipeline { channel = rest };
  consumer = record w.consumer { batch = w.consumer.batch ++ (e ∷ []) };
}

took-in_order :
    (e : LogEntry) (rest : List LogEntry) (w : World)
    → w.pipeline.channel ≡ e ∷ rest
    → IsSound w
    → (took e rest w).consumer.inserted ++ ((took e rest w).consumer.batch ++ rest) ≡ w.accepted
took-in_order e rest w has s =
    ap (λ l. w.consumer.inserted ++ l) (append_assoc w.consumer.batch (e ∷ []) rest)
    ∙ (rw (← has) s.in_order)

took-IsSound :
    (e : LogEntry) (rest : List LogEntry) (w : World)
    → w.pipeline.channel ≡ e ∷ rest
    → w.consumer.has_returned ≡ false
    → leb w.pipeline.batch_size (length (w.consumer.batch ++ (e ∷ []))) ≡ false
    → IsSound w
    → IsSound (took e rest w)
took-IsSound e rest w has running small s = record {
  pool = s.pool;
  in_order = took-in_order e rest w has s;
  batch_positive = s.batch_positive;
  batch_bounded = ground (arith, small);
  finished = λ r. cc (running, r);
}

flushed-IsSound :
    (e : LogEntry) (rest : List LogEntry) (w : World)
    → w.pipeline.channel ≡ e ∷ rest
    → w.consumer.has_returned ≡ false
    → IsSound w
    → IsSound (record (took e rest w) {
      consumer = flush (took e rest w).pipeline (took e rest w).consumer;
    })
unfolding flush
flushed-IsSound e rest w has running s = record {
  pool = s.pool;
  in_order = ground (
    arith,
    s.pool,
    took-in_order e rest w has s,
    append_assoc w.consumer.inserted (w.consumer.batch ++ (e ∷ [])) rest,
  );
  batch_positive = s.batch_positive;
  batch_bounded = ground (arith, s.pool, s.batch_positive);
  finished = λ r. ground (arith, s.pool, running, r);
}

receives-IsSound :
    (p' : Pipeline) (c' : Consumer) (w : World)
    → w.consumer.has_returned ≡ false
    → receive w.pipeline w.consumer ≡ some (p', c')
    → IsSound w
    → IsSound (record w { pipeline = p'; consumer = c' })
unfolding receive
receives-IsSound p' c' w running h s = elim (List-cases w.pipeline.channel) [
  | inl empty ↦ elim (Bool-cases w.pipeline.is_closed) [
    | inl closed ↦
        let same_p : p' ≡ w.pipeline = ground (arith, h, empty, closed) in
        let same_c : c' ≡ (returned w).consumer = ground (arith, h, empty, closed) in
        rw (same_p, same_c) (returned-IsSound w empty closed s)
    | inr open' ↦ ground (arith, h, empty, open')
  ]
  | inr (e, rest, has) ↦
      elim (Bool-cases (leb w.pipeline.batch_size (length (w.consumer.batch ++ (e ∷ []))))) [
        | inl full ↦
            let same_p : p' ≡ (took e rest w).pipeline = ground (arith, h, has, full) in
            let same_c : c' ≡ flush (took e rest w).pipeline (took e rest w).consumer =
              ground (arith, h, has, full) in
            rw (same_p, same_c) (flushed-IsSound e rest w has running s)
        | inr small ↦
            let same_p : p' ≡ (took e rest w).pipeline = ground (arith, h, has, small) in
            let same_c : c' ≡ (took e rest w).consumer = ground (arith, h, has, small) in
            rw (same_p, same_c) (took-IsSound e rest w has running small s)
      ]
]

closes-IsSound : (w : World) → IsSound w → IsSound (record w { pipeline = close w.pipeline })
unfolding close
closes-IsSound w s = record {
  pool = s.pool;
  in_order = s.in_order;
  batch_positive = s.batch_positive;
  batch_bounded = s.batch_bounded;
  finished = λ r. ((s.finished r).0, (s.finished r).1, refl);
}

hands_over-IsSound :
    (e : LogEntry) (p' : Pipeline) (c' : Consumer) (w : World)
    → w.consumer.has_returned ≡ false
    → w.pipeline.channel ≡ []
    → receive (handed e w).pipeline w.consumer ≡ some (p', c')
    → IsSound w
    → IsSound (record (handed e w) { pipeline = p'; consumer = c' })
hands_over-IsSound e p' c' w running empty h s =
    receives-IsSound p' c' (handed e w) running h record {
      pool = s.pool;
      in_order = ground (
        arith,
        empty,
        s.in_order,
        append-nil w.consumer.batch,
        append_assoc w.consumer.inserted w.consumer.batch (e ∷ []),
      );
      batch_positive = s.batch_positive;
      batch_bounded = s.batch_bounded;
      finished = λ r. cc (running, r);
    }

-- the counter and those who count are no part of what the log holds
same_log :
    (w : World) (readers : List ℕ) (dropped : ℕ) (unread lost : ℕ)
    → IsSound w
    → IsSound (record w {
      pipeline = record w.pipeline { dropped = dropped };
      lost = lost;
      unread = unread;
      readers = readers;
    })
same_log w readers dropped unread lost s = record {
  pool = s.pool;
  in_order = s.in_order;
  batch_positive = s.batch_positive;
  batch_bounded = s.batch_bounded;
  finished = s.finished;
}

drops-IsSound :
    (e : LogEntry) (p' : Pipeline) (w : World)
    → offer e w.pipeline ≡ some (false, p')
    → IsSound w
    → IsSound (record w { pipeline = p'; lost = w.lost + 1; unread = w.unread + 1 })
unfolding offer
drops-IsSound e p' w h s =
    let same : p' ≡ w.pipeline = ground (arith, h) in
    rw same (same_log w w.readers w.pipeline.dropped (w.unread + 1) (w.lost + 1) s)

Step-IsSound : {w v : World} → Step w v → IsSound w → IsSound v
Step-IsSound {w} (sends e p' h) s = sends-IsSound e p' w h s
Step-IsSound {w} (hands_over e p' c' running open' empty h) s =
    hands_over-IsSound e p' c' w running empty h s
Step-IsSound {w} (drops e p' h) s = drops-IsSound e p' w h s
Step-IsSound {w} (reads n h) s =
    same_log w (w.pipeline.dropped ∷ w.readers) w.pipeline.dropped n w.lost s
Step-IsSound {w} (writes v before later h) s =
    same_log w (before ++ later) ((v + 1) % 2 ^ 64) w.unread w.lost s
Step-IsSound {w} (receives p' c' running h) s = receives-IsSound p' c' w running h s
Step-IsSound {w} (ticks running) s = ticks-IsSound w s
Step-IsSound {w} closes s = closes-IsSound w s

start-IsSound : (buffer : ℕ) → IsSound (start buffer)
unfolding new_pipeline
start-IsSound buffer = record {
  pool = refl;
  in_order = refl;
  batch_positive = omega arith;
  batch_bounded = omega arith;
  finished = λ r. cc r;
}

Reach-IsSound : (buffer : ℕ) {w : World} → Reach (start buffer) w → IsSound w
Reach-IsSound buffer here = start-IsSound buffer
Reach-IsSound buffer (next r st) = Step-IsSound st (Reach-IsSound buffer r)

-- With a database, in any run from the start, the entries handed to it, those of the batch and
-- those of the channel are, in this order, the entries that the channel took; the channel never
-- holds more than its buffer and the batch never fills up; and the counter of dropped entries, with
-- the senders that have yet to count one, is never more than the number of entries that the channel
-- did not take: it may be less, as increments of several senders can overwrite each other.
pub Reach-conserved :
    (buffer : ℕ) {w : World}
    → Reach (start buffer) w
    → (w.consumer.inserted ++ (w.consumer.batch ++ w.pipeline.channel) ≡ w.accepted)
      × (length w.pipeline.channel ≤ w.pipeline.buffer_size)
      × (length w.consumer.batch < w.pipeline.batch_size)
      × (w.pipeline.dropped + uncounted w ≤ w.lost)
Reach-conserved buffer r =
    let s = Reach-IsSound buffer r in
    let n = Reach-IsCounted buffer r in (s.in_order, n.bounded, s.batch_bounded, n.counter)

-- With a database, once the consumer has returned, in any run from the start, every entry that the
-- channel ever took has been handed to the database, in order, and once.
pub Reach-flushed :
    (buffer : ℕ) {w : World}
    → Reach (start buffer) w
    → w.consumer.has_returned ≡ true
    → w.consumer.inserted ≡ w.accepted
Reach-flushed buffer {w} r done =
    let s = Reach-IsSound buffer r in
    let (batch, channel, closed) = s.finished done in
    ground (arith, batch, channel, s.in_order, append-nil w.consumer.inserted)
