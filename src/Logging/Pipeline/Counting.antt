-- ===== src/Logging/Pipeline/Counting.antt =====
-- The size of the channel of the log and the counter of the entries that it did not take
-- (internal/logging/pipeline.go).
use dns_filter.Prelude.{
  ℕ, ◌+◌, ◌-◌, ◌≤◌, ◌≡◌, refl, inl, inr, true, List, [], ◌∷◌, ◌++◌, some, arith, length,
  length-append, All, false,
}
use dns_filter.Logging.Pipeline.{
  LogEntry, Pipeline, new_pipeline, offer, count_drop, close, Consumer, receive,
}
use dns_filter.Logging.Pipeline.Steps.{
  World, Step, Reach, start, after_send, sends, hands_over, drops, reads, writes, receives, ticks,
  closes, here, next,
}
use dns_filter.Logging.Pipeline.Sound.{List-cases}

-- the senders that have decided to drop an entry and have not counted it
abbrev pub uncounted : World → ℕ
uncounted w = w.unread + length w.readers

-- The channel is within its buffer, and the counter, also once a sender has written to it, and with
-- the senders that have yet to count, is no more than the number of the entries lost.
pub record IsCounted (w : World) : Type 0 where
  pub bounded : length w.pipeline.channel ≤ w.pipeline.buffer_size
  pub counter : w.pipeline.dropped + uncounted w ≤ w.lost
  pub values : All (λ v. v + uncounted w ≤ w.lost) w.readers

All-weaken :
    (m n k l : ℕ) (vs : List ℕ) → m + l ≤ k + n → All (λ v. v + n ≤ l) vs → All (λ v. v + m ≤ k) vs
All-weaken m n k l [] le all = tt
All-weaken m n k l (v ∷ vs) le (h, all) = (omega (arith, h, le), All-weaken m n k l vs le all)

All-removed :
    (P : ℕ → Type 0) (before : List ℕ) (v : ℕ) (later : List ℕ)
    → All P (before ++ (v ∷ later))
    → P v × All P (before ++ later)
All-removed P [] v later all = all
All-removed P (x ∷ before) v later (h, all) =
    let (here', rest) = All-removed P before v later all in (here', (h, rest))

receive-length :
    (p p' : Pipeline) (c c' : Consumer)
    → receive p c ≡ some (p', c')
    → (length p'.channel ≡ length p.channel - 1)
      × (p'.buffer_size ≡ p.buffer_size)
      × (p'.dropped ≡ p.dropped)
unfolding receive
receive-length p p' c c' h = elim (List-cases p.channel) [
  | inl empty ↦ (ground (arith, h, empty), ground (arith, h, empty), ground (arith, h, empty))
  | inr (e, rest, has) ↦ (ground (arith, h, has), ground (arith, h, has), ground (arith, h, has))
]

sends-IsCounted :
    (e : LogEntry) (p' : Pipeline) (w : World)
    → offer e w.pipeline ≡ some (true, p')
    → IsCounted w
    → IsCounted (after_send e p' w)
unfolding offer
sends-IsCounted e p' w h s = record {
  bounded = ground (arith, h, s.bounded, length-append w.pipeline.channel (e ∷ []));
  counter = ground (arith, h, s.counter);
  values = s.values;
}

drops-IsCounted :
    (e : LogEntry) (p' : Pipeline) (w : World)
    → offer e w.pipeline ≡ some (false, p')
    → IsCounted w
    → IsCounted (record w { pipeline = p'; lost = w.lost + 1; unread = w.unread + 1 })
unfolding offer
drops-IsCounted e p' w h s = record {
  bounded = ground (arith, h, s.bounded);
  counter = ground (arith, h, s.counter);
  values = All-weaken _ (uncounted w) _ w.lost w.readers (omega arith) s.values;
}

reads-IsCounted :
    (n : ℕ) (w : World)
    → w.unread ≡ n + 1
    → IsCounted w
    → IsCounted (record w { unread = n; readers = w.pipeline.dropped ∷ w.readers })
reads-IsCounted n w h s = record {
  bounded = s.bounded;
  counter = omega (arith, h, s.counter);
  values = (
    omega (arith, h, s.counter),
    All-weaken _ (uncounted w) _ w.lost w.readers (omega (arith, h)) s.values,
  );
}

writes-IsCounted :
    (v : ℕ) (before later : List ℕ) (w : World)
    → w.readers ≡ before ++ (v ∷ later)
    → IsCounted w
    → IsCounted (record w { pipeline = count_drop v w.pipeline; readers = before ++ later })
writes-IsCounted v before later w h s =
    let (old, rest) =
      All-removed (λ n. n + uncounted w ≤ w.lost) before v later (rw (← h) s.values) in
    let size : length w.readers ≡ length (before ++ later) + 1 =
      rw (h, length-append before (v ∷ later), length-append before later) (omega arith) in
    record {
      bounded = s.bounded;
      counter = omega (arith, old, size);
      values = All-weaken _ (uncounted w) _ w.lost (before ++ later) (omega (arith, size)) rest;
    }

-- the consumer takes an entry from the channel, or finds its end
taken-IsCounted :
    (p p' : Pipeline) (c c' : Consumer) (w : World)
    → receive p c ≡ some (p', c')
    → length p.channel - 1 ≤ w.pipeline.buffer_size
    → p.buffer_size ≡ w.pipeline.buffer_size
    → p.dropped ≡ w.pipeline.dropped
    → (accepted : List LogEntry) → IsCounted w
    → IsCounted (record w { pipeline = p'; consumer = c'; accepted = accepted })
taken-IsCounted p p' c c' w h le size dropped accepted s =
    let (shorter, same, kept) = receive-length p p' c c' h in
    record {
      bounded = omega (arith, shorter, same, size, le);
      counter = omega (arith, kept, dropped, s.counter);
      values = s.values;
    }

Step-IsCounted : {w v : World} → Step w v → IsCounted w → IsCounted v
unfolding close
Step-IsCounted {w} (sends e p' h) s = sends-IsCounted e p' w h s
Step-IsCounted {w} (hands_over e p' c' running open' empty h) s =
    taken-IsCounted _ p' _ c' w h (omega arith) refl refl (w.accepted ++ (e ∷ [])) s
Step-IsCounted {w} (drops e p' h) s = drops-IsCounted e p' w h s
Step-IsCounted {w} (reads n h) s = reads-IsCounted n w h s
Step-IsCounted {w} (writes v before later h) s = writes-IsCounted v before later w h s
Step-IsCounted {w} (receives p' c' running h) s =
    taken-IsCounted w.pipeline p' w.consumer c' w h (omega (arith, s.bounded)) refl refl w.accepted
      s
Step-IsCounted {w} (ticks running) s = record {
  bounded = s.bounded;
  counter = s.counter;
  values = s.values;
}
Step-IsCounted {w} closes s = record { bounded = s.bounded; counter = s.counter; values = s.values }

pub Reach-IsCounted : (buffer : ℕ) {w : World} → Reach (start buffer) w → IsCounted w
unfolding new_pipeline
Reach-IsCounted buffer here = record { bounded = omega arith; counter = omega arith; values = tt }
Reach-IsCounted buffer (next r st) = Step-IsCounted st (Reach-IsCounted buffer r)
