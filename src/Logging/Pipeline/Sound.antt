-- ===== src/Logging/Pipeline/Sound.antt =====
-- The invariant of the log (internal/logging/pipeline.go), under sending and flushing.
use dns_filter.Prelude.{
  ◌<◌, ◌≡◌, refl, ◌∙◌, sym, true, List, [], ◌∷◌, ◌++◌, append_assoc, some, arith, length, ◌⊎◌, inl,
  inr,
}
use dns_filter.Logging.Pipeline.{LogEntry, Pipeline, offer, Consumer, flush, flush_if_any, tick}
use dns_filter.Logging.Pipeline.Steps.{World, after_send}

pub record IsSound (w : World) : Type 0 where
  pub pool : w.pipeline.has_pool ≡ true
  pub in_order : w.consumer.inserted ++ (w.consumer.batch ++ w.pipeline.channel) ≡ w.accepted
  pub batch_positive : 0 < w.pipeline.batch_size
  pub batch_bounded : length w.consumer.batch < w.pipeline.batch_size
  pub finished :
      w.consumer.has_returned ≡ true
      → (w.consumer.batch ≡ []) × (w.pipeline.channel ≡ []) × (w.pipeline.is_closed ≡ true)

regroup : (ws xs ys zs : List LogEntry) → ws ++ (xs ++ (ys ++ zs)) ≡ (ws ++ (xs ++ ys)) ++ zs
regroup ws xs ys zs = simp append_assoc

pub sends-IsSound :
    (e : LogEntry) (p' : Pipeline) (w : World)
    → offer e w.pipeline ≡ some (true, p')
    → IsSound w
    → IsSound (after_send e p' w)
unfolding offer
sends-IsSound e p' w h s = record {
  pool = ground (arith, h, s);
  in_order = ground (
    arith,
    h,
    regroup w.consumer.inserted w.consumer.batch w.pipeline.channel (e ∷ []),
    s.in_order,
  );
  batch_positive = ground (arith, h, s);
  batch_bounded = ground (arith, h, s);
  finished = λ r. ground (arith, h, s.finished r);
}

flush_lem :
    (p : Pipeline) (c : Consumer)
    → ((flush p c).has_returned ≡ c.has_returned) × ((flush p c).batch ≡ [])
unfolding flush
flush_lem p c = ground arith

flush-IsSound :
    (w : World) → IsSound w → IsSound (record w { consumer = flush w.pipeline w.consumer })
unfolding flush
flush-IsSound w s = record {
  pool = s.pool;
  in_order = ground (
    arith,
    s.pool,
    s.in_order,
    append_assoc w.consumer.inserted w.consumer.batch w.pipeline.channel,
  );
  batch_positive = s.batch_positive;
  batch_bounded = ground (arith, s.pool, s.batch_positive);
  finished = λ r.
      let (same, empty) = flush_lem w.pipeline w.consumer in
      let (_, channel, closed) = s.finished (sym same ∙ r) in (empty, channel, closed);
}

pub List-cases :
    (l : List LogEntry) → (l ≡ []) ⊎ ((e : LogEntry) × (es : List LogEntry) × (l ≡ e ∷ es))
List-cases [] = inl refl
List-cases (e ∷ es) = inr (e, es, refl)

flush_if_any-cases :
    (p : Pipeline) (c : Consumer) → (flush_if_any p c ≡ c) ⊎ (flush_if_any p c ≡ flush p c)
flush_if_any-cases p c = elim (List-cases c.batch) [
  | inl e ↦ inl (ground (arith, e))
  | inr (x, xs, e) ↦ inr (ground (arith, e))
]

pub flush_if_any-IsSound :
    (w : World) → IsSound w → IsSound (record w { consumer = flush_if_any w.pipeline w.consumer })
flush_if_any-IsSound w s = elim (flush_if_any-cases w.pipeline w.consumer) [
  | inl e ↦ rw e s
  | inr e ↦ rw e (flush-IsSound w s)
]

pub ticks-IsSound :
    (w : World) → IsSound w → IsSound (record w { consumer = tick w.pipeline w.consumer })
unfolding tick
ticks-IsSound w s = flush_if_any-IsSound w s

pub flush_if_any-batch : (p : Pipeline) (c : Consumer) → (flush_if_any p c).batch ≡ []
unfolding flush
flush_if_any-batch p c = elim (List-cases c.batch) [
  | inl e ↦ ground (arith, e)
  | inr (x, xs, e) ↦ ground (arith, e)
]
