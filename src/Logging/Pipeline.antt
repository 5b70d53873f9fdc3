-- ===== src/Logging/Pipeline.antt =====
-- internal/logging/models.go and internal/logging/pipeline.go: log entries, the bounded channel
-- and its consumer.
pub mod Steps
pub mod Sound
pub mod Counting
pub mod Conservation
use dns_filter.Prelude.{
  ℕ, ◌+◌, ◌%◌, ◌^◌, Bool, true, false, List, [], ◌∷◌, ◌++◌, Option, none, some, ltb, leb,
  if◌then◌else◌, Text, length,
}
use dns_filter.Identity.{Ip}

pub data LogAction : Type 0 where
  allowed blocked cached : LogAction

pub data BlockReason : Type 0 where
  reason_none reason_blacklist reason_category reason_policy : BlockReason

-- Entry; `response_ns` is the latency before its conversion to float32 milliseconds
pub record LogEntry : Type 0 where
  pub queried_at : ℕ
  pub client_ip : Ip
  pub user_id : Option ℕ
  pub group_id : ℕ
  pub domain : Text
  pub query_type : ℕ
  pub action : LogAction
  pub block_reason : BlockReason
  pub category_id : Option ℕ
  pub response_ip : Option Ip
  pub response_ns : ℕ
  pub upstream : Text

-- Pipeline, the entries in the channel in their order
pub record Pipeline : Type 0 where
  pub channel : List LogEntry
  pub buffer_size : ℕ
  pub is_closed : Bool
  pub has_pool : Bool
  pub batch_size : ℕ
  pub flush_interval : ℕ
  pub dropped : ℕ

-- NewPipeline
unfoldable pub new_pipeline : Bool → ℕ → Pipeline
new_pipeline pool buffer = record {
  channel = [];
  buffer_size = buffer;
  is_closed = false;
  has_pool = pool;
  batch_size = 5000;
  flush_interval = 1000000000;
  dropped = 0;
}

-- the `select` of Pipeline.Send, while no receiver waits at the empty channel: whether the channel
-- took the entry; `none` is the panic of a send on a closed channel
unfoldable pub offer : LogEntry → Pipeline → Option (Bool × Pipeline)
offer e p =
    if p.is_closed
    then none
    else if ltb (length p.channel) p.buffer_size
    then some (true, record p { channel = p.channel ++ (e ∷ []) })
    else some (false, p)

-- the write of `p.dropped++`, with the value that was read for it before
abbrev pub count_drop : ℕ → Pipeline → Pipeline
count_drop read p = record p { dropped = (read + 1) % 2 ^ 64 }

abbrev pub after_offer : Option (Bool × Pipeline) → Option Pipeline
after_offer none = none
after_offer (some (true, p)) = some p
after_offer (some (false, p)) = some (count_drop p.dropped p)

-- Pipeline.Send that runs alone; Steps has the interleavings of many, whose `p.dropped++` is not atomic
unfoldable pub send : LogEntry → Pipeline → Option Pipeline
unfolding offer
send e p = after_offer (offer e p)

-- the `close` of Pipeline.Stop
unfoldable pub close : Pipeline → Pipeline
close p = record p { is_closed = true }

-- Pipeline.Pending
unfoldable pub pending : Pipeline → ℕ
pending p = length p.channel

-- the goroutine of Pipeline.consume: its batch, the entries that it has handed to the database
-- in order, and whether it has returned
pub record Consumer : Type 0 where
  pub batch : List LogEntry
  pub inserted : List LogEntry
  pub has_returned : Bool

abbrev pub new_consumer : Consumer
new_consumer = record { batch = []; inserted = []; has_returned = false }

-- Pipeline.flush, which does nothing without a pool, and the reset of the batch after it
unfoldable pub flush : Pipeline → Consumer → Consumer
flush p c =
    if p.has_pool
    then record c { batch = []; inserted = c.inserted ++ c.batch }
    else record c { batch = [] }

abbrev pub flush_if_any : Pipeline → Consumer → Consumer
flush_if_any p c = elim c.batch [ [] ↦ c | e ∷ es ↦ flush p c ]

-- the first case of the select: an entry, or the end of the closed channel
unfoldable pub receive : Pipeline → Consumer → Option (Pipeline × Consumer)
receive p c = elim p.channel [
  | [] ↦ if p.is_closed then some (p, record (flush_if_any p c) { has_returned = true }) else none
  | e ∷ rest ↦
      let p' = record p { channel = rest } in
      let c' = record c { batch = c.batch ++ (e ∷ []) } in
      some (p', if leb p.batch_size (length c'.batch) then flush p' c' else c')
]

-- the second case of the select
unfoldable pub tick : Pipeline → Consumer → Consumer
tick p c = flush_if_any p c
