-- ===== src/Examples/Answers.antt =====
-- The cache, the upstream servers and the log (internal/cache, internal/dns/resolver.go, internal/logging).
use dns_filter.Prelude.{
  ℕ, ◌+◌, ◌-◌, ◌*◌, ◌%◌, ◌^◌, ◌≤◌, ◌<◌, ◌≡◌, ◌≢◌, ◌↔◌, ◌⊎◌, inl, inr, refl, Bool, true, false, List,
  [], ◌∷◌, ◌++◌, Option, none, some, Text, codes, lookup, arith, All, ltb, if◌then◌else◌, text_beq,
  text_eq, to_lower, length, has_char,
}
use dns_filter.Identity.{nil_ip, v4}
use dns_filter.Message.{a, Msg, new_msg, DnsLib, IsLawful}
use dns_filter.Cache.{
  Cache, Entry, new_cache, set, get, invalidate, key, extract_ttl, has_answer, l2_get, size, second,
}
use dns_filter.Cache.Ttl.{IsLeast, extract_ttl_bounds}
use dns_filter.Cache.Reads.{Answers, get-set, get-IsFresh}
use dns_filter.Cache.Invalidation.{get-invalidate}
use dns_filter.Upstream
use dns_filter.Upstream.{Exchange, IsFirstAnswer, resolve-IsFirstAnswer, resolve-none_iff}
use dns_filter.Logging.Pipeline.{
  LogEntry, allowed, reason_none, Pipeline, Consumer, offer, receive, close,
}
use dns_filter.Logging.Pipeline.Steps.{
  World, Reach, start, after_send, here, next, sends, drops, reads, writes, receives, closes,
}
use dns_filter.Logging.Pipeline.Counting.{uncounted}
use dns_filter.Logging.Pipeline.Conservation.{Reach-conserved, Reach-flushed}

-- a library that does what the laws say of it, and never packs a message
abbrev pub lib : DnsLib
lib = record {
  set_reply = λ m r. record m { rcode = 0 };
  set_rcode = λ m r c. record m { rcode = c };
  fqdn = λ s. s;
  type_to_string = λ n. codes "A";
  pack = λ m. none;
  unpack = λ bytes. none;
}

pub lib-IsLawful : IsLawful lib
lib-IsLawful = record {
  reply_answer = λ m r. refl;
  reply_rcode = λ m r. refl;
  rcode_answer = λ m r c. refl;
  rcode_rcode = λ m r c. refl;
}

abbrev pub name : Text
name = codes "ads.com."

abbrev pub answer : Msg
answer = record new_msg {
  answer = a (record { name = name; rrtype = 1; class = 1; ttl = 300 }) (v4 7) ∷ [];
}

abbrev pub empty_cache : Cache
empty_cache = new_cache (60 * second) (3600 * second)

abbrev filled : Cache
filled = record {
  entries = (codes "ads.com.|A", record { msg = answer; expires_at = 100 }) ∷ [];
  ttl_floor = 60;
  ttl_ceil = 3600;
  hits = 0;
  misses = 0;
  l2 = none;
}

abbrev pub nothing_stored : Answers
nothing_stored k = none

extract_ttl_bounds_example :
    (filled.ttl_floor ≤ extract_ttl filled answer)
    × (extract_ttl filled answer ≤ filled.ttl_ceil)
    × ((extract_ttl filled answer ≤ 3600 * second) ⊎ (extract_ttl filled answer ≡ filled.ttl_floor))
    × ((least : ℕ) × IsLeast 3600 answer.answer least
        × ((extract_ttl filled answer ≡ least * second)
            ⊎ ((least * second < filled.ttl_floor) × (extract_ttl filled answer ≡ filled.ttl_floor))
            ⊎ ((filled.ttl_ceil < least * second) × (extract_ttl filled answer ≡ filled.ttl_ceil))))
extract_ttl_bounds_example = extract_ttl_bounds filled answer (ground arith)

answer_stored : has_answer answer ≡ true
answer_stored = refl

get-set_example :
    (get lib nothing_stored 150 name 1 (set lib 10 name 1 answer filled)).1
    ≡ (if ltb 150 (10 + extract_ttl filled answer) then some answer else none)
get-set_example =
    get-set lib nothing_stored filled name name 1 1 answer 10 150 answer_stored refl refl

read_hit : (get lib nothing_stored 50 name 1 filled).1 ≡ some answer
unfolding get lookup text_beq key dns_filter.Prelude.lower_char
read_hit = refl

get-IsFresh_example :
    ((e : Entry) × (lookup (key lib name 1) filled.entries ≡ some e)
      × (50 < e.expires_at)
      × (e.msg ≡ answer))
    ⊎ (l2_get lib nothing_stored name 1 none ≡ some answer)
get-IsFresh_example = get-IsFresh lib nothing_stored filled name 1 50 answer read_hit

plain : has_char b'|' (to_lower name) ≡ false
unfolding has_char dns_filter.Prelude.lower_char
plain = refl

get-invalidate_example :
    ((get lib nothing_stored 50 name 1 (invalidate lib name filled).0).1 ≡ (
      if text_beq (to_lower name) (to_lower name)
      then l2_get lib nothing_stored name 1 none
      else (get lib nothing_stored 50 name 1 filled).1))
    × (size (invalidate lib name filled).0 + (invalidate lib name filled).1 ≡ size filled)
get-invalidate_example =
    get-invalidate lib nothing_stored filled name name 1 50 (tt, tt)
      (record { asked_plain = plain; gone_plain = plain })

abbrev pub exchange : Exchange
exchange server r = if text_beq server (codes "1.1.1.1:53") then some answer else none

abbrev pub servers : List Text
servers = codes "8.8.8.8:53" ∷ codes "1.1.1.1:53" ∷ []

second_answers : Upstream.resolve exchange servers new_msg ≡ some answer
unfolding Upstream.resolve text_beq
second_answers = refl

abbrev entry : LogEntry
entry = record {
  queried_at = 1;
  client_ip = nil_ip;
  user_id = none;
  group_id = 1;
  domain = name;
  query_type = 1;
  action = allowed;
  block_reason = reason_none;
  category_id = none;
  response_ip = none;
  response_ns = 2;
  upstream = codes "upstream";
}

abbrev with_entry : Pipeline
with_entry = record (start 2).pipeline { channel = entry ∷ [] }

abbrev one_sent : World
one_sent = after_send entry with_entry (start 2)

sent : offer entry (start 2).pipeline ≡ some (true, with_entry)
unfolding offer dns_filter.Logging.Pipeline.new_pipeline
sent = refl

abbrev closed : Pipeline
closed = close with_entry

abbrev one_taken : Pipeline
one_taken = record closed { channel = [] }

abbrev batched : Consumer
batched = record { batch = entry ∷ []; inserted = []; has_returned = false }

abbrev returned : Consumer
returned = record { batch = []; inserted = entry ∷ []; has_returned = true }

taken : receive closed (start 2).consumer ≡ some (one_taken, batched)
unfolding receive close dns_filter.Logging.Pipeline.new_pipeline
taken = refl

drained : receive one_taken batched ≡ some (one_taken, returned)
unfolding receive close dns_filter.Logging.Pipeline.flush dns_filter.Logging.Pipeline.new_pipeline
drained = refl

abbrev at_end : World
at_end = record one_sent { pipeline = one_taken; consumer = returned }

run : Reach (start 2) at_end
run =
    next
      (next (next (next here (sends entry with_entry sent)) closes)
        (receives one_taken batched refl taken))
      (receives one_taken returned refl drained)

Reach-conserved_example :
    (at_end.consumer.inserted ++ (at_end.consumer.batch ++ at_end.pipeline.channel)
      ≡ at_end.accepted)
    × (length at_end.pipeline.channel ≤ at_end.pipeline.buffer_size)
    × (length at_end.consumer.batch < at_end.pipeline.batch_size)
    × (at_end.pipeline.dropped + uncounted at_end ≤ at_end.lost)
Reach-conserved_example = Reach-conserved 2 run

-- two senders that drop an entry, read the counter one after the other, and then write it: one of the
-- two entries is not counted
abbrev counted_once : World
counted_once = record (start 0) { pipeline = record (start 0).pipeline { dropped = 1 }; lost = 2 }

no_room : offer entry (start 0).pipeline ≡ some (false, (start 0).pipeline)
unfolding offer dns_filter.Logging.Pipeline.new_pipeline
no_room = refl

lost_count : Reach (start 0) counted_once
unfolding dns_filter.Logging.Pipeline.new_pipeline
lost_count =
    let dropped2 =
      next (next here (drops entry (start 0).pipeline no_room))
        (drops entry (start 0).pipeline no_room) in
    let read2 = next (next dropped2 (reads 1 refl)) (reads 0 refl) in
    next (next read2 (writes 0 [] (0 ∷ []) refl)) (writes 0 [] [] refl)

Reach-flushed_example : at_end.consumer.inserted ≡ at_end.accepted
unfolding dns_filter.Logging.Pipeline.new_pipeline
Reach-flushed_example = Reach-flushed 2 run refl
