-- ===== src/Examples/Queries.antt =====
-- Queries (internal/dns/handler.go).
use dns_filter.Prelude.{
  ◌+◌, ◌%◌, ◌<◌, ◌≡◌, ◌⊎◌, inl, inr, refl, Bool, true, false, [], ◌∷◌, ◌++◌, none, some, codes,
  arith, length, lookup, text_beq,
}
use dns_filter.Identity.{Ip, nil_ip, v4, AuthMode, auth_none, auth_captive_portal, new_resolver}
use dns_filter.Message.{Question, Msg, new_msg}
use dns_filter.Filter.Engine.{Engine, Action, allow, block, evaluate_for_group, new_engine}
use dns_filter.Filter.Blacklist.{new_blacklist, add}
use dns_filter.Cache
use dns_filter.Cache.{u64_mod, extract_ttl, has_answer, key}
use dns_filter.Cache.Reads
use dns_filter.Upstream
use dns_filter.Logging.Pipeline.{Pipeline, new_pipeline, close}
use dns_filter.Handler.{Handler, new_handler, udp_addr, Net, Env, serve_dns}
use dns_filter.Handler.Steps.{identity_of}
use dns_filter.Handler.Policy.{Refused, by_policy}
use dns_filter.Handler.Responses.{serve_dns-responds}
use dns_filter.Handler.Steps.{is_stopped}
use dns_filter.Handler.Caching.{Allowed, Explained, serve_dns-again, serve_dns-rcode}
use dns_filter.Handler.Logs.{Panics, serve_dns-panicked}
use dns_filter.Examples.Answers.{
  lib, lib-IsLawful, name, answer, empty_cache, nothing_stored, exchange, servers,
}

abbrev net : Net
net = record { split_host = λ s. none; parse_ip = λ s. nil_ip }

abbrev env : Env
env = record {
  start = 10;
  now = 10;
  finish = 12;
  remote = udp_addr (v4 5);
  exchange = exchange;
  stored = nothing_stored;
}

abbrev later : Env
later = record env { now = 50; exchange = λ server r. none }

abbrev question : Question
question = record { name = name; qtype = 1 }

abbrev query : Msg
query = record new_msg { question = question ∷ [] }

abbrev pipeline : Pipeline
pipeline = new_pipeline true 4

abbrev strict : Handler
strict =
    new_handler servers empty_cache (new_engine (some (add (codes "ads.com") new_blacklist)) none)
      (new_resolver 1) (some pipeline) (v4 0) (v4 1)

abbrev lenient : Handler
lenient =
    new_handler servers empty_cache (new_engine none none) (new_resolver 1) (some pipeline) (v4 0)
      (v4 1)

strict_identity : (identity_of net env strict).auth_mode ≡ auth_none
unfolding dns_filter.Identity.resolve lookup new_handler new_resolver dns_filter.Identity.find_range
strict_identity = refl

strict_blocks :
    (evaluate_for_group strict.filter name (identity_of net env strict).group_id).action ≡ block
unfolding evaluate_for_group new_handler new_engine dns_filter.Filter.Blacklist.contains
    dns_filter.Filter.Blacklist.listed lookup add dns_filter.Prelude.insert new_blacklist text_beq
    dns_filter.Filter.Domain.normalize dns_filter.Prelude.ends_with dns_filter.Prelude.trim
    dns_filter.Prelude.lower_char
strict_blocks = refl

abbrev is_refused : Refused net env question strict
is_refused = by_policy strict_identity strict_blocks

cache-IsValid : Reads.IsValid strict.cache
unfolding new_handler Cache.new_cache
cache-IsValid = tt

serve_dns-responds_example :
    ((m : Msg) × ((serve_dns lib net env query strict).written ≡ m ∷ []))
    × ((serve_dns lib net env query strict).handler.query_count
        ≡ (strict.query_count + 1) % u64_mod)
    × ((serve_dns lib net env query strict).handler.filter ≡ strict.filter)
    × ((serve_dns lib net env query strict).handler.identity ≡ strict.identity)
    × ((serve_dns lib net env query strict).handler.upstreams ≡ servers)
    × Reads.IsValid (serve_dns lib net env query strict).handler.cache
unfolding new_handler
serve_dns-responds_example =
    serve_dns-responds lib net env query question [] strict refl cache-IsValid

lenient-Allowed : Allowed net env question lenient
unfolding dns_filter.Identity.resolve lookup new_handler new_resolver dns_filter.Identity.find_range
    evaluate_for_group new_engine dns_filter.Filter.Engine.category_of
    dns_filter.Filter.Engine.find_parent_category dns_filter.Filter.Engine.split_domain
    dns_filter.Filter.Domain.normalize dns_filter.Prelude.ends_with dns_filter.Prelude.trim
    dns_filter.Prelude.lower_char
lenient-Allowed = record { authenticated = refl; passes = refl }

first_misses :
    Cache.get lib nothing_stored 10 name 1 lenient.cache ≡ (record empty_cache { misses = 1 }, none)
unfolding Cache.get lookup new_handler Cache.new_cache
first_misses = refl

second_answers : Upstream.resolve exchange lenient.upstreams query ≡ some answer
unfolding Upstream.resolve new_handler text_beq
second_answers = refl

later-Allowed : Allowed net later question lenient
unfolding dns_filter.Identity.resolve lookup new_handler new_resolver dns_filter.Identity.find_range
    evaluate_for_group new_engine dns_filter.Filter.Engine.category_of
    dns_filter.Filter.Engine.find_parent_category dns_filter.Filter.Engine.split_domain
    dns_filter.Filter.Domain.normalize dns_filter.Prelude.ends_with dns_filter.Prelude.trim
    dns_filter.Prelude.lower_char
later-Allowed = record { authenticated = refl; passes = refl }

ttl_kept : extract_ttl (record empty_cache { misses = 1 }) answer ≡ 300000000000
unfolding extract_ttl Cache.new_cache Cache.min_ttl
ttl_kept = refl

still_fresh : 50 < 10 + extract_ttl (record empty_cache { misses = 1 }) answer
still_fresh = omega (arith, ttl_kept)

serve_dns-again_example :
    ((serve_dns lib net env query lenient).written ≡ lib.set_reply answer query ∷ [])
    × ((serve_dns lib net later query (serve_dns lib net env query lenient).handler).written
        ≡ lib.set_reply answer query ∷ [])
    × ((serve_dns lib net env query lenient).panicked ≡ is_stopped lenient)
serve_dns-again_example =
    serve_dns-again lib net env later query query question question [] [] lenient answer
      (record empty_cache { misses = 1 }) refl lenient-Allowed first_misses second_answers refl refl
      later-Allowed refl still_fresh

serve_dns-rcode_example :
    (m : Msg) × ((serve_dns lib net env query lenient).written ≡ m ∷ [])
    × Explained lib env lenient query m
serve_dns-rcode_example = serve_dns-rcode lib net env query question [] lenient refl lib-IsLawful

serve_dns-panicked_example :
    Panics env
      (record strict { logger = some (close pipeline) })
      query
      (serve_dns lib net env query (record strict { logger = some (close pipeline) }))
serve_dns-panicked_example =
    serve_dns-panicked lib net env query question []
      (record strict { logger = some (close pipeline) }) refl
