-- ===== src/Handler.antt =====
-- internal/dns/handler.go: what happens to a query.
pub mod Steps
pub mod Responses
pub mod Policy
pub mod Caching
pub mod Logs
use dns_filter.Prelude.{
  ℕ, ◌+◌, ◌-◌, ◌%◌, ◌^◌, Bool, true, false, List, [], ◌∷◌, ◌++◌, Option, none, some, nat_beq,
  if◌then◌else◌, Text, codes,
}
use dns_filter.Message.{
  Question, Header, Rr, a, aaaa, other, Msg, new_msg, type_a, type_aaaa, class_inet,
  rcode_server_failure, DnsLib,
}
use dns_filter.Cache
use dns_filter.Cache.{Cache, u64_mod}
use dns_filter.Upstream
use dns_filter.Upstream.{Exchange}
use dns_filter.Filter.Engine.{Engine, Action, allow, block, evaluate_for_group}
use dns_filter.Identity
use dns_filter.Identity.{Ip, nil_ip, v6, Identity, AuthMode, auth_none, auth_captive_portal}
use dns_filter.Logging.Pipeline.{
  LogAction, allowed, blocked, cached, BlockReason, reason_none, reason_blacklist, reason_policy,
  LogEntry, Pipeline, send,
}

pub record Handler : Type 0 where
  pub upstreams : List Text
  pub cache : Cache
  pub filter : Engine
  pub identity : Identity.Resolver
  pub logger : Option Pipeline
  pub block_ip : Ip
  pub portal_ip : Ip
  pub query_count : ℕ
  pub total_lat_ns : ℕ

-- NewHandler
unfoldable pub new_handler :
    List Text → Cache → Engine → Identity.Resolver → Option Pipeline → Ip → Ip → Handler
new_handler upstreams cache filter identity logger block_ip portal_ip = record {
  upstreams = upstreams;
  cache = cache;
  filter = filter;
  identity = identity;
  logger = logger;
  block_ip = block_ip;
  portal_ip = portal_ip;
  query_count = 0;
  total_lat_ns = 0;
}

-- Handler.QueryCount
unfoldable pub get_query_count : Handler → ℕ
get_query_count h = h.query_count

-- net.Addr, and the functions of package net that the program calls on text
pub data Addr : Type 0 where
  udp_addr tcp_addr : Ip → Addr
  other_addr : Text → Addr

pub record Net : Type 0 where
  pub split_host : Text → Option Text
  pub parse_ip : Text → Ip

-- extractIP
unfoldable pub extract_ip : Net → Addr → Ip
extract_ip net (udp_addr ip) = ip
extract_ip net (tcp_addr ip) = ip
extract_ip net (other_addr s) = elim (net.split_host s) [
  | none ↦ nil_ip
  | some host ↦ net.parse_ip host
]

-- What surrounds one query: the times at which it begins, is looked up and ends, the client, the
-- upstream servers, and what Redis holds.
pub record Env : Type 0 where
  pub start : ℕ
  pub now : ℕ
  pub finish : ℕ
  pub remote : Addr
  pub exchange : Exchange
  pub stored : Text → Option (List ℕ)

-- What one call of ServeDNS leaves: the new state, the messages written, and whether it panicked. A
-- panic ends the process: the state is then what was in memory at its end, and no query is served
-- from it.
pub record Served : Type 0 where
  pub handler : Handler
  pub written : List Msg
  pub panicked : Bool

-- extractAnswerIP
unfoldable pub extract_answer_ip : List Rr → Option Ip
extract_answer_ip [] = none
extract_answer_ip (a hdr ip ∷ rrs) = some ip
extract_answer_ip (aaaa hdr ip ∷ rrs) = extract_answer_ip rrs
extract_answer_ip (other hdr ∷ rrs) = extract_answer_ip rrs

abbrev rr_header : Question → ℕ → ℕ → Header
rr_header q rrtype ttl = record { name = q.name; rrtype = rrtype; class = class_inet; ttl = ttl }

-- the switch of sendBlockResponse and of sendCaptiveResponse
unfoldable pub redirect_answer : Question → Ip → ℕ → List Rr
redirect_answer q ip ttl =
    if nat_beq q.qtype type_a
    then a (rr_header q type_a ttl) ip ∷ []
    else if nat_beq q.qtype type_aaaa
    then aaaa (rr_header q type_aaaa ttl) (v6 0) ∷ []
    else []

-- the entry that Handler.log builds
abbrev pub log_entry :
    Env → Ip → Identity → Question → LogAction → BlockReason → Option Ip → Text → LogEntry
log_entry env client id q action reason response_ip upstream = record {
  queried_at = env.start;
  client_ip = client;
  user_id = if nat_beq id.user_id 0 then none else some id.user_id;
  group_id = id.group_id;
  domain = q.name;
  query_type = q.qtype;
  action = action;
  block_reason = reason;
  category_id = none;
  response_ip = response_ip;
  response_ns = env.finish - env.start;
  upstream = upstream;
}

-- the rest of Handler.log; the flag says that the send panicked
unfoldable pub log : LogEntry → Handler → Handler × Bool
log entry h = elim h.logger [
  | none ↦ (h, false)
  | some p ↦ elim (send entry p) [
    | none ↦ (h, true)
    | some p' ↦ (record h { logger = some p' }, false)
  ]
]

-- a message that is written, and the entry that is logged after it
abbrev served : Msg → Handler × Bool → Served
served m (h, bad) = record { handler = h; written = m ∷ []; panicked = bad }

module _ (lib : DnsLib) where
  unfoldable pub redirect_response : Msg → Question → Ip → ℕ → Msg
  unfolding redirect_answer
  redirect_response r q ip ttl =
      let reply = lib.set_reply new_msg r in
      record reply { authoritative = true; answer = reply.answer ++ redirect_answer q ip ttl }

  -- Handler.sendBlockResponse
  unfoldable pub block_response : Handler → Msg → Question → Msg
  unfolding redirect_response
  block_response h r q = redirect_response r q h.block_ip 60

  -- Handler.sendCaptiveResponse
  unfoldable pub captive_response : Handler → Msg → Question → Msg
  unfolding redirect_response
  captive_response h r q = redirect_response r q h.portal_ip 10

  abbrev pub server_failure : Msg → Msg
  server_failure r = lib.set_rcode new_msg r rcode_server_failure

  -- steps 5 to 7 of ServeDNS, after a cache miss
  unfoldable pub forward : Env → Ip → Identity → Msg → Question → Handler → Served
  forward env client id r q h = elim (Upstream.resolve env.exchange h.upstreams r) [
    | none ↦ record { handler = h; written = server_failure r ∷ []; panicked = false }
    | some resp ↦
        let h' = record h { cache = Cache.set lib env.now q.name q.qtype resp h.cache } in
        let reply = lib.set_reply resp r in
        served reply (
          log
            (log_entry env client id q allowed reason_none (extract_answer_ip reply.answer)
              (codes "upstream"))
            h')
  ]

  -- step 4, after the lookup in the cache
  unfoldable pub use_cache :
      Env → Ip → Identity → Msg → Question → Handler → Cache × Option Msg → Served
  unfolding forward
  use_cache env client id r q h (cache, none) =
      forward env client id r q (record h { cache = cache })
  use_cache env client id r q h (cache, some m) =
      let reply = lib.set_reply m r in
      served reply (
        log
          (log_entry env client id q cached reason_none (extract_answer_ip reply.answer)
            (codes "cache"))
          (record h { cache = cache }))

  unfoldable pub answer_query : Env → Ip → Identity → Msg → Question → Handler → Served
  unfolding use_cache
  answer_query env client id r q h =
      use_cache env client id r q h (Cache.get lib env.stored env.now q.name q.qtype h.cache)

  -- step 3, the policy
  unfoldable pub filter_query : Env → Ip → Identity → Msg → Question → Handler → Served
  unfolding answer_query
  filter_query env client id r q h = elim (evaluate_for_group h.filter q.name id.group_id).action [
    | block ↦
        served (block_response h r q)
          (log (log_entry env client id q blocked reason_blacklist none (codes "blocked")) h)
    | allow ↦ answer_query env client id r q h
  ]

  -- step 2, the captive portal
  unfoldable pub serve_identified : Env → Ip → Identity → Msg → Question → Handler → Served
  unfolding filter_query
  serve_identified env client id r q h = elim id.auth_mode [
    | auth_captive_portal ↦
        served (captive_response h r q)
          (log (log_entry env client id q blocked reason_policy none (codes "captive")) h)
    | auth_none ↦ filter_query env client id r q h
  ]

  -- `h.identity.Resolve(clientIP)`, whose error is always nil
  unfoldable pub identify : Env → Ip → Handler → Option Identity
  identify env client h = some (Identity.resolve h.identity env.now client)

  -- the deferred function of ServeDNS
  unfoldable pub count_query : Env → Served → Served
  count_query env s = record s {
    handler = record s.handler {
      query_count = (s.handler.query_count + 1) % u64_mod;
      total_lat_ns = (s.handler.total_lat_ns + (env.finish - env.start)) % u64_mod;
    };
  }

  -- steps 1 to 7
  unfoldable pub serve_question : Net → Env → Msg → Question → Handler → Served
  unfolding serve_identified identify extract_ip
  serve_question net env r q h =
      let client = extract_ip net env.remote in
      elim (identify env client h) [
        | none ↦ record { handler = h; written = server_failure r ∷ []; panicked = false }
        | some id ↦ serve_identified env client id r q h
      ]

  -- Handler.ServeDNS, by the questions of the message
  unfoldable pub serve_first : Net → Env → Msg → Handler → List Question → Served
  unfolding serve_question count_query
  serve_first net env r h [] = record { handler = h; written = []; panicked = false }
  serve_first net env r h (q ∷ qs) = count_query env (serve_question net env r q h)

  unfoldable pub serve_dns : Net → Env → Msg → Handler → Served
  unfolding serve_first
  serve_dns net env r h = serve_first net env r h r.question
