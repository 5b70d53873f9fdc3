-- ===== src/Handler/Steps.antt =====
-- The branches of ServeDNS (internal/dns/handler.go), one equation for each.
use dns_filter.Prelude.{
  ◌≡◌, refl, ap, ◌⊎◌, inl, inr, false, Bool, arith, List, [], ◌∷◌, none, some, codes,
}
use dns_filter.Message.{Msg, Question, DnsLib}
use dns_filter.Cache
use dns_filter.Cache.{Cache}
use dns_filter.Identity
use dns_filter.Identity.{Ip, Identity, AuthMode, auth_none, auth_captive_portal}
use dns_filter.Upstream
use dns_filter.Filter.Engine.{Action, evaluate_for_group, allow, block}
use dns_filter.Logging.Pipeline.{
  LogEntry, send, allowed, blocked, cached, reason_none, reason_blacklist, reason_policy,
}
use dns_filter.Handler.{
  Handler, Net, Env, log, log_entry, served, forward, use_cache, answer_query, filter_query,
  serve_identified, serve_question, identify, count_query, serve_first, serve_dns, server_failure,
  extract_answer_ip, block_response, captive_response, extract_ip,
}

-- Stop has closed the channel of the log.
abbrev pub is_stopped : Handler → Bool
is_stopped h = elim h.logger [ none ↦ false | some p ↦ p.is_closed ]

pub log-panicked : (entry : LogEntry) (h : Handler) → (log entry h).1 ≡ is_stopped h
unfolding log send
log-panicked entry h = ground arith

pub Action-cases : (x : Action) → (x ≡ allow) ⊎ (x ≡ block)
Action-cases allow = inl refl
Action-cases block = inr refl

pub AuthMode-cases : (x : AuthMode) → (x ≡ auth_none) ⊎ (x ≡ auth_captive_portal)
AuthMode-cases auth_none = inl refl
AuthMode-cases auth_captive_portal = inr refl

-- who the client of a query is
abbrev pub identity_of : Net → Env → Handler → Identity
identity_of net env h = Identity.resolve h.identity env.now (extract_ip net env.remote)

module _ (lib : DnsLib) (env : Env) (client : Ip) (id : Identity) (r : Msg) (q : Question)
    (h : Handler) where
  abbrev pub after_cache : Cache → Handler
  after_cache c = record h { cache = c }

  pub forward_failed :
      Upstream.resolve env.exchange h.upstreams r ≡ none
      → forward lib env client id r q h
        ≡ record { handler = h; written = server_failure lib r ∷ []; panicked = false }
  unfolding forward
  forward_failed e = rw (e, forward)

  pub forward_answered :
      (resp : Msg)
      → Upstream.resolve env.exchange h.upstreams r ≡ some resp
      → let reply = lib.set_reply resp r in
        forward lib env client id r q h
        ≡ served reply (
            log
              (log_entry env client id q allowed reason_none
                (extract_answer_ip reply.answer)
                (codes "upstream"))
              (after_cache (Cache.set lib env.now q.name q.qtype resp h.cache)))
  unfolding forward
  forward_answered resp e = rw (e, forward)

  pub answer_query_hit :
      (c : Cache) (m : Msg)
      → Cache.get lib env.stored env.now q.name q.qtype h.cache ≡ (c, some m)
      → let reply = lib.set_reply m r in
        answer_query lib env client id r q h
        ≡ served reply (
            log
              (log_entry env client id q cached reason_none
                (extract_answer_ip reply.answer)
                (codes "cache"))
              (after_cache c))
  unfolding answer_query use_cache
  answer_query_hit c m e = ap (use_cache lib env client id r q h) e

  pub answer_query_miss :
      (c : Cache)
      → Cache.get lib env.stored env.now q.name q.qtype h.cache ≡ (c, none)
      → answer_query lib env client id r q h ≡ forward lib env client id r q (after_cache c)
  unfolding answer_query use_cache
  answer_query_miss c e = ap (use_cache lib env client id r q h) e

  pub filter_query_block :
      (evaluate_for_group h.filter q.name id.group_id).action ≡ block
      → filter_query lib env client id r q h
        ≡ served
            (block_response lib h r q)
            (log (log_entry env client id q blocked reason_blacklist none (codes "blocked")) h)
  unfolding filter_query
  filter_query_block e = rw (e, filter_query)

  pub filter_query_allow :
      (evaluate_for_group h.filter q.name id.group_id).action ≡ allow
      → filter_query lib env client id r q h ≡ answer_query lib env client id r q h
  unfolding filter_query
  filter_query_allow e = rw (e, filter_query)

  pub serve_identified_captive :
      id.auth_mode ≡ auth_captive_portal
      → serve_identified lib env client id r q h
        ≡ served
            (captive_response lib h r q)
            (log (log_entry env client id q blocked reason_policy none (codes "captive")) h)
  unfolding serve_identified
  serve_identified_captive e = rw (e, serve_identified)

  pub serve_identified_none :
      id.auth_mode ≡ auth_none
      → serve_identified lib env client id r q h ≡ filter_query lib env client id r q h
  unfolding serve_identified
  serve_identified_none e = rw (e, serve_identified)

pub serve_question_lem :
    (lib : DnsLib) (net : Net) (env : Env) (r : Msg) (q : Question) (h : Handler)
    → serve_question lib net env r q h
      ≡ serve_identified lib env (extract_ip net env.remote) (identity_of net env h) r q h
unfolding serve_question identify
serve_question_lem lib net env r q h = refl

pub serve_dns_question :
    (lib : DnsLib) (net : Net) (env : Env) (r : Msg) (q : Question) (qs : List Question)
    (h : Handler)
    → r.question ≡ q ∷ qs
    → serve_dns lib net env r h ≡ count_query lib env (serve_question lib net env r q h)
unfolding serve_dns serve_first
serve_dns_question lib net env r q qs h e = ap (serve_first lib net env r h) e
