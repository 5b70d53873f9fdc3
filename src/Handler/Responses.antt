-- ===== src/Handler/Responses.antt =====
-- What every query leaves behind (internal/dns/handler.go): one response, one more in the count,
-- the configuration untouched, and a cache in order.
use dns_filter.Prelude.{
  ◌+◌, ◌≡◌, refl, ap, ◌∙◌, inl, inr, false, List, [], ◌∷◌, ◌%◌, Option, none, some, arith,
  Option-cases,
}
use dns_filter.Message.{Msg, Question, DnsLib}
use dns_filter.Cache
use dns_filter.Cache.{Cache, u64_mod}
use dns_filter.Cache.Reads
use dns_filter.Identity.{Ip, Identity}
use dns_filter.Upstream
use dns_filter.Filter.Engine.{evaluate_for_group}
use dns_filter.Logging.Pipeline.{LogEntry, send}
use dns_filter.Handler.{
  Handler, Net, Env, Served, log, served, forward, answer_query, filter_query, serve_identified,
  serve_question, count_query, serve_first, serve_dns, extract_ip,
}
use dns_filter.Handler.Steps.{
  Action-cases, AuthMode-cases, identity_of, forward_failed, forward_answered, answer_query_hit,
  answer_query_miss, filter_query_block, filter_query_allow, serve_identified_captive,
  serve_identified_none, serve_question_lem, serve_dns_question,
}

pub record IsServed (h : Handler) (s : Served) : Type 0 where
  pub response : Msg
  pub one : s.written ≡ response ∷ []
  pub count : s.handler.query_count ≡ h.query_count
  pub upstreams : s.handler.upstreams ≡ h.upstreams
  pub filter : s.handler.filter ≡ h.filter
  pub identity : s.handler.identity ≡ h.identity
  pub cache : Reads.IsValid h.cache → Reads.IsValid s.handler.cache

pub log_lem :
    (entry : LogEntry) (h : Handler)
    → ((log entry h).0.query_count ≡ h.query_count)
      × ((log entry h).0.upstreams ≡ h.upstreams)
      × ((log entry h).0.filter ≡ h.filter)
      × ((log entry h).0.identity ≡ h.identity)
      × ((log entry h).0.cache ≡ h.cache)
unfolding log
log_lem entry h = elim (Option-cases h.logger) [
  | inl e ↦ ground (arith, e)
  | inr (p, e) ↦ elim (Option-cases (send entry p)) [
    | inl e' ↦ ground (arith, e, e')
    | inr (p', e') ↦ ground (arith, e, e')
  ]
]

served-IsServed :
    (m : Msg) (entry : LogEntry) (h h' : Handler)
    → h'.query_count ≡ h.query_count
    → h'.upstreams ≡ h.upstreams
    → h'.filter ≡ h.filter
    → h'.identity ≡ h.identity
    → (Reads.IsValid h.cache → Reads.IsValid h'.cache)
    → IsServed h (served m (log entry h'))
served-IsServed m entry h h' count ups filter id cache =
    let (lc, lu, lf, li, lca) = log_lem entry h' in
    record {
      response = m;
      one = refl;
      count = lc ∙ count;
      upstreams = lu ∙ ups;
      filter = lf ∙ filter;
      identity = li ∙ id;
      cache = λ v. rw lca (cache v);
    }

module _ (lib : DnsLib) (env : Env) (client : Ip) (id : Identity) (r : Msg) (q : Question) where
  forward-IsServed : (h : Handler) → IsServed h (forward lib env client id r q h)
  forward-IsServed h = elim (Option-cases (Upstream.resolve env.exchange h.upstreams r)) [
    | inl e ↦ rw (forward_failed lib env client id r q h e) (record {
      response = _;
      one = refl;
      count = refl;
      upstreams = refl;
      filter = refl;
      identity = refl;
      cache = λ v. v;
    })
    | inr (resp, e) ↦ rw (forward_answered lib env client id r q h resp e) (
        served-IsServed _ _ h _ refl refl refl refl
          (λ v. (Reads.operations-IsValid lib env.stored h.cache q.name q.qtype env.now resp v).0))
  ]

  -- a step that begins with another cache in order
  from_cache :
      (h : Handler) (c : Cache) (s : Served)
      → (Reads.IsValid h.cache → Reads.IsValid c)
      → IsServed (record h { cache = c }) s
      → IsServed h s
  from_cache h c s keeps v = record {
    response = v.response;
    one = v.one;
    count = v.count;
    upstreams = v.upstreams;
    filter = v.filter;
    identity = v.identity;
    cache = λ d. v.cache (keeps d);
  }

  answer_query-IsServed : (h : Handler) → IsServed h (answer_query lib env client id r q h)
  answer_query-IsServed h = of_get (Cache.get lib env.stored env.now q.name q.qtype h.cache) refl
    where
      keeps :
          Reads.IsValid h.cache
          → Reads.IsValid (Cache.get lib env.stored env.now q.name q.qtype h.cache).0
      keeps d = (Reads.operations-IsValid lib env.stored h.cache q.name q.qtype env.now r d).1

      of_get :
          (found : Cache × Option Msg)
          → Cache.get lib env.stored env.now q.name q.qtype h.cache ≡ found
          → IsServed h (answer_query lib env client id r q h)
      of_get (c, none) e =
          rw (answer_query_miss lib env client id r q h c e)
            (from_cache h c _ (rw e at keeps) (forward-IsServed (record h { cache = c })))
      of_get (c, some m) e =
          rw (answer_query_hit lib env client id r q h c m e)
            (served-IsServed _ _ h _ refl refl refl refl (rw e at keeps))

  filter_query-IsServed : (h : Handler) → IsServed h (filter_query lib env client id r q h)
  filter_query-IsServed h =
      elim (Action-cases (evaluate_for_group h.filter q.name id.group_id).action) [
        | inl e ↦ rw (filter_query_allow lib env client id r q h e) (answer_query-IsServed h)
        | inr e ↦
            rw (filter_query_block lib env client id r q h e)
              (served-IsServed _ _ h _ refl refl refl refl (λ v. v))
      ]

  serve_identified-IsServed : (h : Handler) → IsServed h (serve_identified lib env client id r q h)
  serve_identified-IsServed h = elim (AuthMode-cases id.auth_mode) [
    | inl e ↦ rw (serve_identified_none lib env client id r q h e) (filter_query-IsServed h)
    | inr e ↦
        rw (serve_identified_captive lib env client id r q h e)
          (served-IsServed _ _ h _ refl refl refl refl (λ v. v))
  ]

-- A query with a question, on a cache with no key twice, gets one response, whatever becomes of
-- it, and counts once; the policy, the identities and the servers stay as they are, and the cache
-- has no key twice.
pub serve_dns-responds :
    (lib : DnsLib) (net : Net) (env : Env) (r : Msg) (q : Question) (qs : List Question)
    (h : Handler)
    → r.question ≡ q ∷ qs
    → Reads.IsValid h.cache
    → let s = serve_dns lib net env r h in
      ((m : Msg) × (s.written ≡ m ∷ []))
      × (s.handler.query_count ≡ (h.query_count + 1) % u64_mod)
      × (s.handler.filter ≡ h.filter)
      × (s.handler.identity ≡ h.identity)
      × (s.handler.upstreams ≡ h.upstreams)
      × Reads.IsValid s.handler.cache
unfolding count_query
serve_dns-responds lib net env r q qs h e valid =
    let v : IsServed h (serve_question lib net env r q h) =
      rw (serve_question_lem lib net env r q h) (
        serve_identified-IsServed lib env (extract_ip net env.remote) (identity_of net env h) r q
          h) in
    rw (serve_dns_question lib net env r q qs h e) (
      (v.response, v.one),
      ap (λ n. (n + 1) % u64_mod) v.count,
      v.filter,
      v.identity,
      v.upstreams,
      v.cache valid,
    )

-- A message with no question is dropped: nothing is written, counted or changed.
pub serve_dns-nil :
    (lib : DnsLib) (net : Net) (env : Env) (r : Msg) (h : Handler)
    → r.question ≡ []
    → serve_dns lib net env r h ≡ record { handler = h; written = []; panicked = false }
unfolding serve_dns serve_first
serve_dns-nil lib net env r h e = ap (serve_first lib net env r h) e
