-- ===== src/Handler/Caching.antt =====
-- Queries that are answered (internal/dns/handler.go): from the upstream servers, and then from
-- the cache.
use dns_filter.Prelude.{
  ◌+◌, ◌<◌, ◌≡◌, refl, ap, ◌∙◌, sym, ◌⊎◌, inl, inr, true, List, [], ◌∷◌, Option, none, some,
  Option-cases,
}
use dns_filter.Message.{Msg, Question, DnsLib, IsLawful, rcode_success}
use dns_filter.Cache
use dns_filter.Cache.{Cache, has_answer, extract_ttl, key, count_hit}
use dns_filter.Cache.Reads
use dns_filter.Identity
use dns_filter.Identity.{Ip, Identity, auth_none, auth_captive_portal}
use dns_filter.Upstream
use dns_filter.Filter.Engine.{evaluate_for_group, allow}
use dns_filter.Handler.{
  Handler, Net, Env, Served, count_query, serve_dns, extract_ip, answer_query, forward,
  server_failure,
}
use dns_filter.Handler.Steps.{
  identity_of, is_stopped, log-panicked, filter_query_allow, serve_identified_none, Action-cases,
  serve_question_lem, serve_dns_question, AuthMode-cases, answer_query_hit, answer_query_miss,
  forward_answered, forward_failed,
}
use dns_filter.Handler.Responses.{log_lem}
use dns_filter.Handler.Policy.{Refused, by_portal, by_policy, serve_dns-refused}

-- The client need not log in, and the policy lets the name pass.
pub record Allowed (net : Net) (env : Env) (q : Question) (h : Handler) : Type 0 where
  pub authenticated : (identity_of net env h).auth_mode ≡ auth_none
  pub passes : (evaluate_for_group h.filter q.name (identity_of net env h).group_id).action ≡ allow

pub allowed_lem :
    (lib : DnsLib) (net : Net) (env : Env) (r : Msg) (q : Question) (qs : List Question)
    (h : Handler)
    → r.question ≡ q ∷ qs
    → Allowed net env q h
    → serve_dns lib net env r h
      ≡ count_query lib env
          (answer_query lib env (extract_ip net env.remote) (identity_of net env h) r q h)
allowed_lem lib net env r q qs h first ok =
    let id = identity_of net env h in
    let client = extract_ip net env.remote in
    serve_dns_question lib net env r q qs h first
    ∙ ap (count_query lib env) (
        serve_question_lem lib net env r q h
        ∙ serve_identified_none lib env client id r q h ok.authenticated
        ∙ filter_query_allow lib env client id r q h ok.passes)

-- It depends on the policy and on the identities alone.
same-Allowed :
    (net : Net) (env : Env) (q : Question) (h h' : Handler)
    → h'.filter ≡ h.filter
    → h'.identity ≡ h.identity
    → Allowed net env q h
    → Allowed net env q h'
same-Allowed net env q h h' same_filter same_identity ok =
    let same = ap (λ i. Identity.resolve i env.now (extract_ip net env.remote)) same_identity in
    record {
      authenticated = ap (λ id. id.auth_mode) same ∙ ok.authenticated;
      passes =
          ap (λ id. (evaluate_for_group h'.filter q.name id.group_id).action) same
          ∙ ap (λ f. (evaluate_for_group f q.name (identity_of net env h).group_id).action)
              same_filter
          ∙ ok.passes;
    }

-- Where an allowed query misses the cache and an upstream server gives an answer with records, the
-- client gets that answer, and so does the next allowed query with the same key (the name in lower
-- case and the type) before its time to live is over, whatever the servers and Redis would say
-- then; the first query brings the process down, so that there is no next, exactly where the log was
-- stopped before it.
pub serve_dns-again :
    (lib : DnsLib) (net : Net) (env env' : Env) (r r' : Msg) (q q' : Question)
    (qs qs' : List Question) (h : Handler) (resp : Msg) (c : Cache)
    → r.question ≡ q ∷ qs
    → Allowed net env q h
    → Cache.get lib env.stored env.now q.name q.qtype h.cache ≡ (c, none)
    → Upstream.resolve env.exchange h.upstreams r ≡ some resp
    → has_answer resp ≡ true
    → r'.question ≡ q' ∷ qs'
    → Allowed net env' q' h
    → key lib q'.name q'.qtype ≡ key lib q.name q.qtype
    → env'.now < env.now + extract_ttl c resp
    → ((serve_dns lib net env r h).written ≡ lib.set_reply resp r ∷ [])
      × ((serve_dns lib net env' r' (serve_dns lib net env r h).handler).written
          ≡ lib.set_reply resp r' ∷ [])
      × ((serve_dns lib net env r h).panicked ≡ is_stopped h)
unfolding count_query
serve_dns-again lib net env env' r r' q q' qs qs' h resp c first ok miss up full first' ok' same
      fresh =
    let id = identity_of net env h in
    let client = extract_ip net env.remote in
    let e =
      allowed_lem lib net env r q qs h first ok
      ∙ ap (count_query lib env) (
          answer_query_miss lib env client id r q h c miss
          ∙ forward_answered lib env client id r q (record h { cache = c }) resp up) in
    let h' = (serve_dns lib net env r h).handler in
    let cached : h'.cache ≡ Cache.set lib env.now q.name q.qtype resp c =
      ap (λ s. s.handler.cache) e ∙ (log_lem _ _).4 in
    let hit =
      ap (Cache.get lib env'.stored env'.now q'.name q'.qtype) cached
      ∙ (Reads.get-set_lem lib env'.stored c q.name q'.name q.qtype q'.qtype resp env.now env'.now
            full same).0
          fresh in
    let again =
      same-Allowed net env' q' h h' (ap (λ s. s.handler.filter) e ∙ (log_lem _ _).2)
        (ap (λ s. s.handler.identity) e ∙ (log_lem _ _).3) ok' in
    (
      ap (λ s. s.written) e,
      ap (λ s. s.written)
          (allowed_lem lib net env' r' q' qs' h' first' again
            ∙ ap (count_query lib env') (
                answer_query_hit lib env' (extract_ip net env'.remote) (identity_of net env' h') r'
                  q' h' _ resp hit)),
      ap (λ s. s.panicked) e ∙ log-panicked _ _,
    )

abbrev pub Explained : DnsLib → Env → Handler → Msg → Msg → Type 0
Explained lib env h r m =
    (m.rcode ≡ rcode_success)
    ⊎ ((m ≡ server_failure lib r) × (Upstream.resolve env.exchange h.upstreams r ≡ none))

abbrev Outcome : DnsLib → Env → Handler → Msg → Served → Type 0
Outcome lib env h r s = (m : Msg) × (s.written ≡ m ∷ []) × Explained lib env h r m

forward-Outcome :
    (lib : DnsLib) (env : Env) (client : Ip) (id : Identity) (r : Msg) (q : Question)
    (h h' : Handler)
    → IsLawful lib
    → h'.upstreams ≡ h.upstreams
    → Outcome lib env h r (forward lib env client id r q h')
forward-Outcome lib env client id r q h h' law same =
    elim (Option-cases (Upstream.resolve env.exchange h'.upstreams r)) [
      | inl e ↦ (
        server_failure lib r,
        ap (λ s. s.written) (forward_failed lib env client id r q h' e),
        inr (refl, ap (λ u. Upstream.resolve env.exchange u r) (sym same) ∙ e),
      )
      | inr (resp, e) ↦ (
        lib.set_reply resp r,
        ap (λ s. s.written) (forward_answered lib env client id r q h' resp e),
        inl (law.reply_rcode resp r),
      )
    ]

answer_query-Outcome :
    (lib : DnsLib) (env : Env) (client : Ip) (id : Identity) (r : Msg) (q : Question) (h : Handler)
    → IsLawful lib
    → Outcome lib env h r (answer_query lib env client id r q h)
answer_query-Outcome lib env client id r q h law =
    of_get (Cache.get lib env.stored env.now q.name q.qtype h.cache) refl
  where
    of_get :
        (found : Cache × Option Msg)
        → Cache.get lib env.stored env.now q.name q.qtype h.cache ≡ found
        → Outcome lib env h r (answer_query lib env client id r q h)
    of_get (c, none) e =
        rw (answer_query_miss lib env client id r q h c e)
          (forward-Outcome lib env client id r q h (record h { cache = c }) law refl)
    of_get (c, some m) e = (
      lib.set_reply m r,
      ap (λ s. s.written) (answer_query_hit lib env client id r q h c m e),
      inl (law.reply_rcode m r),
    )

-- With a library that keeps its documented laws, a query with a question gets a response that says
-- NOERROR, or else the one with SERVFAIL, and this only when all upstream servers fail: an
-- upstream NXDOMAIN or refusal reaches the client as NOERROR.
pub serve_dns-rcode :
    (lib : DnsLib) (net : Net) (env : Env) (r : Msg) (q : Question) (qs : List Question)
    (h : Handler)
    → r.question ≡ q ∷ qs
    → IsLawful lib
    → (m : Msg) × ((serve_dns lib net env r h).written ≡ m ∷ []) × Explained lib env h r m
unfolding count_query
serve_dns-rcode lib net env r q qs h first law =
    let id = identity_of net env h in
    elim (AuthMode-cases id.auth_mode) [
      | inr portal ↦ of_refused (by_portal portal)
      | inl authenticated ↦
          elim (Action-cases (evaluate_for_group h.filter q.name id.group_id).action) [
            | inr blocked' ↦ of_refused (by_policy authenticated blocked')
            | inl passes ↦
                let ok : Allowed net env q h = record {
                  authenticated = authenticated;
                  passes = passes;
                } in
                let (m, one, why) =
                  answer_query-Outcome lib env (extract_ip net env.remote) id r q h law in
                (m, ap (λ s. s.written) (allowed_lem lib net env r q qs h first ok) ∙ one, why)
          ]
    ]
  where
    of_refused : Refused net env q h → Outcome lib env h r (serve_dns lib net env r h)
    of_refused x =
        let ((m, one, _, code, _), _, _) = serve_dns-refused lib net env r q qs h first x law in
        (m, one, inl code)
