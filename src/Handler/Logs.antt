-- ===== src/Handler/Logs.antt =====
-- What a query leaves in the log, and when the log brings the handler down (internal/dns/handler.go).
use dns_filter.Prelude.{
  ◌<◌, ◌≡◌, refl, ap, ◌∙◌, ◌⊎◌, inl, inr, false, List, [], ◌∷◌, ◌++◌, Option, none, some, arith,
  Option-cases, length,
}
use dns_filter.Message.{Msg, Question, DnsLib}
use dns_filter.Cache
use dns_filter.Cache.{Cache}
use dns_filter.Identity.{Ip, Identity, auth_none}
use dns_filter.Upstream
use dns_filter.Filter.Engine.{evaluate_for_group, block}
use dns_filter.Logging.Pipeline.{LogEntry, Pipeline, send, blocked, reason_blacklist}
use dns_filter.Handler.{
  Handler, Net, Env, Served, log, count_query, serve_dns, extract_ip, answer_query, forward,
}
use dns_filter.Handler.Steps.{
  identity_of, is_stopped, log-panicked, Action-cases, AuthMode-cases, answer_query_hit,
  answer_query_miss, forward_answered, forward_failed,
}
use dns_filter.Handler.Policy.{Refused, by_portal, by_policy, refused_lem, refusal_entry}
use dns_filter.Handler.Caching.{Allowed, allowed_lem}

abbrev pub Panics : Env → Handler → Msg → Served → Type 0
Panics env h r s =
    (s.panicked ≡ is_stopped h)
    ⊎ ((s.panicked ≡ false) × (Upstream.resolve env.exchange h.upstreams r ≡ none))

forward-Panics :
    (lib : DnsLib) (env : Env) (client : Ip) (id : Identity) (r : Msg) (q : Question) (h : Handler)
    → Panics env h r (forward lib env client id r q h)
forward-Panics lib env client id r q h =
    elim (Option-cases (Upstream.resolve env.exchange h.upstreams r)) [
      | inl e ↦ inr (ap (λ s. s.panicked) (forward_failed lib env client id r q h e), e)
      | inr (resp, e) ↦ inl (
          ap (λ s. s.panicked) (forward_answered lib env client id r q h resp e) ∙ log-panicked _ _)
    ]

answer_query-Panics :
    (lib : DnsLib) (env : Env) (client : Ip) (id : Identity) (r : Msg) (q : Question) (h : Handler)
    → Panics env h r (answer_query lib env client id r q h)
answer_query-Panics lib env client id r q h =
    of_get (Cache.get lib env.stored env.now q.name q.qtype h.cache) refl
  where
    of_get :
        (found : Cache × Option Msg)
        → Cache.get lib env.stored env.now q.name q.qtype h.cache ≡ found
        → Panics env h r (answer_query lib env client id r q h)
    of_get (c, none) e =
        rw (answer_query_miss lib env client id r q h c e)
          (forward-Panics lib env client id r q (record h { cache = c }))
    of_get (c, some m) e =
        inl
          (ap (λ s. s.panicked) (answer_query_hit lib env client id r q h c m e) ∙ log-panicked _ _)

-- A query with a question brings the handler down exactly when the log was stopped before it; or
-- else it does not, and every upstream server fails.
pub serve_dns-panicked :
    (lib : DnsLib) (net : Net) (env : Env) (r : Msg) (q : Question) (qs : List Question)
    (h : Handler)
    → r.question ≡ q ∷ qs
    → Panics env h r (serve_dns lib net env r h)
unfolding count_query
serve_dns-panicked lib net env r q qs h first = any
  where
    refused_panics : Refused net env q h → (serve_dns lib net env r h).panicked ≡ is_stopped h
    refused_panics x =
        ap (λ s. s.panicked) (refused_lem lib net env r q qs h first x)
        ∙ log-panicked (refusal_entry x) h

    any : Panics env h r (serve_dns lib net env r h)
    any = elim (AuthMode-cases (identity_of net env h).auth_mode) [
      | inr portal ↦ inl (refused_panics (by_portal portal))
      | inl authenticated ↦
          elim (Action-cases
            (evaluate_for_group h.filter q.name (identity_of net env h).group_id).action) [
              | inr blocked' ↦ inl (refused_panics (by_policy authenticated blocked'))
              | inl passes ↦
                  let ok : Allowed net env q h = record {
                    authenticated = authenticated;
                    passes = passes;
                  } in
                  rw (allowed_lem lib net env r q qs h first ok) (
                    answer_query-Panics lib env (extract_ip net env.remote) (identity_of net env h)
                      r q h)
            ]
    ]

-- A query that the policy blocks, of a client that need not log in, is logged once while the log
-- is open and has room, with the blacklist as its reason and with no category, also when it was
-- blocked for its category.
pub serve_dns-logs_blocked :
    (lib : DnsLib) (net : Net) (env : Env) (r : Msg) (q : Question) (qs : List Question)
    (h : Handler) (p : Pipeline)
    → r.question ≡ q ∷ qs
    → (identity_of net env h).auth_mode ≡ auth_none
    → (evaluate_for_group h.filter q.name (identity_of net env h).group_id).action ≡ block
    → h.logger ≡ some p
    → p.is_closed ≡ false
    → length p.channel < p.buffer_size
    → (e : LogEntry) × ((serve_dns lib net env r h).handler.logger
        ≡ some (record p { channel = p.channel ++ (e ∷ []) }))
      × (e.domain ≡ q.name)
      × (e.action ≡ blocked)
      × (e.block_reason ≡ reason_blacklist)
      × (e.category_id ≡ none)
unfolding count_query log send
serve_dns-logs_blocked lib net env r q qs h p first auth blocked' has open' room =
    let x : Refused net env q h = by_policy auth blocked' in
    (
      refusal_entry x,
      ap (λ s. s.handler.logger) (refused_lem lib net env r q qs h first x)
          ∙ ground (arith, has, open', room),
      refl,
      refl,
      refl,
      refl,
    )
