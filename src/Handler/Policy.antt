-- ===== src/Handler/Policy.antt =====
-- Queries that are refused (internal/dns/handler.go): the captive portal and the policy come
-- before the cache and the upstream servers.
use dns_filter.Prelude.{
  ℕ, ◌≡◌, refl, ap, ◌∙◌, sym, true, List, [], ◌∷◌, ◌++◌, Option, none, Text, codes,
}
use dns_filter.Message.{Msg, Question, DnsLib, IsLawful, new_msg, rcode_success}
use dns_filter.Identity.{Ip, auth_none, auth_captive_portal}
use dns_filter.Upstream.{Exchange}
use dns_filter.Filter.Engine.{evaluate_for_group, block}
use dns_filter.Logging.Pipeline.{LogEntry, blocked, reason_blacklist, reason_policy}
use dns_filter.Handler.{
  Handler, Net, Env, log, log_entry, served, serve_identified, count_query, serve_dns, extract_ip,
  redirect_answer, redirect_response, block_response, captive_response,
}
use dns_filter.Handler.Steps.{
  identity_of, filter_query_block, serve_identified_captive, serve_identified_none,
  serve_question_lem, serve_dns_question,
}
use dns_filter.Handler.Responses.{log_lem}

-- The client has to log in, or the policy blocks the name for the client's group.
pub data Refused (net : Net) (env : Env) (q : Question) (h : Handler) : Type 0 where
  by_portal : (identity_of net env h).auth_mode ≡ auth_captive_portal → Refused net env q h
  by_policy :
      (identity_of net env h).auth_mode ≡ auth_none
      → (evaluate_for_group h.filter q.name (identity_of net env h).group_id).action ≡ block
      → Refused net env q h

-- the address and the time to live that a refused query is answered with
abbrev pub refusal_ip :
    {net : Net} {env : Env} {q : Question} {h : Handler} → Refused net env q h → Ip
refusal_ip {h} (by_portal _) = h.portal_ip
refusal_ip {h} (by_policy _ _) = h.block_ip

abbrev pub refusal_ttl :
    {net : Net} {env : Env} {q : Question} {h : Handler} → Refused net env q h → ℕ
refusal_ttl (by_portal _) = 10
refusal_ttl (by_policy _ _) = 60

abbrev pub refusal_entry :
    {net : Net} {env : Env} {q : Question} {h : Handler} → Refused net env q h → LogEntry
refusal_entry {net} {env} {q} {h} (by_portal _) =
    log_entry env (extract_ip net env.remote) (identity_of net env h) q blocked reason_policy none
      (codes "captive")
refusal_entry {net} {env} {q} {h} (by_policy _ _) =
    log_entry env (extract_ip net env.remote) (identity_of net env h) q blocked reason_blacklist
      none (codes "blocked")

module _ (lib : DnsLib) (net : Net) (env : Env) (r : Msg) (q : Question) (qs : List Question)
    (h : Handler) (first : r.question ≡ q ∷ qs) (refused : Refused net env q h) where
  pub refused_lem :
      serve_dns lib net env r h
      ≡ count_query lib env (
          served
            (redirect_response lib r q (refusal_ip refused) (refusal_ttl refused))
            (log (refusal_entry refused) h))
  unfolding redirect_response captive_response block_response
  refused_lem =
      serve_dns_question lib net env r q qs h first
      ∙ ap (count_query lib env) (serve_question_lem lib net env r q h ∙ of_refused refused)
    where
      of_refused :
          (x : Refused net env q h)
          → serve_identified lib env (extract_ip net env.remote) (identity_of net env h) r q h
            ≡ served
                (redirect_response lib r q (refusal_ip x) (refusal_ttl x))
                (log (refusal_entry x) h)
      of_refused (by_portal e) =
          serve_identified_captive lib env (extract_ip net env.remote) (identity_of net env h) r q h
            e
      of_refused (by_policy e e') =
          serve_identified_none lib env (extract_ip net env.remote) (identity_of net env h) r q h e
          ∙ filter_query_block lib env (extract_ip net env.remote) (identity_of net env h) r q h e'

isolated :
    (lib : DnsLib) (net : Net) (env : Env) (r : Msg) (q : Question) (qs : List Question)
    (h : Handler)
    → r.question ≡ q ∷ qs
    → Refused net env q h
    → (x : Exchange) (y : Text → Option (List ℕ))
    → serve_dns lib net (record env { exchange = x; stored = y }) r h ≡ serve_dns lib net env r h
unfolding count_query
isolated lib net env r q qs h first (by_portal e) x y =
    refused_lem lib net (record env { exchange = x; stored = y }) r q qs h first (by_portal e)
    ∙ sym (refused_lem lib net env r q qs h first (by_portal e))
isolated lib net env r q qs h first (by_policy e e') x y =
    refused_lem lib net (record env { exchange = x; stored = y }) r q qs h first (by_policy e e')
    ∙ sym (refused_lem lib net env r q qs h first (by_policy e e'))

pub serve_dns-refused :
    (lib : DnsLib) (net : Net) (env : Env) (r : Msg) (q : Question) (qs : List Question)
    (h : Handler)
    → r.question ≡ q ∷ qs
    → (refused : Refused net env q h) → IsLawful lib
    → let s = serve_dns lib net env r h in
      ((m : Msg) × (s.written ≡ m ∷ [])
        × (m.answer ≡ redirect_answer q (refusal_ip refused) (refusal_ttl refused))
        × (m.rcode ≡ rcode_success)
        × (m.authoritative ≡ true))
      × (s.handler.cache ≡ h.cache)
      × ((x : Exchange) (y : Text → Option (List ℕ))
          → serve_dns lib net (record env { exchange = x; stored = y }) r h ≡ s)
unfolding redirect_response count_query
serve_dns-refused lib net env r q qs h first refused law =
    let e = refused_lem lib net env r q qs h first refused in
    (
      (
        redirect_response lib r q (refusal_ip refused) (refusal_ttl refused),
        ap (λ s. s.written) e,
        ap (λ l. l ++ redirect_answer q (refusal_ip refused) (refusal_ttl refused))
            (law.reply_answer new_msg r),
        law.reply_rcode new_msg r,
        refl,
      ),
      ap (λ s. s.handler.cache) e ∙ (log_lem (refusal_entry refused) h).4,
      isolated lib net env r q qs h first refused,
    )
