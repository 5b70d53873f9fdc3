-- ===== src/Api/Handlers/Paging.antt =====
-- What GetLogs of internal/api/handlers.go makes of the parameters of web/src/pages/Logs.tsx.
use dns_filter.Prelude.{
  ◌^◌, ◌<◌, ◌≡◌, refl, ◌∙◌, true, false, List, [], ◌∷◌, ◌++◌, Text, codes, text_beq, text_eq,
  lookup, arith, append_assoc, append-nil,
}
use dns_filter.Web.Page.{show}
use dns_filter.Web.Logs.{Logs, params, optional}
use dns_filter.Api.Numbers.{pos}
use dns_filter.Api.Numbers.Printing.{atoi-show}
use dns_filter.Api.Handlers.{log_filter, get_param}

-- a parameter that stands under another name is passed over
get_param-other :
    (name other v : Text) (q : List (Text × Text))
    → text_beq other name ≡ false
    → get_param name (optional other v ++ q) ≡ get_param name q
unfolding lookup
get_param-other name other [] q ne = refl
get_param-other name other (c ∷ v) q ne = rw (get_param, lookup, ne)

-- a parameter that is not sent is read as empty, and that is its value
get_param-own :
    (name v : Text) (q : List (Text × Text))
    → text_beq name name ≡ true
    → get_param name q ≡ []
    → get_param name (optional name v ++ q) ≡ v
unfolding lookup
get_param-own name [] q same rest = rest
get_param-own name (c ∷ v) q same rest = rw (get_param, lookup, same)

module _ {Figure : Type 0} (p : Logs Figure) where
  -- the parameters from one on
  from_date_to : List (Text × Text)
  from_date_to = optional (codes "date_to") p.date_to ++ []

  from_date_from : List (Text × Text)
  from_date_from = optional (codes "date_from") p.date_from ++ from_date_to

  from_client_ip : List (Text × Text)
  from_client_ip = optional (codes "client_ip") p.client_ip ++ from_date_from

  from_action : List (Text × Text)
  from_action = optional (codes "action") p.action ++ from_client_ip

  from_domain : List (Text × Text)
  from_domain = optional (codes "domain") p.domain ++ from_action

  abbrev sent : List (Text × Text)
  sent = (codes "limit", show 20) ∷ (codes "offset", show p.offset) ∷ from_domain

  params-sent : params p ≡ sent
  unfolding params from_domain from_action from_client_ip from_date_from from_date_to
  params-sent = simp (append_assoc, append-nil)

  sent-domain : get_param (codes "domain") sent ≡ p.domain
  unfolding from_domain from_action from_client_ip from_date_from from_date_to text_beq lookup
  sent-domain = get_param-own (codes "domain") p.domain from_action refl (
      get_param-other (codes "domain") (codes "action") p.action from_client_ip refl
      ∙ get_param-other (codes "domain") (codes "client_ip") p.client_ip from_date_from refl
      ∙ get_param-other (codes "domain") (codes "date_from") p.date_from from_date_to refl
      ∙ get_param-other (codes "domain") (codes "date_to") p.date_to [] refl)

  sent-action : get_param (codes "action") sent ≡ p.action
  unfolding from_domain from_action from_client_ip from_date_from from_date_to text_beq lookup
  sent-action =
      get_param-other (codes "action") (codes "domain") p.domain from_action refl
      ∙ get_param-own (codes "action") p.action from_client_ip refl (
          get_param-other (codes "action") (codes "client_ip") p.client_ip from_date_from refl
          ∙ get_param-other (codes "action") (codes "date_from") p.date_from from_date_to refl
          ∙ get_param-other (codes "action") (codes "date_to") p.date_to [] refl)

  sent-client_ip : get_param (codes "client_ip") sent ≡ p.client_ip
  unfolding from_domain from_action from_client_ip from_date_from from_date_to text_beq lookup
  sent-client_ip =
      get_param-other (codes "client_ip") (codes "domain") p.domain from_action refl
      ∙ get_param-other (codes "client_ip") (codes "action") p.action from_client_ip refl
      ∙ get_param-own (codes "client_ip") p.client_ip from_date_from refl (
          get_param-other (codes "client_ip") (codes "date_from") p.date_from from_date_to refl
          ∙ get_param-other (codes "client_ip") (codes "date_to") p.date_to [] refl)

  sent-date_from : get_param (codes "date_from") sent ≡ p.date_from
  unfolding from_domain from_action from_client_ip from_date_from from_date_to text_beq lookup
  sent-date_from =
      get_param-other (codes "date_from") (codes "domain") p.domain from_action refl
      ∙ get_param-other (codes "date_from") (codes "action") p.action from_client_ip refl
      ∙ get_param-other (codes "date_from") (codes "client_ip") p.client_ip from_date_from refl
      ∙ get_param-own (codes "date_from") p.date_from from_date_to refl
          (get_param-other (codes "date_from") (codes "date_to") p.date_to [] refl)

  sent-date_to : get_param (codes "date_to") sent ≡ p.date_to
  unfolding from_domain from_action from_client_ip from_date_from from_date_to text_beq lookup
  sent-date_to =
      get_param-other (codes "date_to") (codes "domain") p.domain from_action refl
      ∙ get_param-other (codes "date_to") (codes "action") p.action from_client_ip refl
      ∙ get_param-other (codes "date_to") (codes "client_ip") p.client_ip from_date_from refl
      ∙ get_param-other (codes "date_to") (codes "date_from") p.date_from from_date_to refl
      ∙ get_param-own (codes "date_to") p.date_to [] refl (refl)

  -- Where the page starts below 2 ^ 63, the API reads the parameters that the dashboard sends as the
  -- very filters of the page, its start, and pages of 20.
  pub log_filter-params :
      p.offset < 2 ^ 63
      → log_filter (params p) ≡ record {
        client_ip = p.client_ip;
        domain = p.domain;
        action = p.action;
        date_from = p.date_from;
        date_to = p.date_to;
        limit = pos 20;
        offset = pos p.offset;
      }
  unfolding log_filter text_beq lookup
  log_filter-params small = rw (
    params-sent,
    sent-client_ip,
    sent-domain,
    sent-action,
    sent-date_from,
    sent-date_to,
    atoi-show 20 (omega arith),
    atoi-show p.offset small,
  )
