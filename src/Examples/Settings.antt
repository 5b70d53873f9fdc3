-- ===== src/Examples/Settings.antt =====
-- The queries of the log, the listener, the configuration and the login page of the portal
-- (internal/store, internal/config, internal/captive).
use dns_filter.Prelude.{
  ◌+◌, ◌≡◌, ◌≢◌, ◌↔◌, ◌⊎◌, refl, inr, Bool, true, false, List, [], ◌∷◌, ◌++◌, map, Text, codes,
  length, nat_eq, text_eq,
}
use dns_filter.Web.Page.{show}
use dns_filter.Database.Logs.{Query, text, int, numbered, conditions_of, count_query, page_query}
use dns_filter.Database.Logs.Placeholders.{
  asked_for, number_from, arg_of, where_text, page_columns, SameFields, conditions_of-numbered,
  same_query_text,
}
use dns_filter.Database.Listener.{
  Session, not_acquired, not_subscribed, subscribed, notified, slept, start,
}
use dns_filter.Database.Listener.Backoff.{
  payloads_of, received, sleeps, powers, ended_before, start-powers,
}
use dns_filter.Config.{Config, defaults, not_exist, bytes, load}
use dns_filter.Config.Environment.{Sets, load-Sets}
use dns_filter.Captive.Page.{IsInert, IsMessage, handle_login, handle_login-IsInert}
use dns_filter.Api.Numbers.{pos}
use dns_filter.Api.Requests.{LogFilter}

-- the log

abbrev by_domain : LogFilter
by_domain = record {
  client_ip = [];
  domain = codes "ads";
  action = [];
  date_from = [];
  date_to = codes "2024";
  limit = pos 50;
  offset = pos 0;
}

abbrev by_other : LogFilter
by_other = record by_domain { domain = codes "'; DROP TABLE x; --"; offset = pos 50 }

counts : count_query by_domain ≡ record {
  sql =
      codes
        "SELECT COUNT(*) FROM dns_query_logs WHERE 1=1 AND domain ILIKE $1 AND queried_at <= $2::timestamptz";
  args = text (codes "%ads%") ∷ text (codes "2024") ∷ [];
}
unfolding count_query dns_filter.Database.Logs.add_condition dns_filter.Web.Page.show
counts = refl

conditions_of-numbered_example :
    let cs = asked_for by_domain in
    ((count_query by_domain).sql
      ≡ codes "SELECT COUNT(*) FROM dns_query_logs WHERE " ++ where_text cs)
    × ((page_query by_domain).sql
        ≡ page_columns
          ++ (where_text cs
              ++ (numbered
                    (codes " ORDER BY queried_at DESC LIMIT $")
                    (codes " OFFSET $")
                    (length cs + 1)
                  ++ show (length cs + 2))))
    × ((count_query by_domain).args ≡ map arg_of cs)
    × ((page_query by_domain).args ≡ map arg_of cs ++ (int (pos 50) ∷ int (pos 0) ∷ []))
    × ((conditions_of by_domain).conditions ≡ codes "1=1" ∷ number_from 1 cs)
    × ((conditions_of by_domain).arg_n ≡ length (count_query by_domain).args + 1)
conditions_of-numbered_example = conditions_of-numbered by_domain

same_fields : SameFields by_domain by_other
same_fields = record {
  client_ip = refl;
  domain = refl;
  action = refl;
  date_from = refl;
  date_to = refl;
}

same_query_text_example :
    ((count_query by_domain).sql ≡ (count_query by_other).sql)
    × ((page_query by_domain).sql ≡ (page_query by_other).sql)
same_query_text_example = same_query_text by_domain by_other same_fields

-- the listener

abbrev sessions : List (Session × Bool)
sessions =
    (not_acquired, false) ∷ (subscribed (codes "groups" ∷ []), false) ∷ (not_subscribed, true) ∷ []

listens : start sessions ≡ slept 1 ∷ notified (codes "groups") ∷ slept 2 ∷ []
unfolding start
listens = refl

start-powers_example :
    (payloads_of (start sessions) ≡ received sessions)
    × (sleeps (start sessions) ≡ powers 0 (ended_before sessions))
start-powers_example = start-powers sessions

-- the configuration

abbrev unmarshal : Text → Config → Text ⊎ Config
unmarshal file c = inr (record c { log_level = file })

getenv : Text → Text
getenv name = codes "x" ++ name

given : (name : Text) → getenv name ≢ []
unfolding getenv
given name e = cc

load-Sets_example :
    ((r : Config) × (load unmarshal getenv (codes "c.yaml") (bytes (codes "debug")) ≡ inr r)
      × Sets getenv r)
    × (load unmarshal getenv (codes "c.yaml") not_exist ≡ inr defaults)
    × (defaults.api.jwt_secret ≡ [])
load-Sets_example =
    load-Sets unmarshal getenv (codes "c.yaml") (codes "debug")
      (record defaults { log_level = codes "debug" }) refl (given _) (given _) (given _)

-- the login page of the portal

handle_login-IsInert_example :
    let page = handle_login (codes "<b>") (codes "http://a/?x=1&y=\"2\"") in
    IsInert page.redirect_value
    × ((message : Text) × IsInert message × IsMessage page.error_html message)
    × ((page.redirect_value ≡ (handle_login [] (codes "http://a/?x=1")).redirect_value)
        ↔ (codes "http://a/?x=1&y=\"2\"" ≡ codes "http://a/?x=1"))
handle_login-IsInert_example =
    handle_login-IsInert (codes "<b>") (codes "http://a/?x=1&y=\"2\"") [] (codes "http://a/?x=1")
