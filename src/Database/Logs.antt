-- ===== src/Database/Logs.antt =====
-- internal/store/logs.go: the queries of QueryLogs. White space in the text of a query is one space.
pub mod Placeholders
use dns_filter.Prelude.{
  ℕ, ◌+◌, ◌⊎◌, inl, inr, List, [], ◌∷◌, ◌++◌, Text, codes, is_empty, if◌then◌else◌,
}
use dns_filter.Api.Numbers.{ℤ}
use dns_filter.Api.Requests.{LogFilter}
use dns_filter.Web.Page.{show}
use dns_filter.Database.Loads.{Rows, list_all}

-- an argument of a query
pub data Arg : Type 0 where
  text : Text → Arg
  int : ℤ → Arg

-- `where`, `args` and `argN`
pub record Conditions : Type 0 where
  pub conditions : List Text
  pub args : List Arg
  pub arg_n : ℕ

abbrev pub no_conditions : Conditions
no_conditions = record { conditions = codes "1=1" ∷ []; args = []; arg_n = 1 }

-- the text around the number of a placeholder
abbrev pub numbered : Text → Text → ℕ → Text
numbered before after n = before ++ (show n ++ after)

-- `if value != "" { … }`, with the argument that is made of the value
unfoldable pub add_condition : Text → Text → Text → Text → Conditions → Conditions
add_condition value before after arg c = if is_empty value then c else record {
  conditions = c.conditions ++ (numbered before after c.arg_n ∷ []);
  args = c.args ++ (text arg ∷ []);
  arg_n = c.arg_n + 1;
}

-- `strings.Join(where, " AND ")`
unfoldable pub join_and : List Text → Text
join_and [] = []
join_and (p ∷ []) = p
join_and (p ∷ q ∷ ps) = p ++ (codes " AND " ++ join_and (q ∷ ps))

unfoldable pub conditions_of : LogFilter → Conditions
conditions_of f =
    let c1 =
      add_condition f.client_ip (codes "client_ip = $") (codes "::inet") f.client_ip
        no_conditions in
    let c2 =
      add_condition f.domain (codes "domain ILIKE $") [] (codes "%" ++ (f.domain ++ codes "%"))
        c1 in
    let c3 = add_condition f.action (codes "action = $") [] f.action c2 in
    let c4 =
      add_condition f.date_from (codes "queried_at >= $") (codes "::timestamptz") f.date_from c3 in
    add_condition f.date_to (codes "queried_at <= $") (codes "::timestamptz") f.date_to c4

-- a query with its arguments
pub record Query : Type 0 where
  pub sql : Text
  pub args : List Arg

unfoldable pub count_query : LogFilter → Query
unfolding conditions_of join_and
count_query f =
    let c = conditions_of f in
    record {
      sql = codes "SELECT COUNT(*) FROM dns_query_logs WHERE " ++ join_and c.conditions;
      args = c.args;
    }

unfoldable pub page_query : LogFilter → Query
unfolding conditions_of join_and
page_query f =
    let c = conditions_of f in
    record {
      sql =
          codes
            "SELECT queried_at, client_ip::text, user_id, group_id, domain, query_type, action, response_ms, COALESCE(upstream, '') FROM dns_query_logs WHERE "
          ++ (join_and c.conditions
              ++ (numbered (codes " ORDER BY queried_at DESC LIMIT $") (codes " OFFSET $") c.arg_n
                  ++ show (c.arg_n + 1)));
      args = c.args ++ (int f.limit ∷ int f.offset ∷ []);
    }

-- the queries that QueryLogs sends, with their answers
module _ {R : Type 0} (count : Query → Text ⊎ ℕ) (page : Query → Text ⊎ Rows R) where
  abbrev pub with_total : ℕ → Text ⊎ List R → Text ⊎ (List R × ℕ)
  with_total total (inl e) = inl e
  with_total total (inr logs) = inr (logs, total)

  abbrev pub after_count : LogFilter → Text ⊎ ℕ → Text ⊎ (List R × ℕ)
  after_count f (inl e) = inl (codes "store: count logs: " ++ e)
  after_count f (inr total) =
      with_total total
        (list_all (codes "store: query logs: ") (codes "store: scan log: ") (page (page_query f)))

  -- Store.QueryLogs
  unfoldable pub query_logs : LogFilter → Text ⊎ (List R × ℕ)
  unfolding count_query page_query
  query_logs f = after_count f (count (count_query f))
