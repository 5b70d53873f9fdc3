-- ===== src/Web/Logs.antt =====
-- web/src/pages/Logs.tsx: the filters and the pagination of the query log.
pub mod Pages
pub mod View
pub mod Clicks
use dns_filter.Prelude.{
  ℕ, zero, suc, ◌+◌, ◌-◌, ◌*◌, ◌/◌, ◌%◌, ◌≤◌, ◌<◌, ◌≡◌, Bool, true, false, not, ◌&&◌, List, [], ◌∷◌,
  ◌++◌, Option, none, some, Text, codes, is_empty, if◌then◌else◌, leb, nat_beq,
}
use dns_filter.Web.Page.{show, or_empty}

-- The latency is of a type of its own, which the page only formats.
pub record LogEntry (Figure : Type 0) : Type 0 where
  pub queried_at : Text
  pub client_ip : Text
  pub domain : Text
  pub query_type : ℕ
  pub action : ℕ
  pub response_ms : Figure
  pub upstream : Text

pub record Logs (Figure : Type 0) : Type 0 where
  pub data_ : List (LogEntry Figure)
  pub total : ℕ
  pub offset : ℕ
  pub domain : Text
  pub action : Text
  pub client_ip : Text
  pub date_from : Text
  pub date_to : Text

abbrev pub limit : ℕ
limit = 20

-- `if (value) params.set(name, value)`
abbrev pub optional : Text → Text → List (Text × Text)
optional name value = if is_empty value then [] else (name, value) ∷ []

abbrev or_zero : Option ℕ → ℕ
or_zero none = 0
or_zero (some n) = n

module _ {Figure : Type 0} where
  abbrev pub mounted : Logs Figure
  mounted = record {
    data_ = [];
    total = 0;
    offset = 0;
    domain = [];
    action = [];
    client_ip = [];
    date_from = [];
    date_to = [];
  }

  -- fetchLogs: the parameters that it sends
  unfoldable pub params : Logs Figure → List (Text × Text)
  params p =
      (codes "limit", show limit)
      ∷ (codes "offset", show p.offset)
      ∷ (optional (codes "domain") p.domain
          ++ optional (codes "action") p.action
          ++ optional (codes "client_ip") p.client_ip
          ++ optional (codes "date_from") p.date_from
          ++ optional (codes "date_to") p.date_to)

  -- fetchLogs: the answer's page and its total, `data || []` and `total || 0`; none where the request
  -- fails
  unfoldable pub logs_fetched :
      Option (Option (List (LogEntry Figure)) × Option ℕ) → Logs Figure → Logs Figure
  logs_fetched none p = p
  logs_fetched (some (d, n)) p = record p { data_ = or_empty d; total = or_zero n }

  -- The filters: each change goes back to the first page
  unfoldable pub change_domain : Text → Logs Figure → Logs Figure
  change_domain v p = record p { domain = v; offset = 0 }

  unfoldable pub change_client_ip : Text → Logs Figure → Logs Figure
  change_client_ip v p = record p { client_ip = v; offset = 0 }

  unfoldable pub change_action : Text → Logs Figure → Logs Figure
  change_action v p = record p { action = v; offset = 0 }

  unfoldable pub change_date_from : Text → Logs Figure → Logs Figure
  change_date_from v p = record p { date_from = v; offset = 0 }

  unfoldable pub change_date_to : Text → Logs Figure → Logs Figure
  change_date_to v p = record p { date_to = v; offset = 0 }

  -- `disabled` of the two buttons, and what they do; a disabled button does nothing
  abbrev pub previous_disabled : Logs Figure → Bool
  previous_disabled p = nat_beq p.offset 0

  abbrev pub next_disabled : Logs Figure → Bool
  next_disabled p = leb p.total (p.offset + limit)

  unfoldable pub previous : Logs Figure → Logs Figure
  previous p = if previous_disabled p then p else record p { offset = p.offset - limit }

  unfoldable pub next_ : Logs Figure → Logs Figure
  next_ p = if next_disabled p then p else record p { offset = p.offset + limit }

  -- `Math.ceil(total / limit)`, `Math.floor(offset / limit) + 1`, and `totalPages || 1`
  unfoldable pub total_pages : Logs Figure → ℕ
  total_pages p = (p.total + (limit - 1)) / limit

  unfoldable pub current_page : Logs Figure → ℕ
  current_page p = p.offset / limit + 1

  unfoldable pub shown_pages : Logs Figure → ℕ
  unfolding total_pages
  shown_pages p = if nat_beq (total_pages p) 0 then 1 else total_pages p
