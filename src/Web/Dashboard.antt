-- ===== src/Web/Dashboard.antt =====
-- web/src/pages/Dashboard.tsx: the overview, which asks for its figures every five seconds.
pub mod Polls
pub mod View
use dns_filter.Prelude.{
  ℕ, ◌+◌, ◌/◌, ◌%◌, ◌≡◌, ◌≢◌, ◌↔◌, ◌⊎◌, inl, inr, refl, Bool, true, false, List, [], ◌∷◌, ◌++◌,
  Option, none, some, Text, codes, is_empty, arith, In, if◌then◌else◌,
}
use dns_filter.Web.Page.{show}

pub record TopItem : Type 0 where
  pub name : Text
  pub count : ℕ

-- The figures that are not whole are of a type of their own, which the page only formats.
pub record Metrics (Figure : Type 0) : Type 0 where
  pub uptime_seconds : ℕ
  pub cache_hits : ℕ
  pub cache_misses : ℕ
  pub cache_entries : ℕ
  pub blacklist_domains : ℕ
  pub whitelist_domains : ℕ
  pub active_sessions : ℕ
  pub log_pending : ℕ
  pub total_queries : ℕ
  pub queries_per_second : Figure
  pub avg_latency_ms : Figure

pub record Stats (Figure : Type 0) : Type 0 where
  pub total_today : ℕ
  pub total_week : ℕ
  pub total_month : ℕ
  pub blocked_percent : Figure
  pub top_domains : Option (List TopItem)
  pub top_blocked : Option (List TopItem)
  pub top_clients : Option (List TopItem)

-- formatUptime, for a whole number of seconds
unfoldable pub format_uptime : ℕ → Text
format_uptime seconds =
    show (seconds / 3600) ++ codes "h " ++ show ((seconds % 3600) / 60) ++ codes "m"

-- TopList: what stands below the title
pub data TopList : Type 0 where
  no_data_yet : TopList
  rows : List TopItem → TopList

unfoldable pub top_list : Option (List TopItem) → TopList
top_list none = no_data_yet
top_list (some []) = no_data_yet
top_list (some (i ∷ is)) = rows (i ∷ is)

module _ (Figure : Type 0) where
  pub record Dashboard : Type 0 where
    pub metrics : Option (Metrics Figure)
    pub stats : Option (Stats Figure)
    pub error : Text

  pub data Screen : Type 0 where
    failed : Text → Screen
    loading : Screen
    overview : Metrics Figure → Option (Stats Figure) → Screen

  abbrev pub mounted : Dashboard
  mounted = record { metrics = none; stats = none; error = [] }

  -- fetchData on the two answers, none where one of the requests fails
  unfoldable pub fetched : Option (Metrics Figure × Stats Figure) → Dashboard → Dashboard
  fetched none p = record p { error = codes "Erro ao carregar dados" }
  fetched (some (m, s)) p = record p { metrics = some m; stats = some s }

  -- what the component returns
  unfoldable pub shown : Dashboard → Screen
  shown p =
      if is_empty p.error
      then elim p.metrics [ none ↦ loading | some m ↦ overview m p.stats ]
      else failed p.error

  -- the polls, in the order of their answers
  abbrev pub polled : List (Option (Metrics Figure × Stats Figure)) → Dashboard → Dashboard
  polled [] p = p
  polled (r ∷ rs) p = polled rs (fetched r p)
