-- ===== src/Web/Dashboard/View.antt =====
-- What web/src/pages/Dashboard.tsx renders.
use dns_filter.Prelude.{
  ℕ, ◌+◌, List, [], ◌∷◌, ◌++◌, Option, none, some, Text, codes, is_empty, if◌then◌else◌, leb,
}
use dns_filter.Web.Html.{Node, text, el, el_class, txt}
use dns_filter.Web.Page.{show}
use dns_filter.Web.Dashboard.{
  Metrics, Stats, TopItem, TopList, no_data_yet, rows, top_list, Dashboard, Screen, failed, loading,
  overview, shown, format_uptime,
}

-- The page has no events.
pub data Event : Type 0 where

-- StatCard, without its icon
abbrev pub stat_card : Text → Text → Text → Node Event
stat_card label value color = el "div" (
    el_class "div" color []
    ∷ el "div" (el "p" (text label ∷ []) ∷ el "p" (text value ∷ []) ∷ [])
    ∷ [])

abbrev pub item_row : TopItem → Node Event
item_row i = el "div" (el "span" (text i.name ∷ []) ∷ el "span" (text (show i.count) ∷ []) ∷ [])

abbrev pub item_rows : List TopItem → List (Node Event)
item_rows [] = []
item_rows (i ∷ is) = item_row i ∷ item_rows is

abbrev pub below_title : TopList → Node Event
below_title no_data_yet = el "p" (txt "Sem dados ainda" ∷ [])
below_title (rows is) = el "div" (item_rows is)

-- TopList, without its icon
abbrev pub top_items : Text → Option (List TopItem) → Node Event
top_items title items =
    el "div" (el "div" (el "h3" (text title ∷ []) ∷ []) ∷ below_title (top_list items) ∷ [])

-- `text || other`
abbrev pub or_else : Text → Text → Text
or_else s other = if is_empty s then other else s

-- `to_fixed` is the browser's `toFixed` with its number of digits, and `percent_of` its
-- `((hits / total) * 100).toFixed(1)`.
module _ {Figure : Type 0} (to_fixed : ℕ → Figure → Text) (percent_of : ℕ → ℕ → Text) where
  unfoldable pub hit_rate : Metrics Figure → Text
  hit_rate m =
      let total = m.cache_hits + m.cache_misses in
      if leb 1 total then percent_of m.cache_hits total else codes "0.0"

  abbrev blocked_percent : Option (Stats Figure) → Text
  blocked_percent none = codes "0"
  blocked_percent (some s) = or_else (to_fixed 1 s.blocked_percent) (codes "0")

  abbrev total_today : Option (Stats Figure) → ℕ
  total_today none = 0
  total_today (some s) = s.total_today

  -- `stats?.top_domains || null`, and so on
  abbrev pub top_of :
      (Stats Figure → Option (List TopItem)) → Option (Stats Figure) → Option (List TopItem)
  top_of field none = none
  top_of field (some s) = field s

  abbrev pub cards : Metrics Figure → Option (Stats Figure) → List (Node Event)
  cards m stats =
      el "div" (
        stat_card (codes "Uptime") (format_uptime m.uptime_seconds) (codes "bg-blue-500")
        ∷ stat_card (codes "Queries/s") (or_else (to_fixed 1 m.queries_per_second) (codes "0"))
            (codes "bg-indigo-500")
        ∷ stat_card (codes "Cache Hit Rate") (hit_rate m ++ codes "%") (codes "bg-green-500")
        ∷ stat_card (codes "Latência Média")
            (or_else (to_fixed 2 m.avg_latency_ms) (codes "0") ++ codes "ms")
            (codes "bg-purple-500")
        ∷ [])
      ∷ el "div" (
          stat_card (codes "Queries Hoje") (show (total_today stats)) (codes "bg-cyan-500")
          ∷ stat_card (codes "% Bloqueado") (blocked_percent stats ++ codes "%")
              (codes "bg-red-500")
          ∷ stat_card (codes "Domínios Bloqueados") (show m.blacklist_domains)
              (codes "bg-orange-500")
          ∷ stat_card (codes "Sessões Ativas") (show m.active_sessions) (codes "bg-amber-500")
          ∷ [])
      ∷ []

  abbrev pub top_lists : Option (Stats Figure) → Node Event
  top_lists stats = el "div" (
      top_items (codes "Top Domínios Consultados") (top_of (λ s. s.top_domains) stats)
      ∷ top_items (codes "Top Domínios Bloqueados") (top_of (λ s. s.top_blocked) stats)
      ∷ top_items (codes "Top Clientes por Volume") (top_of (λ s. s.top_clients) stats)
      ∷ [])

  abbrev pub screen_view : Screen Figure → Node Event
  screen_view (failed message) = el_class "div" (codes "text-red-600") (text message ∷ [])
  screen_view loading = el_class "div" (codes "text-gray-500") (txt "Carregando..." ∷ [])
  screen_view (overview m stats) =
      el "div" (el "h2" (txt "Visão Geral" ∷ []) ∷ (cards m stats ++ (top_lists stats ∷ [])))

  unfoldable pub view : Dashboard Figure → Node Event
  view p = screen_view (shown Figure p)
