-- ===== src/Web/Logs/View.antt =====
-- What web/src/pages/Logs.tsx renders, and what its events do.
use dns_filter.Prelude.{
  ℕ, Bool, true, false, ◌&&◌, List, [], ◌∷◌, ◌++◌, map, Text, codes, is_empty, if◌then◌else◌, ◌==◌,
  nat_eq, nat_beq, text_beq, has_prefix,
}
use dns_filter.Web.Html.{Node, text, button, input, select, nodes, el, el_class, txt, when}
use dns_filter.Web.Page.{Next, show}
use dns_filter.Web.Logs.{
  LogEntry, Logs, params, change_domain, change_client_ip, change_action, change_date_from,
  change_date_to, previous, next_, previous_disabled, next_disabled, current_page, shown_pages,
}

pub data Event : Type 0 where
  domain_changed client_ip_changed action_changed date_from_changed date_to_changed : Text → Event
  search_clicked previous_clicked next_clicked : Event

module _ {Figure : Type 0} where
  -- the setters that stand in the markup
  unfoldable pub moved : Event → Logs Figure → Logs Figure
  moved (domain_changed v) p = change_domain v p
  moved (client_ip_changed v) p = change_client_ip v p
  moved (action_changed v) p = change_action v p
  moved (date_from_changed v) p = change_date_from v p
  moved (date_to_changed v) p = change_date_to v p
  moved search_clicked p = p
  moved previous_clicked p = previous p
  moved next_clicked p = next_ p

  -- whether the effect's dependencies `[offset, domain, action, clientIP, dateFrom, dateTo]` are the same
  unfoldable pub is_unchanged : Logs Figure → Logs Figure → Bool
  is_unchanged p q =
      nat_beq p.offset q.offset
      && text_beq p.domain q.domain
      && text_beq p.action q.action
      && text_beq p.client_ip q.client_ip
      && text_beq p.date_from q.date_from
      && text_beq p.date_to q.date_to

  -- the effect that runs after a render
  unfoldable pub effect : Logs Figure → Logs Figure → List (List (Text × Text))
  effect p q = if is_unchanged p q then [] else params q ∷ []

  abbrev searched : Event → Logs Figure → List (List (Text × Text))
  searched search_clicked p = params p ∷ []
  searched e p = []

  -- an event, with the render and the effect that follow it
  unfoldable pub update : Event → Logs Figure → Next (Logs Figure) (List (Text × Text))
  unfolding effect moved
  update e p = record {
    page = moved e p;
    requests = searched e p ++ effect p (moved e p);
    timers = [];
  }

-- `queryTypes[info.getValue()] || info.getValue()`
unfoldable pub query_type_label : ℕ → Text
query_type_label n =
    if n == 1
    then codes "A"
    else if n == 5
    then codes "CNAME"
    else if n == 15
    then codes "MX"
    else if n == 28
    then codes "AAAA"
    else if n == 2
    then codes "NS"
    else if n == 16
    then codes "TXT"
    else show n

-- `actionLabels[info.getValue()] || { label: '?', color: 'bg-gray-100' }`
unfoldable pub action_label : ℕ → Text
action_label n =
    if n == 0
    then codes "Permitido"
    else if n == 1
    then codes "Bloqueado"
    else if n == 2
    then codes "Cache"
    else codes "?"

unfoldable pub action_color : ℕ → Text
action_color n =
    if n == 0
    then codes "bg-green-100 text-green-700"
    else if n == 1
    then codes "bg-red-100 text-red-700"
    else if n == 2
    then codes "bg-blue-100 text-blue-700"
    else codes "bg-gray-100"

abbrev drop_two : Text → Text
drop_two [] = []
drop_two (a ∷ []) = []
drop_two (a ∷ b ∷ t) = t

-- `s.replace('/32', '')`: the first occurrence
unfoldable pub without_mask : Text → Text
without_mask [] = []
without_mask (c ∷ s) =
    let rest = without_mask s in if has_prefix (c ∷ s) (codes "/32") then drop_two s else c ∷ rest

-- `info.getValue()?.replace('/32', '') || '-'`
unfoldable pub client_label : Text → Text
unfolding without_mask
client_label ip = let shown = without_mask ip in if is_empty shown then codes "-" else shown

abbrev pub headers : List Text
headers =
    codes "Data/Hora"
    ∷ codes "IP Cliente"
    ∷ codes "Domínio"
    ∷ codes "Tipo"
    ∷ codes "Ação"
    ∷ codes "Latência"
    ∷ codes "Upstream"
    ∷ []

abbrev pub cell : Node Event → Node Event
cell n = el "td" (n ∷ [])

abbrev pub header_cell : Text → Node Event
header_cell s = el "th" (text s ∷ [])

module _ {Figure : Type 0} where
  abbrev pub no_logs : List (LogEntry Figure) → Bool
  no_logs [] = true
  no_logs (e ∷ es) = false

  abbrev pub filters : Logs Figure → Node Event
  filters p = el "div" (
      input false p.domain domain_changed
      ∷ input false p.client_ip client_ip_changed
      ∷ select p.action (
          (record { value = []; label = codes "Todas as ações"; chosen = action_changed [] })
          ∷ (record {
            value = codes "0";
            label = codes "Permitido";
            chosen = action_changed (codes "0");
          })
          ∷ (record {
            value = codes "1";
            label = codes "Bloqueado";
            chosen = action_changed (codes "1");
          })
          ∷ (record {
            value = codes "2";
            label = codes "Cache";
            chosen = action_changed (codes "2");
          })
          ∷ [])
      ∷ input false p.date_from date_from_changed
      ∷ input false p.date_to date_to_changed
      ∷ button [] false search_clicked (nodes (txt "Buscar" ∷ []))
      ∷ [])

  abbrev pub empty_row : List (LogEntry Figure) → List (Node Event)
  empty_row es = when (no_logs es) (el "tr" (cell (txt "Nenhum log encontrado") ∷ []))

  abbrev pub pagination : Logs Figure → Node Event
  pagination p = el "div" (
      el "span" (text (show p.total ++ codes " registros") ∷ [])
      ∷ el "div" (
          button [] (previous_disabled p) previous_clicked (nodes (txt "Anterior" ∷ []))
          ∷ el "span" (
              text
                (codes "Página " ++ show (current_page p) ++ codes " de " ++ show (shown_pages p))
              ∷ [])
          ∷ button [] (next_disabled p) next_clicked (nodes (txt "Próxima" ∷ []))
          ∷ [])
      ∷ [])

-- `local_date` is the browser's `new Date(s).toLocaleString('pt-BR')`, `to_fixed` its `toFixed(1)`,
-- and `get_rows` the row model of @tanstack/react-table.
module _ {Figure : Type 0} (local_date : Text → Text) (to_fixed : Figure → Text)
    (get_rows : List (LogEntry Figure) → List (LogEntry Figure)) where
  -- the cells of a row, in the order of `columns`
  abbrev pub cells : LogEntry Figure → List (Node Event)
  cells e =
      text (local_date e.queried_at)
      ∷ text (client_label e.client_ip)
      ∷ text e.domain
      ∷ text (query_type_label e.query_type)
      ∷ el_class "span" (action_color e.action) (text (action_label e.action) ∷ [])
      ∷ text (
          (if is_empty (to_fixed e.response_ms) then codes "0" else to_fixed e.response_ms)
          ++ codes "ms")
      ∷ text e.upstream
      ∷ []

  abbrev pub log_row : LogEntry Figure → Node Event
  log_row e = el "tr" (map cell (cells e))

  abbrev pub log_rows : Logs Figure → List (Node Event)
  log_rows p = map log_row (get_rows p.data_) ++ empty_row p.data_

  unfoldable pub view : Logs Figure → Node Event
  view p = el "div" (
      el "h2" (txt "Logs DNS" ∷ [])
      ∷ filters p
      ∷ el "div" (
          el "table"
            (el "thead" (el "tr" (map header_cell headers) ∷ []) ∷ el "tbody" (log_rows p) ∷ [])
          ∷ pagination p
          ∷ [])
      ∷ [])
