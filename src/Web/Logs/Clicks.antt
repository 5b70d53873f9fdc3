-- ===== src/Web/Logs/Clicks.antt =====
-- What the user can click on the page of web/src/pages/Logs.tsx, and which requests follow.
use dns_filter.Prelude.{
  ℕ, ◌≡◌, refl, ◌∙◌, sym, true, List, [], ◌∷◌, ◌++◌, map, append-nil, arith, ◌%◌, if◌then◌else◌,
  Bool-cases, inl, inr, Text, Option, none, some, codes, text_beq_iff, nat_beq, leb,
}
use dns_filter.Web.Html.{nodes, clicks, all_clicks}
use dns_filter.Web.Html.Clicks.{all_clicks-append, all_clicks-map_nil}
use dns_filter.Web.Logs.{
  LogEntry, Logs, mounted, params, logs_fetched, total_pages, current_page, previous_disabled,
}
use dns_filter.Web.Logs.Pages.{next_disabled_lem}
use dns_filter.Web.Logs.View
use dns_filter.Web.Logs.View.{
  Event, action_changed, search_clicked, previous_clicked, next_clicked, log_row, log_rows,
  empty_row, view, update, moved, is_unchanged, effect,
}

empty_row-clicks :
    {Figure : Type 0} (es : List (LogEntry Figure)) → all_clicks (nodes (empty_row es)) ≡ []
unfolding clicks
empty_row-clicks [] = refl
empty_row-clicks (e ∷ es) = refl

-- the events of the filters, whatever the state
abbrev pub filter_events : List Event
filter_events =
    action_changed []
    ∷ action_changed (codes "0")
    ∷ action_changed (codes "1")
    ∷ action_changed (codes "2")
    ∷ search_clicked
    ∷ []

previous_lem :
    {Figure : Type 0} (p : Logs Figure)
    → p.offset % 20 ≡ 0
    → previous_disabled p ≡ nat_beq (current_page p) 1
unfolding current_page
previous_lem p aligned = ground (arith, aligned)

-- On a page that starts at a multiple of 20, a click chooses an action to filter by, searches, goes
-- back unless this is the first page, or goes on where another page follows; it can do nothing else.
pub logs-clicks :
    {Figure : Type 0} (local_date : Text → Text) (to_fixed : Figure → Text)
    (get_rows : List (LogEntry Figure) → List (LogEntry Figure)) (p : Logs Figure)
    → p.offset % 20 ≡ 0
    → clicks (view local_date to_fixed get_rows p)
      ≡ filter_events
        ++ (if nat_beq (current_page p) 1 then [] else previous_clicked ∷ [])
        ++ (if leb (total_pages p) (current_page p) then [] else next_clicked ∷ [])
unfolding clicks view
logs-clicks local_date to_fixed get_rows p aligned =
    rw
      (
        all_clicks-append (map (log_row local_date to_fixed get_rows) (get_rows p.data_))
            (empty_row p.data_),
        all_clicks-map_nil (log_row local_date to_fixed get_rows) (get_rows p.data_) (λ e. refl),
        empty_row-clicks p.data_,
        sym (next_disabled_lem p aligned),
        sym (previous_lem p aligned),
      )
      (simp (append-nil))

-- what reaches the page: an event, or the answer to a request
pub data Input (Figure : Type 0) : Type 0 where
  event : Event → Input Figure
  answer : Option (Option (List (LogEntry Figure)) × Option ℕ) → Input Figure

abbrev pub last : {A : Type 0} → A → List A → A
last a [] = a
last a (x ∷ xs) = last x xs

-- the page, and the last request that it has sent
abbrev pub State : Type 0 → Type 0
State Figure = Logs Figure × List (Text × Text)

module _ {Figure : Type 0} where
  abbrev pub step : Input Figure → State Figure → State Figure
  step (event e) (p, asked) = ((update e p).page, last asked (update e p).requests)
  step (answer r) (p, asked) = (logs_fetched r p, asked)

  abbrev pub run : List (Input Figure) → State Figure → State Figure
  run [] s = s
  run (i ∷ is) s = run is (step i s)

  is_unchanged-fields :
      (p q : Logs Figure)
      → is_unchanged p q ≡ true
      → (q.offset ≡ p.offset)
        × (q.domain ≡ p.domain)
        × (q.action ≡ p.action)
        × (q.client_ip ≡ p.client_ip)
        × (q.date_from ≡ p.date_from)
        × (q.date_to ≡ p.date_to)
  unfolding is_unchanged
  is_unchanged-fields p q h = ground (
    arith,
    h,
    text_beq_iff p.domain q.domain,
    text_beq_iff p.action q.action,
    text_beq_iff p.client_ip q.client_ip,
    text_beq_iff p.date_from q.date_from,
    text_beq_iff p.date_to q.date_to,
  )

  is_unchanged-params : (p q : Logs Figure) → is_unchanged p q ≡ true → params q ≡ params p
  unfolding params
  is_unchanged-params p q h =
      let (o, d, a, c, f, t) = is_unchanged-fields p q h in rw (o, d, a, c, f, t)

  last-effect :
      (p q : Logs Figure) (asked : List (Text × Text))
      → asked ≡ params p
      → last asked (effect p q) ≡ params q
  unfolding effect
  last-effect p q asked h = elim (Bool-cases (is_unchanged p q)) [
    | inl same ↦ rw same (h ∙ sym (is_unchanged-params p q same))
    | inr changed ↦ rw changed
  ]

  answered-params :
      (r : Option (Option (List (LogEntry Figure)) × Option ℕ)) (p : Logs Figure)
      → params (logs_fetched r p) ≡ params p
  unfolding logs_fetched params
  answered-params none p = refl
  answered-params (some r) p = refl

  step-asked :
      (i : Input Figure) (s : State Figure)
      → s.1 ≡ params s.0
      → (step i s).1 ≡ params ((step i s).0)
  unfolding update
  step-asked (event (View.domain_changed v)) (p, asked) h = last-effect p _ asked h
  step-asked (event (View.client_ip_changed v)) (p, asked) h = last-effect p _ asked h
  step-asked (event (action_changed v)) (p, asked) h = last-effect p _ asked h
  step-asked (event (View.date_from_changed v)) (p, asked) h = last-effect p _ asked h
  step-asked (event (View.date_to_changed v)) (p, asked) h = last-effect p _ asked h
  step-asked (event search_clicked) (p, asked) h = last-effect p _ (params p) refl
  step-asked (event previous_clicked) (p, asked) h = last-effect p _ asked h
  step-asked (event next_clicked) (p, asked) h = last-effect p _ asked h
  step-asked (answer r) (p, asked) h = h ∙ sym (answered-params r p)

  run-asked :
      (is : List (Input Figure)) (s : State Figure)
      → s.1 ≡ params s.0
      → (run is s).1 ≡ params ((run is s).0)
  run-asked [] s h = h
  run-asked (i ∷ is) s h = run-asked is (step i s) (step-asked i s h)

  -- what the page is at first, with the request of its first effect
  abbrev pub opened : State Figure
  opened = (mounted, params (mounted {Figure = Figure}))

  -- Whatever the user does and whatever is answered, the last request that the page has sent asks
  -- for the filters and the page that it shows.
  pub asks_for_shown : (is : List (Input Figure)) → (run is opened).1 ≡ params ((run is opened).0)
  asks_for_shown is = run-asked is opened refl
