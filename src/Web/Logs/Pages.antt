-- ===== src/Web/Logs/Pages.antt =====
-- The pagination of web/src/pages/Logs.tsx.
use dns_filter.Prelude.{
  ℕ, ◌+◌, ◌%◌, ◌≤◌, ◌≡◌, refl, false, List, Option, none, some, Text, arith, leb,
}
use dns_filter.Web.Logs.{
  LogEntry, Logs, mounted, logs_fetched, change_domain, change_client_ip, change_action,
  change_date_from, change_date_to, next_disabled, previous, next_, total_pages, current_page,
}

pub data Step {Figure : Type 0} (p : Logs Figure) : Logs Figure → Type 0 where
  fetched : (r : Option (Option (List (LogEntry Figure)) × Option ℕ)) → Step p (logs_fetched r p)
  domain_changed : (v : Text) → Step p (change_domain v p)
  client_ip_changed : (v : Text) → Step p (change_client_ip v p)
  action_changed : (v : Text) → Step p (change_action v p)
  date_from_changed : (v : Text) → Step p (change_date_from v p)
  date_to_changed : (v : Text) → Step p (change_date_to v p)
  went_back : Step p (previous p)
  went_on : Step p (next_ p)

pub data Reach {Figure : Type 0} (p : Logs Figure) : Logs Figure → Type 0 where
  here : Reach p p
  next : {q r : Logs Figure} → Reach p q → Step q r → Reach p r

previous-offset :
    {Figure : Type 0} (p : Logs Figure) → p.offset % 20 ≡ 0 → (previous p).offset % 20 ≡ 0
unfolding previous
previous-offset p e = ground (arith, e)

next-offset : {Figure : Type 0} (p : Logs Figure) → p.offset % 20 ≡ 0 → (next_ p).offset % 20 ≡ 0
unfolding next_
next-offset p e = ground (arith, e)

Step-offset :
    {Figure : Type 0} (p q : Logs Figure) → Step p q → p.offset % 20 ≡ 0 → q.offset % 20 ≡ 0
unfolding logs_fetched change_domain change_client_ip change_action change_date_from change_date_to
Step-offset p _ (fetched none) e = e
Step-offset p _ (fetched (some x)) e = e
Step-offset p _ (domain_changed v) e = refl
Step-offset p _ (client_ip_changed v) e = refl
Step-offset p _ (action_changed v) e = refl
Step-offset p _ (date_from_changed v) e = refl
Step-offset p _ (date_to_changed v) e = refl
Step-offset p _ went_back e = previous-offset p e
Step-offset p _ went_on e = next-offset p e

-- However the user filters and pages, and whatever the answers are, the page asked for starts at a
-- multiple of 20.
pub Reach-offset :
    {Figure : Type 0} (p : Logs Figure) → Reach (mounted {Figure = Figure}) p → p.offset % 20 ≡ 0
Reach-offset _ here = refl
Reach-offset p (next {q} r s) = Step-offset q p s (Reach-offset q r)

-- On a page that starts at a multiple of 20, where the button for the next page is enabled, it moves
-- one page on and no further than the last one, and going back from there returns to the same page.
pub next-pages :
    {Figure : Type 0} (p : Logs Figure)
    → p.offset % 20 ≡ 0
    → next_disabled p ≡ false
    → (current_page (next_ p) ≡ current_page p + 1)
      × (current_page (next_ p) ≤ total_pages p)
      × (previous (next_ p) ≡ p)
unfolding next_ previous current_page total_pages
next-pages p aligned enabled = ground (arith, aligned, enabled)

-- On a page that starts at a multiple of 20, the button for the next page is disabled exactly where
-- no page follows.
pub next_disabled_lem :
    {Figure : Type 0} (p : Logs Figure)
    → p.offset % 20 ≡ 0
    → next_disabled p ≡ leb (total_pages p) (current_page p)
unfolding current_page total_pages
next_disabled_lem p aligned = ground (arith, aligned)
