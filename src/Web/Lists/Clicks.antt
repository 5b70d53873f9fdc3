-- ===== src/Web/Lists/Clicks.antt =====
-- What the user can click on the page of web/src/pages/Lists.tsx.
use dns_filter.Prelude.{
  ℕ, ◌≡◌, refl, ap, ◌||◌, List, [], ◌∷◌, ◌++◌, map, append-nil, append_assoc, is_empty,
  if◌then◌else◌, Bool-cases, inl, inr, Text, trim,
}
use dns_filter.Web.Html.{nodes, clicks, all_clicks, when}
use dns_filter.Web.Html.Clicks.{concat_map, all_clicks-append, when-clicks}
use dns_filter.Web.Page.{is_open}
use dns_filter.Web.Page.Message.{after_message-clicks}
use dns_filter.Web.Groups.View.{nothing_to_choose}
use dns_filter.Web.Groups.Clicks.{nothing_to_choose-clicks}
use dns_filter.Web.Lists.{BlocklistInfo, Category, Lists}
use dns_filter.Web.Lists.View.{
  Event, download_clicked, reload_clicked, type_changed, submitted, domains_clicked,
  categories_clicked, delete_clicked, save_domains_clicked, category_clicked,
  save_categories_clicked, category_box, save_button, domains_panel, categories_panel, fragments,
  body, view,
}

-- what the two panels of a list offer
abbrev pub domains_events : Lists → List Event
domains_events p =
    if p.saving_domains || is_empty (trim p.domains_text) then [] else save_domains_clicked ∷ []

abbrev pub categories_events : Lists → List Event
categories_events p =
    map (λ c. category_clicked c.id) p.categories
    ++ (if p.saving_cats then [] else save_categories_clicked ∷ [])

abbrev pub list_events : Lists → BlocklistInfo → List Event
list_events p l =
    domains_clicked l.id
    ∷ categories_clicked l.id
    ∷ delete_clicked l.id
    ∷ ((if is_open p.adding_domains l.id then domains_events p else [])
        ++ (if is_open p.editing_cats l.id then categories_events p else []))

-- what stands above and in the form
abbrev pub form_events : Lists → List Event
form_events p =
    (if p.downloading then [] else download_clicked ∷ [])
    ++ (if p.reloading then [] else reload_clicked ∷ [])
    ++ (type_changed 0 ∷ type_changed 1 ∷ [])
    ++ (if is_empty p.name then [] else submitted ∷ [])

category_boxes-clicks :
    (on : List ℕ) (cs : List Category)
    → all_clicks (nodes (map (category_box on) cs)) ≡ map (λ c. category_clicked c.id) cs
unfolding clicks
category_boxes-clicks on [] = refl
category_boxes-clicks on (c ∷ cs) = ap (◌∷◌ (category_clicked c.id)) (category_boxes-clicks on cs)

categories_panel-clicks :
    (p : Lists) (l : BlocklistInfo) → clicks (categories_panel p l) ≡ categories_events p
unfolding clicks
categories_panel-clicks p l =
    rw
      (
        all_clicks-append (nothing_to_choose p.categories) (save_button p ∷ []),
        category_boxes-clicks p.list_cats p.categories,
        nothing_to_choose-clicks {E = Event} p.categories,
      )
      (simp (append-nil))

domains_panel-clicks :
    (p : Lists) (l : BlocklistInfo) → clicks (domains_panel p l) ≡ domains_events p
unfolding clicks
domains_panel-clicks p l = simp (append-nil)

rows-clicks :
    (locale_string : ℕ → Text) (p : Lists) (ls : List BlocklistInfo)
    → all_clicks (nodes (fragments locale_string p ls)) ≡ concat_map (list_events p) ls
unfolding clicks
rows-clicks s p [] = refl
rows-clicks s p (l ∷ ls) = rw (
  all_clicks-append
      (when (is_open p.adding_domains l.id) (domains_panel p l)
        ++ when (is_open p.editing_cats l.id) (categories_panel p l))
      (fragments s p ls),
  all_clicks-append (when (is_open p.adding_domains l.id) (domains_panel p l))
      (when (is_open p.editing_cats l.id) (categories_panel p l)),
  when-clicks (is_open p.adding_domains l.id) (domains_panel p l),
  domains_panel-clicks p l,
  when-clicks (is_open p.editing_cats l.id) (categories_panel p l),
  categories_panel-clicks p l,
  rows-clicks s p ls,
)

-- A click on the page of lists downloads or reloads, where that is not under way, chooses a type,
-- sends the form where its name is not empty, opens a panel of a listed list or removes that list,
-- or uses an open panel: there it saves the domains where their text is not blank and no such save
-- is under way, flips the box of a category, or saves the categories where no such save is under
-- way. It can do nothing else.
pub lists-clicks :
    (locale_string : ℕ → Text) (p : Lists)
    → clicks (view locale_string p) ≡ form_events p ++ concat_map (list_events p) p.lists
unfolding clicks view
lists-clicks s p = elim (Bool-cases (is_empty p.name)) [
  | inl e ↦
      rw (after_message-clicks p.message (body s p), e, rows-clicks s p p.lists)
        (simp (append-nil, append_assoc))
  | inr e ↦
      rw (after_message-clicks p.message (body s p), e, rows-clicks s p p.lists)
        (simp (append-nil, append_assoc))
]
