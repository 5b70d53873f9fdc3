-- ===== src/Web/Lists/Once.antt =====
-- The buttons of web/src/pages/Lists.tsx that are disabled while their request is under way.
use dns_filter.Prelude.{
  ℕ, ◌≡◌, ◌⊎◌, refl, Bool, true, false, ◌||◌, List, [], ◌∷◌, ◌++◌, map, arith, if◌then◌else◌, inl,
  inr, Text, Option, none, some, any, nat_eq,
}
use dns_filter.Web.Html.{clicks}
use dns_filter.Web.Html.Clicks.{concat_map}
use dns_filter.Web.Page.{is_open}
use dns_filter.Web.Lists.{
  BlocklistInfo, Category, Lists, download, reload, save_domains, save_categories, save_found,
  save_domains_of, save_categories_of, domains_of,
}
use dns_filter.Web.Lists.View.{
  Event, download_clicked, reload_clicked, save_domains_clicked, category_clicked,
  save_categories_clicked, view, update,
}
use dns_filter.Web.Lists.Clicks.{
  form_events, list_events, domains_events, categories_events, lists-clicks,
}

-- the four guarded buttons
pub data Guarded : Type 0 where
  downloading reloading saving_domains saving_cats : Guarded

abbrev pub event : Guarded → Event
event downloading = download_clicked
event reloading = reload_clicked
event saving_domains = save_domains_clicked
event saving_cats = save_categories_clicked

-- the guarded button that an event comes from
abbrev pub guarded_by : Event → Option Guarded
guarded_by download_clicked = some downloading
guarded_by reload_clicked = some reloading
guarded_by save_domains_clicked = some saving_domains
guarded_by save_categories_clicked = some saving_cats
guarded_by e = none

abbrev same : Guarded → Guarded → Bool
same downloading downloading = true
same reloading reloading = true
same saving_domains saving_domains = true
same saving_cats saving_cats = true
same g h = false

abbrev is_guard : Option Guarded → Guarded → Bool
is_guard none g = false
is_guard (some h) g = same h g

abbrev pub is_event : Event → Guarded → Bool
is_event e g = is_guard (guarded_by e) g

abbrev pub offers : Guarded → List Event → Bool
offers g es = any (λ e. is_event e g) es

abbrev under_way : Guarded → Lists → Bool
under_way downloading p = p.downloading
under_way reloading p = p.reloading
under_way saving_domains p = p.saving_domains
under_way saving_cats p = p.saving_cats

offers-append :
    (g : Guarded) (xs ys : List Event) → offers g (xs ++ ys) ≡ (offers g xs || offers g ys)
offers-append g [] ys = refl
offers-append g (x ∷ xs) ys = ground (arith, offers-append g xs ys)

offers-categories :
    (g : Guarded) (cs : List Category) → offers g (map (λ c. category_clicked c.id) cs) ≡ false
offers-categories g [] = refl
offers-categories g (c ∷ cs) = offers-categories g cs

offers-unless :
    (g : Guarded) (b : Bool) (e : Event)
    → offers g (if b then [] else e ∷ []) ≡ (if b then false else is_event e g)
offers-unless g b e = ground arith

offers-if :
    (g : Guarded) (b : Bool) (es : List Event)
    → offers g es ≡ false
    → offers g (if b then es else []) ≡ false
offers-if g b es h = ground (arith, h)

offers-form : (g : Guarded) (p : Lists) → under_way g p ≡ true → offers g (form_events p) ≡ false
offers-form downloading p h = simp (offers-append, offers-unless, h) (ground arith)
offers-form reloading p h = simp (offers-append, offers-unless, h) (ground arith)
offers-form saving_domains p h = simp (offers-append, offers-unless) (ground arith)
offers-form saving_cats p h = simp (offers-append, offers-unless) (ground arith)

offers-domains :
    (g : Guarded) (p : Lists) → under_way g p ≡ true → offers g (domains_events p) ≡ false
offers-domains downloading p h = ground (arith, h)
offers-domains reloading p h = ground (arith, h)
offers-domains saving_domains p h = ground (arith, h)
offers-domains saving_cats p h = ground (arith, h)

offers-cats :
    (g : Guarded) (p : Lists)
    → under_way g p ≡ true
    → offers g (if p.saving_cats then [] else save_categories_clicked ∷ []) ≡ false
offers-cats downloading p h = ground (arith, h)
offers-cats reloading p h = ground (arith, h)
offers-cats saving_domains p h = ground (arith, h)
offers-cats saving_cats p h = ground (arith, h)

offers-panels :
    (g : Guarded) (p : Lists) → under_way g p ≡ true → offers g (categories_events p) ≡ false
offers-panels g p h = simp (offers-append, offers-cats g p h, offers-categories g p.categories)

offers-rows :
    (g : Guarded) (p : Lists) (ls : List BlocklistInfo)
    → under_way g p ≡ true
    → offers g (concat_map (list_events p) ls) ≡ false
offers-rows g p [] h = refl
offers-rows g p (l ∷ ls) h = rw (
  offers-append g (list_events p l) (concat_map (list_events p) ls),
  offers-rows g p ls h,
  offers-append g (if is_open p.adding_domains l.id then domains_events p else [])
      (if is_open p.editing_cats l.id then categories_events p else []),
  offers-if g (is_open p.adding_domains l.id) (domains_events p) (offers-domains g p h),
  offers-if g (is_open p.editing_cats l.id) (categories_events p) (offers-panels g p h),
)

-- A guarded button whose request is under way is not offered
under_way-offers :
    (s : ℕ → Text) (g : Guarded) (p : Lists)
    → under_way g p ≡ true
    → offers g (clicks (view s p)) ≡ false
under_way-offers s g p h = rw (
  lists-clicks s p,
  offers-append g (form_events p) (concat_map (list_events p) p.lists),
  offers-form g p h,
  offers-rows g p p.lists h,
)

save_found-under_way :
    (id : ℕ) (ds : List Text) (p : Lists)
    → ((save_found id ds p).requests ≡ []) ⊎ ((save_found id ds p).page.saving_domains ≡ true)
unfolding save_found
save_found-under_way id [] p = inl refl
save_found-under_way id (d ∷ ds) p = inr refl

save_domains-under_way :
    (o : Option ℕ) (p : Lists)
    → ((save_domains_of o p).requests ≡ []) ⊎ ((save_domains_of o p).page.saving_domains ≡ true)
unfolding save_domains_of
save_domains-under_way none p = inl refl
save_domains-under_way (some id) p = save_found-under_way id (domains_of p.domains_text) p

save_cats-under_way :
    (o : Option ℕ) (p : Lists)
    → ((save_categories_of o p).requests ≡ []) ⊎ ((save_categories_of o p).page.saving_cats ≡ true)
unfolding save_categories_of
save_cats-under_way none p = inl refl
save_cats-under_way (some id) p = inr refl

update-under_way :
    (g : Guarded) (p : Lists)
    → ((update (event g) p).requests ≡ []) ⊎ (under_way g (update (event g) p).page ≡ true)
unfolding update download reload save_domains save_categories
update-under_way downloading p = inr refl
update-under_way reloading p = inr refl
update-under_way saving_domains p = save_domains-under_way p.adding_domains p
update-under_way saving_cats p = save_cats-under_way p.editing_cats p

-- The four buttons that download, reload, save domains and save categories cannot be used twice:
-- where a click on one of them sends a request, the page that it leaves does not offer that button.
pub click-once :
    (locale_string : ℕ → Text) (g : Guarded) (p : Lists)
    → ((update (event g) p).requests ≡ [])
      ⊎ (offers g (clicks (view locale_string (update (event g) p).page)) ≡ false)
click-once s g p = elim (update-under_way g p) [
  | inl none_sent ↦ inl none_sent
  | inr sent ↦ inr (under_way-offers s g (update (event g) p).page sent)
]
