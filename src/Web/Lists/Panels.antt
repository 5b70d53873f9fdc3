-- ===== src/Web/Lists/Panels.antt =====
-- The two panels of web/src/pages/Lists.tsx, of which a click opens one and closes the other.
use dns_filter.Prelude.{
  ℕ, ◌≡◌, refl, ◌∙◌, ap, ◌⊎◌, inl, inr, Bool, true, false, List, Option, none, some, arith, nat_eq,
  Bool-cases,
}
use dns_filter.Web.Page.{is_open, close_if}
use dns_filter.Web.Lists.{
  Lists, deleted, open_categories, categories_opened, open_domains, domains_saved,
}

-- One panel at most is open.
abbrev pub IsExclusive : Lists → Type 0
IsExclusive p = (p.editing_cats ≡ none) ⊎ (p.adding_domains ≡ none)

-- What moves the panels. The answer to openCategories comes while the domains' panel is closed.
pub data Step : Lists → Lists → Type 0 where
  on_open_categories : (p : Lists) (id : ℕ) → Step p (open_categories id p).page
  on_categories_opened :
      (p : Lists) (id : ℕ) (reply : Option (Option (List ℕ)))
      → p.adding_domains ≡ none
      → Step p (categories_opened id reply p).page
  on_open_domains : (p : Lists) (id : ℕ) → Step p (open_domains id p).page
  on_deleted : (p seen : Lists) (id : ℕ) (ok : Bool) → Step p (deleted seen id ok p).page
  on_domains_saved : (p : Lists) (reply : Option ℕ) → Step p (domains_saved reply p).page

close_if-none : (seen : Option ℕ) (id : ℕ) → close_if seen id none ≡ none
close_if-none seen id = elim (Bool-cases (is_open seen id)) [
  | inl e ↦ ground (arith, e)
  | inr e ↦ ground (arith, e)
]

open_categories-IsExclusive : (p : Lists) (id : ℕ) → IsExclusive (open_categories id p).page
unfolding open_categories
open_categories-IsExclusive p id = elim (Bool-cases (is_open p.editing_cats id)) [
  | inl e ↦ ground (arith, e)
  | inr e ↦ ground (arith, e)
]

open_domains-IsExclusive : (p : Lists) (id : ℕ) → IsExclusive (open_domains id p).page
unfolding open_domains
open_domains-IsExclusive p id = elim (Bool-cases (is_open p.adding_domains id)) [
  | inl e ↦ ground (arith, e)
  | inr e ↦ ground (arith, e)
]

deleted-IsExclusive :
    (p seen : Lists) (id : ℕ) (ok : Bool) → IsExclusive p → IsExclusive (deleted seen id ok p).page
unfolding deleted
deleted-IsExclusive p seen id false s = s
deleted-IsExclusive p seen id true (inl e) =
    inl (ap (close_if seen.editing_cats id) e ∙ close_if-none seen.editing_cats id)
deleted-IsExclusive p seen id true (inr e) =
    inr (ap (close_if seen.adding_domains id) e ∙ close_if-none seen.adding_domains id)

-- Where one panel at most is open, one at most is open after any handler that moves them, if the
-- answer to openCategories comes while the panel of the domains is closed.
pub Step-IsExclusive : (p q : Lists) → Step p q → IsExclusive p → IsExclusive q
unfolding categories_opened domains_saved
Step-IsExclusive p _ (on_open_categories _ id) s = open_categories-IsExclusive p id
Step-IsExclusive p _ (on_categories_opened _ id none e) s = s
Step-IsExclusive p _ (on_categories_opened _ id (some cats) e) s = inr e
Step-IsExclusive p _ (on_open_domains _ id) s = open_domains-IsExclusive p id
Step-IsExclusive p _ (on_deleted _ seen id ok) s = deleted-IsExclusive p seen id ok s
Step-IsExclusive p _ (on_domains_saved _ none) s = s
Step-IsExclusive p _ (on_domains_saved _ (some n)) s = inr refl

-- Where the categories of a list are closed and are asked for, and the domains of a list are
-- opened before the answer, the answer leaves both panels open.
pub late_answer :
    (p : Lists) (a b : ℕ) (cats : Option (List ℕ))
    → is_open p.editing_cats a ≡ false
    → let asked = (open_categories a p).page in
      let shown = (categories_opened a (some cats) (open_domains b asked).page).page in
      (shown.editing_cats ≡ some a) × (shown.adding_domains ≡ some b)
unfolding open_categories categories_opened open_domains
late_answer p a b cats closed = ground (arith, closed)
