-- ===== src/Filter/Engine/Categories.antt =====
-- The category of a name (internal/filter/engine.go): findParentCategory and LoadCategories.
use dns_filter.Prelude.{
  ℕ, ◌+◌, ◌≤◌, ◌≡◌, refl, ap, ◌≢◌, inl, inr, true, List, [], ◌∷◌, ◌++◌, none, some, arith, Text,
  nat_beq, Map, lookup, length, Option-cases, if◌then◌else◌, insert, text_beq_iff, text_eq,
}
use dns_filter.Filter.Domain.{dot, normalize}
use dns_filter.Filter.Blacklist.{Blacklist, contains, add, tail_parts}
use dns_filter.Filter.Blacklist.Matching.{IsParent, contains-add}
use dns_filter.Filter.Engine.{
  Engine, split_domain, join_labels, join_domain, parent_category, find_parent_category,
  load_domains, load_all, load_categories,
}

-- `parts` is `passed` followed by two labels or more, whose name has the category; no name that
-- begins at one of the passed labels has any.
pub record Nearest (cats : Map Text ℕ) (parts : List Text) (cat : ℕ) : Type 0 where
  pub passed : List Text
  pub first : Text
  pub others : List Text
  pub places : parts ≡ passed ++ (first ∷ others)
  pub not_last : 1 ≤ length others
  pub found : lookup (join_domain (first ∷ others)) cats ≡ some cat
  pub none_nearer :
      (before : List Text) (label : Text) (after : List Text)
      → passed ≡ before ++ (label ∷ after)
      → lookup (join_domain (label ∷ (after ++ (first ∷ others)))) cats ≡ none

Nearest-cons :
    (cats : Map Text ℕ) (p : Text) (ps : List Text) (cat : ℕ)
    → lookup (join_domain (p ∷ ps)) cats ≡ none
    → Nearest cats ps cat
    → Nearest cats (p ∷ ps) cat
Nearest-cons cats p ps cat missed near = record {
  passed = p ∷ near.passed;
  first = near.first;
  others = near.others;
  places = ap (◌∷◌ p) near.places;
  not_last = near.not_last;
  found = near.found;
  none_nearer = nearer;
}
  where
    nearer :
        (before : List Text) (label : Text) (after : List Text)
        → p ∷ near.passed ≡ before ++ (label ∷ after)
        → lookup (join_domain (label ∷ (after ++ (near.first ∷ near.others)))) cats ≡ none
    nearer [] label after e =
        let same : p ≡ label = cc in
        let rest : near.passed ≡ after = cc in rw (← same, ← rest, ← near.places) missed
    nearer (q ∷ before) label after e = near.none_nearer before label after (cc)

nil-ne-append :
    (before : List Text) (label : Text) (after : List Text) → [] ≢ before ++ (label ∷ after)
nil-ne-append [] label after e = cc
nil-ne-append (b ∷ before) label after e = cc

parent_category-Nearest :
    (cats : Map Text ℕ) (ps : List Text) (cat : ℕ)
    → parent_category cats ps ≡ some cat
    → Nearest cats ps cat
unfolding parent_category
parent_category-Nearest cats [] cat h = cc
parent_category-Nearest cats (p ∷ []) cat h = cc
parent_category-Nearest cats (p ∷ q ∷ r) cat h =
    elim (Option-cases (lookup (join_domain (p ∷ q ∷ r)) cats)) [
      | inl e ↦
          Nearest-cons cats p (q ∷ r) cat e
            (parent_category-Nearest cats (q ∷ r) cat (rw (e, parent_category) at h))
      | inr (c, e) ↦ record {
        passed = [];
        first = p;
        others = q ∷ r;
        places = refl;
        not_last = omega arith;
        found = ground (arith, h);
        none_nearer = λ before label after eq. absurd (nil-ne-append before label after eq);
      }
    ]

-- A category that the search among the parents finds is that of the nearest parent that has one,
-- and this parent has two labels or more.
pub find_parent_category-Nearest :
    (e : Engine) (n : Text) (cat : ℕ)
    → find_parent_category e n ≡ some cat
    → Nearest e.domain_categories (tail_parts (split_domain n)) cat
unfolding find_parent_category
find_parent_category-Nearest e n cat h = parent_category-Nearest e.domain_categories _ cat h

unfoldable pub dots : Text → ℕ
dots [] = 0
dots (c ∷ s) = (if nat_beq c b'.' then 1 else 0) + dots s

dots-append : (s t : Text) → dots (s ++ t) ≡ dots s + dots t
unfolding dots
dots-append [] t = omega arith
dots-append (c ∷ s) t = omega (arith, dots-append s t)

dots-join_labels : (ps : List Text) → length ps ≤ dots (join_labels ps) + 1
unfolding dots join_labels
dots-join_labels [] = omega arith
dots-join_labels (p ∷ []) = omega arith
dots-join_labels (p ∷ q ∷ ps) = omega (
  arith,
  dots-append p (dot ++ join_labels (q ∷ ps)),
  dots-append dot (join_labels (q ∷ ps)),
  dots-join_labels (q ∷ ps),
)

dots-join_domain : (ps : List Text) → length ps ≤ dots (join_domain ps)
unfolding join_domain dots
dots-join_domain ps = omega (arith, dots-append (join_labels ps) dot, dots-join_labels ps)

lookup-single : (k n : Text) (cat c : ℕ) → lookup k ((n, cat) ∷ []) ≡ some c → k ≡ n
unfolding lookup
lookup-single k n cat c h = ground (arith, text_beq_iff n k)

single_category :
    (t : Text) (cat : ℕ) (e : Engine)
    → (load_categories ((cat, t ∷ []) ∷ []) e).domain_categories ≡ (normalize t, cat) ∷ []
unfolding load_categories load_domains load_all insert
single_category t cat e = refl

top_level_category :
    (t : Text) (cat : ℕ) (e : Engine) (n : Text)
    → dots (normalize t) ≡ 1
    → find_parent_category (load_categories ((cat, t ∷ []) ∷ []) e) n ≡ none
top_level_category t cat e n one =
    elim (Option-cases (find_parent_category (load_categories ((cat, t ∷ []) ∷ []) e) n)) [
      | inl e' ↦ e'
      | inr (c, e') ↦
          let near = find_parent_category-Nearest (load_categories ((cat, t ∷ []) ∷ []) e) n c e' in
          let at_top : join_domain (near.first ∷ near.others) ≡ normalize t =
            lookup-single _ (normalize t) cat c (rw (single_category t cat e) at near.found) in
          absurd (
            omega (
              arith,
              dots-join_domain (near.first ∷ near.others),
              ap dots at_top,
              near.not_last,
              one,
            ))
    ]

-- A category on a top-level domain (one label) is found for no name, whereas an entry of the
-- blacklist for the same domain blocks all names below it.
pub top_level_gap :
    (t : Text) (cat : ℕ) (e : Engine) (b : Blacklist) (n d : Text)
    → dots (normalize t) ≡ 1
    → IsParent (normalize t) (normalize d)
    → (find_parent_category (load_categories ((cat, t ∷ []) ∷ []) e) n ≡ none)
      × (contains (add t b) d ≡ true)
top_level_gap t cat e b n d one below =
    (top_level_category t cat e n one, (contains-add t d b).1 (inr (inr below)))
