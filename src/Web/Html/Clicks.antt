-- ===== src/Web/Html/Clicks.antt =====
-- The clicks, the check boxes and the links of lists of elements.
use dns_filter.Prelude.{
  ◌≡◌, refl, ap, Bool, true, false, List, [], ◌∷◌, ◌++◌, map, append-nil, append_assoc,
  if◌then◌else◌,
}
use dns_filter.Web.Html.{
  Node, nodes, when, clicks, all_clicks, boxes, all_boxes, targets, all_targets,
}

abbrev pub concat_map : {A B : Type 0} → (A → List B) → List A → List B
concat_map f [] = []
concat_map f (x ∷ xs) = f x ++ concat_map f xs

module _ {E : Type 0} where
  pub all_clicks-append :
      (ms ns : List (Node E))
      → all_clicks (nodes (ms ++ ns)) ≡ all_clicks (nodes ms) ++ all_clicks (nodes ns)
  unfolding clicks
  all_clicks-append [] ns = refl
  all_clicks-append (m ∷ ms) ns = simp (all_clicks-append ms ns, append_assoc)

  pub all_boxes-append :
      (ms ns : List (Node E))
      → all_boxes (nodes (ms ++ ns)) ≡ all_boxes (nodes ms) ++ all_boxes (nodes ns)
  unfolding boxes
  all_boxes-append [] ns = refl
  all_boxes-append (m ∷ ms) ns = simp (all_boxes-append ms ns, append_assoc)

  pub all_clicks-map :
      {A : Type 0} (f : A → Node E) (xs : List A)
      → all_clicks (nodes (map f xs)) ≡ concat_map (λ x. clicks (f x)) xs
  unfolding clicks
  all_clicks-map f [] = refl
  all_clicks-map f (x ∷ xs) = ap (◌++◌ (clicks (f x))) (all_clicks-map f xs)

  pub all_boxes-map :
      {A : Type 0} (f : A → Node E) (xs : List A)
      → all_boxes (nodes (map f xs)) ≡ concat_map (λ x. boxes (f x)) xs
  unfolding boxes
  all_boxes-map f [] = refl
  all_boxes-map f (x ∷ xs) = ap (◌++◌ (boxes (f x))) (all_boxes-map f xs)

  pub all_targets-map :
      {A : Type 0} (f : A → Node E) (xs : List A)
      → all_targets (nodes (map f xs)) ≡ concat_map (λ x. targets (f x)) xs
  unfolding targets
  all_targets-map f [] = refl
  all_targets-map f (x ∷ xs) = ap (◌++◌ (targets (f x))) (all_targets-map f xs)

  -- Elements that cannot be clicked.
  pub all_clicks-map_nil :
      {A : Type 0} (f : A → Node E) (xs : List A)
      → ((x : A) → clicks (f x) ≡ [])
      → all_clicks (nodes (map f xs)) ≡ []
  unfolding clicks
  all_clicks-map_nil f [] h = refl
  all_clicks-map_nil f (x ∷ xs) h = simp (h x, all_clicks-map_nil f xs h)

  pub when-clicks :
      (b : Bool) (n : Node E) → all_clicks (nodes (when b n)) ≡ (if b then clicks n else [])
  unfolding clicks
  when-clicks true n = append-nil (clicks n)
  when-clicks false n = refl

  pub when-boxes :
      (b : Bool) (n : Node E) → all_boxes (nodes (when b n)) ≡ (if b then boxes n else [])
  unfolding boxes
  when-boxes true n = append-nil (boxes n)
  when-boxes false n = refl
