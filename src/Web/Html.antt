-- ===== src/Web/Html.antt =====
-- What a component of web/src renders. Of a class only the part that depends on the state is kept;
-- static styling, placeholders and icons are left out. `E` is the type of the page's events.
pub mod Clicks
use Prim.Native.String.{String}
use dns_filter.Prelude.{
  ℕ, Bool, true, false, not, ◌&&◌, ◌||◌, List, [], ◌∷◌, ◌++◌, Option, none, some, map, Text, codes,
  is_empty, if◌then◌else◌,
}

-- An option of a select, with the event of choosing it.
pub record Choice (E : Type 0) : Type 0 where
  pub value : Text
  pub label : Text
  pub chosen : E

mutual
  pub data Node (E : Type 0) : Type 0 where
    text : Text → Node E
    -- the tag and the class
    element : Text → Text → Nodes E → Node E
    -- a button with its class, whether it is disabled, and its onClick
    button : Text → Bool → E → Nodes E → Node E
    -- a button of type submit, and whether it is disabled
    submit : Bool → Nodes E → Node E
    -- an input: whether it is required, its value and its onChange
    input : Bool → Text → (Text → E) → Node E
    text_area : Text → (Text → E) → Node E
    select : Text → List (Choice E) → Node E
    checkbox : Bool → E → Node E
    form : E → Nodes E → Node E
    -- a link with its target and its class
    link : Text → Text → Nodes E → Node E

  pub data Nodes (E : Type 0) : Type 0 where
    nil : Nodes E
    cons : Node E → Nodes E → Nodes E

module _ {E : Type 0} where
  abbrev pub nodes : List (Node E) → Nodes E
  nodes [] = nil
  nodes (n ∷ ns) = cons n (nodes ns)

  abbrev pub el : String → List (Node E) → Node E
  el tag ns = element (codes tag) [] (nodes ns)

  abbrev pub el_class : String → Text → List (Node E) → Node E
  el_class tag class ns = element (codes tag) class (nodes ns)

  abbrev pub txt : String → Node E
  txt s = text (codes s)

  -- `test && node`
  abbrev pub when : Bool → Node E → List (Node E)
  when test n = if test then n ∷ [] else []

-- What the browser lets through to onSubmit: the form has a submit button that is not disabled, and
-- no required field is empty.
unfoldable mutual
  pub has_submit : {E : Type 0} → Node E → Bool
  has_submit (text s) = false
  has_submit (element tag class ns) = any_submit ns
  has_submit (button class disabled e ns) = false
  has_submit (submit disabled ns) = not disabled
  has_submit (input required value e) = false
  has_submit (text_area value e) = false
  has_submit (select value choices) = false
  has_submit (checkbox on e) = false
  has_submit (form e ns) = false
  has_submit (link target class ns) = any_submit ns

  pub any_submit : {E : Type 0} → Nodes E → Bool
  any_submit nil = false
  any_submit (cons n ns) = has_submit n || any_submit ns

unfoldable mutual
  pub is_filled : {E : Type 0} → Node E → Bool
  is_filled (text s) = true
  is_filled (element tag class ns) = all_filled ns
  is_filled (button class disabled e ns) = true
  is_filled (submit disabled ns) = true
  is_filled (input required value e) = not required || not (is_empty value)
  is_filled (text_area value e) = true
  is_filled (select value choices) = true
  is_filled (checkbox on e) = true
  is_filled (form e ns) = true
  is_filled (link target class ns) = all_filled ns

  pub all_filled : {E : Type 0} → Nodes E → Bool
  all_filled nil = true
  all_filled (cons n ns) = is_filled n && all_filled ns

-- The events that a click can cause, from the top: buttons that are not disabled, check boxes, and
-- the submission of forms.
unfoldable mutual
  unfolding has_submit is_filled

  pub clicks : {E : Type 0} → Node E → List E
  clicks (text s) = []
  clicks (element tag class ns) = all_clicks ns
  clicks (button class disabled e ns) = if disabled then [] else e ∷ []
  clicks (submit disabled ns) = []
  clicks (input required value e) = []
  clicks (text_area value e) = []
  clicks (select value choices) = map (λ c. c.chosen) choices
  clicks (checkbox on e) = e ∷ []
  clicks (form e ns) = all_clicks ns ++ (if any_submit ns && all_filled ns then e ∷ [] else [])
  clicks (link target class ns) = all_clicks ns

  pub all_clicks : {E : Type 0} → Nodes E → List E
  all_clicks nil = []
  all_clicks (cons n ns) = clicks n ++ all_clicks ns

-- The targets of the links.
unfoldable mutual
  pub targets : {E : Type 0} → Node E → List Text
  targets (text s) = []
  targets (element tag class ns) = all_targets ns
  targets (button class disabled e ns) = []
  targets (submit disabled ns) = []
  targets (input required value e) = []
  targets (text_area value e) = []
  targets (select value choices) = []
  targets (checkbox on e) = []
  targets (form e ns) = all_targets ns
  targets (link target class ns) = target ∷ []

  pub all_targets : {E : Type 0} → Nodes E → List Text
  all_targets nil = []
  all_targets (cons n ns) = targets n ++ all_targets ns

-- The state of each check box, with its event.
unfoldable mutual
  pub boxes : {E : Type 0} → Node E → List (E × Bool)
  boxes (text s) = []
  boxes (element tag class ns) = all_boxes ns
  boxes (button class disabled e ns) = []
  boxes (submit disabled ns) = []
  boxes (input required value e) = []
  boxes (text_area value e) = []
  boxes (select value choices) = []
  boxes (checkbox on e) = (e, on) ∷ []
  boxes (form e ns) = all_boxes ns
  boxes (link target class ns) = all_boxes ns

  pub all_boxes : {E : Type 0} → Nodes E → List (E × Bool)
  all_boxes nil = []
  all_boxes (cons n ns) = boxes n ++ all_boxes ns
