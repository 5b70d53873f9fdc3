-- ===== src/Web/Groups/Clicks.antt =====
-- What the user can click on the page of web/src/pages/Groups.tsx, and what its boxes show.
use dns_filter.Prelude.{
  ℕ, ◌≡◌, refl, sym, Bool, false, not, List, [], ◌∷◌, ◌++◌, map, map-append, append-nil, is_empty,
  arith, if◌then◌else◌, Bool-cases, inl, inr, ◌==◌, nat_eq,
}
use dns_filter.Web.Html.{nodes, clicks, all_clicks, boxes, all_boxes, when}
use dns_filter.Web.Html.Clicks.{
  concat_map, all_clicks-append, all_boxes-append, when-clicks, when-boxes,
}
use dns_filter.Web.Page.{is_open}
use dns_filter.Web.Page.Message.{after_message-clicks, after_message-boxes}
use dns_filter.Web.Toggle.{member, toggle, member-toggle_flip}
use dns_filter.Web.Lists.{Category}
use dns_filter.Web.Groups.{Group, Groups, toggle_category}
use dns_filter.Web.Groups.View.{
  Event, submitted, policy_clicked, delete_clicked, category_clicked, save_clicked, category_box,
  nothing_to_choose, policy_panel, save_button, fragments, body, view, update,
}

-- what the open panel offers: a box for each category and, while no save is under way, the saving
abbrev pub panel_events : Groups → List Event
panel_events p =
    map (λ c. category_clicked c.id) p.categories
    ++ (if p.saving_policy then [] else save_clicked ∷ [])

abbrev pub group_events : Groups → Group → List Event
group_events p g =
    policy_clicked g.id
    ∷ delete_clicked g.id
    ∷ (if is_open p.editing_policy g.id then panel_events p else [])

category_boxes-clicks :
    (bs : List ℕ) (cs : List Category)
    → all_clicks (nodes (map (category_box bs) cs)) ≡ map (λ c. category_clicked c.id) cs
unfolding clicks
category_boxes-clicks bs [] = refl
category_boxes-clicks bs (c ∷ cs) = elim (Bool-cases (is_empty c.description)) [
  | inl e ↦ rw (e, category_boxes-clicks bs cs)
  | inr e ↦ rw (e, category_boxes-clicks bs cs)
]

pub nothing_to_choose-clicks :
    {E : Type 0} (cs : List Category) → all_clicks (nodes (nothing_to_choose {E = E} cs)) ≡ []
unfolding clicks
nothing_to_choose-clicks [] = refl
nothing_to_choose-clicks (c ∷ cs) = refl

pub nothing_to_choose-boxes :
    {E : Type 0} (cs : List Category) → all_boxes (nodes (nothing_to_choose {E = E} cs)) ≡ []
unfolding boxes
nothing_to_choose-boxes [] = refl
nothing_to_choose-boxes (c ∷ cs) = refl

panel-clicks : (p : Groups) (g : Group) → clicks (policy_panel p g) ≡ panel_events p
unfolding clicks
panel-clicks p g =
    rw
      (
        all_clicks-append (nothing_to_choose p.categories) (save_button p ∷ []),
        category_boxes-clicks p.blocked_cats p.categories,
        nothing_to_choose-clicks {E = Event} p.categories,
      )
      (simp (append-nil))

rows-clicks :
    (p : Groups) (gs : List Group)
    → all_clicks (nodes (fragments p gs)) ≡ concat_map (group_events p) gs
unfolding clicks
rows-clicks p [] = refl
rows-clicks p (g ∷ gs) = rw (
  all_clicks-append (when (is_open p.editing_policy g.id) (policy_panel p g)) (fragments p gs),
  when-clicks (is_open p.editing_policy g.id) (policy_panel p g),
  panel-clicks p g,
  rows-clicks p gs,
)

-- A click on the page of groups sends the form where its name is not empty, opens or removes one
-- of the listed groups or, below the row of an open group, flips the box of one of the categories
-- or, while no save is under way, saves; it can do nothing else.
pub groups-clicks :
    (p : Groups)
    → clicks (view p)
      ≡ (if is_empty p.name then [] else submitted ∷ []) ++ concat_map (group_events p) p.groups
unfolding clicks view
groups-clicks p = elim (Bool-cases (is_empty p.name)) [
  | inl e ↦
      rw (after_message-clicks p.message (body p), e, rows-clicks p p.groups) (simp (append-nil))
  | inr e ↦
      rw (after_message-clicks p.message (body p), e, rows-clicks p p.groups) (simp (append-nil))
]

category_boxes-boxes :
    (bs : List ℕ) (cs : List Category)
    → all_boxes (nodes (map (category_box bs) cs))
      ≡ map (λ c. (category_clicked c.id, member c.id bs)) cs
unfolding boxes
category_boxes-boxes bs [] = refl
category_boxes-boxes bs (c ∷ cs) = elim (Bool-cases (is_empty c.description)) [
  | inl e ↦ rw (e, category_boxes-boxes bs cs)
  | inr e ↦ rw (e, category_boxes-boxes bs cs)
]

-- the boxes of an open panel, each with whether it is checked
abbrev pub panel_boxes : Groups → List (Event × Bool)
panel_boxes p = map (λ c. (category_clicked c.id, member c.id p.blocked_cats)) p.categories

abbrev pub group_boxes : Groups → Group → List (Event × Bool)
group_boxes p g = if is_open p.editing_policy g.id then panel_boxes p else []

panel-boxes : (p : Groups) (g : Group) → boxes (policy_panel p g) ≡ panel_boxes p
unfolding boxes
panel-boxes p g =
    rw
      (
        all_boxes-append (nothing_to_choose p.categories) (save_button p ∷ []),
        category_boxes-boxes p.blocked_cats p.categories,
        nothing_to_choose-boxes {E = Event} p.categories,
      )
      (simp (append-nil))

rows-boxes :
    (p : Groups) (gs : List Group)
    → all_boxes (nodes (fragments p gs)) ≡ concat_map (group_boxes p) gs
unfolding boxes
rows-boxes p [] = refl
rows-boxes p (g ∷ gs) = rw (
  all_boxes-append (when (is_open p.editing_policy g.id) (policy_panel p g)) (fragments p gs),
  when-boxes (is_open p.editing_policy g.id) (policy_panel p g),
  panel-boxes p g,
  rows-boxes p gs,
)

pub groups-boxes : (p : Groups) → boxes (view p) ≡ concat_map (group_boxes p) p.groups
unfolding boxes view
groups-boxes p =
    rw (after_message-boxes p.message (body p), rows-boxes p p.groups) (simp (append-nil))

abbrev pub is_box : ℕ → Event → Bool
is_box x (category_clicked c) = x == c
is_box x e = false

-- what a click on the boxes of one category makes of a box
abbrev pub flip_box : ℕ → Event × Bool → Event × Bool
flip_box x b = (b.0, if is_box x b.0 then not b.1 else b.1)

panel_flipped :
    (c : ℕ) (bs : List ℕ) (cs : List Category)
    → map (λ k. (category_clicked k.id, member k.id (toggle c bs))) cs
      ≡ map (flip_box c) (map (λ k. (category_clicked k.id, member k.id bs)) cs)
panel_flipped c bs [] = refl
panel_flipped c bs (k ∷ cs) =
    rw (panel_flipped c bs cs, member-toggle_flip k.id c bs) (ground arith)

rows_flipped :
    (c : ℕ) (p : Groups) (gs : List Group)
    → concat_map (group_boxes (toggle_category c p)) gs
      ≡ map (flip_box c) (concat_map (group_boxes p) gs)
unfolding toggle_category
rows_flipped c p [] = refl
rows_flipped c p (g ∷ gs) = elim (Bool-cases (is_open p.editing_policy g.id)) [
  | inl e ↦
      rw (e, rows_flipped c p gs, panel_flipped c p.blocked_cats p.categories)
        (sym (map-append (flip_box c) (panel_boxes p) (concat_map (group_boxes p) gs)))
  | inr e ↦ rw (e, rows_flipped c p gs)
]

-- A click on the box of a category flips, in every open panel, the box of that category and no other.
pub groups-box_clicked :
    (p : Groups) (c : ℕ)
    → boxes (view ((update (category_clicked c) p).page)) ≡ map (flip_box c) (boxes (view p))
unfolding update toggle_category
groups-box_clicked p c =
    rw (groups-boxes (toggle_category c p), groups-boxes p) (rows_flipped c p p.groups)
