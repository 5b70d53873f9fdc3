-- ===== src/Web/Forms/Required.antt =====
-- The forms of web/src/pages/Users.tsx and Ranges.tsx are sent only when their required fields are
-- filled.
use dns_filter.Prelude.{
  ◌≡◌, refl, ap, not, ◌&&◌, List, [], ◌∷◌, ◌++◌, map, append-nil, append_assoc, is_empty, arith,
  if◌then◌else◌, Bool-cases, inl, inr,
}
use dns_filter.Web.Html.{nodes, clicks, all_clicks, when, el, txt}
use dns_filter.Web.Html.Clicks.{all_clicks-append, all_clicks-map_nil}
use dns_filter.Web.Page.{message_box}
use dns_filter.Web.Page.Message.{message_box-clicks}
use dns_filter.Web.Forms.{Users, Ranges, GroupName, IpRange}
use dns_filter.Web.Forms.RangesView
use dns_filter.Web.Forms.UsersView
use dns_filter.Web.Forms.UsersView.{user_row, user_form}

-- A click on the page of users chooses a role or, where the name and the password are not empty,
-- sends them; it can do nothing else.
pub users-clicks :
    (p : Users)
    → clicks (UsersView.view p)
      ≡ UsersView.role_changed 0
        ∷ UsersView.role_changed 1
        ∷ (if not (is_empty p.username) && not (is_empty p.password)
            then UsersView.submitted ∷ []
            else [])
unfolding clicks UsersView.view
users-clicks p =
    rw
      (
        all_clicks-append (message_box p.message) (user_form p ∷ []),
        message_box-clicks {E = UsersView.Event} p.message,
        all_clicks-map_nil user_row p.users (λ u. refl),
      )
      (ground arith)

group_choices : List GroupName → List RangesView.Event
group_choices gs = map (λ g. RangesView.group_changed g.id) gs

group_choice-chosen :
    (gs : List GroupName) → map (λ c. c.chosen) (map RangesView.group_choice gs) ≡ group_choices gs
unfolding group_choices
group_choice-chosen [] = refl
group_choice-chosen (g ∷ gs) = ap (◌∷◌ (RangesView.group_changed g.id)) (group_choice-chosen gs)

no_ranges-clicks :
    (rs : List IpRange)
    → all_clicks (
        nodes (
          when {E = RangesView.Event}
            (RangesView.no_ranges rs)
            (el "tr" (el "td" (txt "Nenhuma faixa cadastrada" ∷ []) ∷ []))))
      ≡ []
unfolding clicks
no_ranges-clicks [] = refl
no_ranges-clicks (r ∷ rs) = refl

-- A click on the page of ranges chooses one of the groups that were loaded or one of the two modes
-- or, where the CIDR is not empty, sends the form; it can do nothing else.
pub ranges-clicks :
    (p : Ranges)
    → clicks (RangesView.view p)
      ≡ map (λ g. RangesView.group_changed g.id) p.groups
        ++ (RangesView.mode_changed 0
            ∷ RangesView.mode_changed 1
            ∷ (if not (is_empty p.cidr) then RangesView.submitted ∷ [] else []))
unfolding clicks RangesView.view group_choices
ranges-clicks p =
    rw
      (
        all_clicks-append (message_box p.message) (RangesView.range_form p ∷ []),
        message_box-clicks {E = RangesView.Event} p.message,
        all_clicks-append (map (RangesView.range_row p.groups) p.ranges) (
            when (RangesView.no_ranges p.ranges)
              (el "tr" (el "td" (txt "Nenhuma faixa cadastrada" ∷ []) ∷ []))),
        all_clicks-map_nil (RangesView.range_row p.groups) p.ranges (λ r. refl),
        no_ranges-clicks p.ranges,
        group_choice-chosen p.groups,
      )
      (elim (Bool-cases (is_empty p.cidr)) [
        | inl e ↦ rw e (simp append-nil)
        | inr e ↦ rw e (simp (append-nil, append_assoc))
      ])
