-- ===== src/Web/Session/Links.antt =====
-- The links of the layout (web/src/layouts/MainLayout.tsx) and the routes (web/src/App.tsx).
use dns_filter.Prelude.{◌≡◌, true, List, [], ◌∷◌, map, some, Text, text_beq}
use dns_filter.Web.Html.{Node, targets}
use dns_filter.Web.Session.{Tab, Screen, protected_route, app}
use dns_filter.Web.Session.Access.{has_token}
use dns_filter.Web.Session.Layout.{Event, view}

-- the pages of the dashboard, in the order of the links
abbrev pub pages : List Screen
pages =
    Screen.dashboard ∷ Screen.logs ∷ Screen.users ∷ Screen.groups ∷ Screen.lists ∷ Screen.ranges
    ∷ []

-- With a token that is not empty the links of the layout lead, one by one, to the pages of the
-- dashboard, around a page that has no links of its own.
pub targets-app :
    (t : Tab) (token : Text) (page : Node Event)
    → has_token (some token) ≡ true
    → targets page ≡ []
    → map (λ path. app (record { token = some token; path = path })) (targets (view t page)) ≡ pages
unfolding targets view app protected_route text_beq
targets-app t [] page e plain = cc e
targets-app t (c ∷ token) page e plain = rw plain
