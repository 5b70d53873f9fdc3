-- ===== src/Web/Session/Layout.antt =====
-- web/src/layouts/MainLayout.tsx: the links to the pages, and the button to log out.
use dns_filter.Prelude.{Bool, false, List, [], ◌∷◌, map, Text, codes, text_beq, if◌then◌else◌}
use dns_filter.Web.Html.{Node, text, button, link, nodes, el, txt}
use dns_filter.Web.Session.{Tab}

-- the one event of the layout
pub data Event : Type 0 where
  logged_out : Event

pub record NavItem : Type 0 where
  pub path : Text
  pub label : Text

abbrev item : Text → Text → NavItem
item path label = record { path = path; label = label }

-- navItems
abbrev pub nav_items : List NavItem
nav_items =
    item (codes "/") (codes "Dashboard")
    ∷ item (codes "/logs") (codes "Logs")
    ∷ item (codes "/users") (codes "Usuários")
    ∷ item (codes "/groups") (codes "Grupos")
    ∷ item (codes "/lists") (codes "Listas")
    ∷ item (codes "/ranges") (codes "IP Ranges")
    ∷ []

-- `location.pathname === item.path`
abbrev pub is_active : Text → NavItem → Bool
is_active path i = text_beq path i.path

abbrev pub nav_link : Text → NavItem → Node Event
nav_link path i =
    link i.path
      (if is_active path i
        then codes "bg-blue-600 text-white"
        else codes "text-gray-300 hover:bg-gray-800 hover:text-white")
      (nodes (text i.label ∷ []))

-- the layout around a page, which stands where the source has its Outlet
unfoldable pub view : Tab → Node Event → Node Event
view t page = el "div" (
    el "aside" (
      el "div" (el "h1" (txt "DNS Filter" ∷ []) ∷ el "p" (txt "Painel Administrativo" ∷ []) ∷ [])
      ∷ el "nav" (map (nav_link t.path) nav_items)
      ∷ el "div" (button [] false logged_out (nodes (txt "Sair" ∷ [])) ∷ [])
      ∷ [])
    ∷ el "main" (page ∷ [])
    ∷ [])
