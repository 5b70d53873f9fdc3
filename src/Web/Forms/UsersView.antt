-- ===== src/Web/Forms/UsersView.antt =====
-- What web/src/pages/Users.tsx renders, and what its events do.
use dns_filter.Prelude.{
  ℕ, true, false, [], ◌∷◌, ◌++◌, map, Text, codes, if◌then◌else◌, ◌==◌, nat_eq,
}
use dns_filter.Web.Html.{Node, text, submit, input, select, form, Choice, nodes, el, el_class, txt}
use dns_filter.Web.Page.{Next, stay, show, message_box}
use dns_filter.Web.Forms.{User, Users, UsersRequest, create_user, role_label}

pub data Event : Type 0 where
  username_changed password_changed : Text → Event
  role_changed : ℕ → Event
  submitted : Event

-- the setters that stand in the markup, and the form's handler
unfoldable pub update : Event → Users → Next Users UsersRequest
update (username_changed v) p = stay (record p { username = v })
update (password_changed v) p = stay (record p { password = v })
update (role_changed r) p = stay (record p { role = r })
update submitted p = create_user p

abbrev pub role_choice : ℕ → Choice Event
role_choice r = record { value = show r; label = role_label r; chosen = role_changed r }

-- the form
abbrev pub user_form : Users → Node Event
user_form p = form submitted (
    nodes (
      el "div" (el "label" (txt "Usuário" ∷ []) ∷ input true p.username username_changed ∷ [])
      ∷ el "div" (el "label" (txt "Senha" ∷ []) ∷ input true p.password password_changed ∷ [])
      ∷ el "div" (
          el "label" (txt "Perfil" ∷ [])
          ∷ select (show p.role) (role_choice 0 ∷ role_choice 1 ∷ [])
          ∷ [])
      ∷ submit false (nodes (txt "Criar" ∷ []))
      ∷ []))

-- one row of the table
abbrev pub user_row : User → Node Event
user_row u = el "tr" (
    el "td" (text (show u.id) ∷ [])
    ∷ el "td" (text u.username ∷ [])
    ∷ el "td" (
        el_class "span"
          (if u.role == 0
            then codes "bg-purple-100 text-purple-700"
            else codes "bg-gray-100 text-gray-600")
          (text (role_label u.role) ∷ [])
        ∷ [])
    ∷ el "td" (
        el_class "span"
          (if u.active
            then codes "bg-green-100 text-green-700"
            else codes "bg-red-100 text-red-700")
          (text (if u.active then codes "Ativo" else codes "Inativo") ∷ [])
        ∷ [])
    ∷ [])

abbrev pub header_cell : Text → Node Event
header_cell s = el "th" (text s ∷ [])

unfoldable pub view : Users → Node Event
view p = el "div" (
    el "h2" (txt "Usuários do Dashboard" ∷ [])
    ∷ el "div" (el "h3" (txt "Novo Usuário" ∷ []) ∷ (message_box p.message ++ (user_form p ∷ [])))
    ∷ el "div" (
        el "table" (
          el "thead" (
            el "tr" (
              map header_cell (codes "ID" ∷ codes "Usuário" ∷ codes "Perfil" ∷ codes "Status" ∷ []))
            ∷ [])
          ∷ el "tbody" (map user_row p.users)
          ∷ [])
        ∷ [])
    ∷ [])
