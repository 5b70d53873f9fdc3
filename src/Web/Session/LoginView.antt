-- ===== src/Web/Session/LoginView.antt =====
-- What web/src/pages/Login.tsx renders, and what its events do.
use dns_filter.Prelude.{
  ◌≡◌, true, not, ◌&&◌, List, [], ◌∷◌, ◌++◌, Text, codes, is_empty, arith, if◌then◌else◌,
  Bool-cases, inl, inr,
}
use dns_filter.Web.Html
use dns_filter.Web.Html.{Node, text, input, form, nodes, el, el_class, txt, when, clicks}
use dns_filter.Web.Html.Clicks.{all_clicks-append}
use dns_filter.Web.Session.{Login}

pub data Event : Type 0 where
  username_changed password_changed : Text → Event
  submitted : Event

-- the setters that stand in the markup
unfoldable pub type_in : Event → Login → Login
type_in (username_changed v) p = record p { username = v }
type_in (password_changed v) p = record p { password = v }
type_in submitted p = p

abbrev pub error_box : Text → List (Node Event)
error_box error =
    when (not (is_empty error)) (el_class "div" (codes "bg-red-50 text-red-600") (text error ∷ []))

abbrev pub login_form : Login → Node Event
login_form p = form submitted (
    nodes (
      el "label" (txt "Usuário" ∷ [])
      ∷ input true p.username username_changed
      ∷ el "label" (txt "Senha" ∷ [])
      ∷ input true p.password password_changed
      ∷ Html.submit p.loading
          (nodes (text (if p.loading then codes "Entrando..." else codes "Entrar") ∷ []))
      ∷ []))

unfoldable pub view : Login → Node Event
view p = el "div" (
    el "div" (
      el "h1" (txt "DNS Filter" ∷ [])
      ∷ el "p" (txt "Faça login para acessar o painel." ∷ [])
      ∷ (error_box p.error ++ (login_form p ∷ [])))
    ∷ [])

error_box-clicks : (e : Text) → Html.all_clicks (nodes (error_box e)) ≡ []
unfolding clicks
error_box-clicks e = elim (Bool-cases (is_empty e)) [ inl h ↦ rw h | inr h ↦ rw h ]

-- The login page can be sent exactly while no login is under way and both fields are filled; it
-- can do nothing else.
pub login-clicks :
    (p : Login)
    → clicks (view p) ≡ (
        if not p.loading && (not (is_empty p.username) && not (is_empty p.password))
        then submitted ∷ []
        else [])
unfolding clicks view
login-clicks p =
    rw (all_clicks-append (error_box p.error) (login_form p ∷ []), error_box-clicks p.error)
      (ground arith)
