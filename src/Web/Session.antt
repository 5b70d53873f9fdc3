-- ===== src/Web/Session.antt =====
-- Logging in and out of the dashboard: web/src/pages/Login.tsx, web/src/App.tsx (ProtectedRoute) and
-- web/src/layouts/MainLayout.tsx (handleLogout).
pub mod Access
pub mod LoginView
pub mod Layout
pub mod Links
use dns_filter.Prelude.{
  ℕ, ◌≡◌, refl, Bool, true, false, List, [], ◌∷◌, Option, none, some, Text, codes, is_empty, arith,
  if◌then◌else◌, text_beq, ◌||◌, ◌≢◌,
}

-- The part of the browser that outlives a page.
pub record Tab : Type 0 where
  pub token : Option Text
  pub path : Text

pub record Login : Type 0 where
  pub username : Text
  pub password : Text
  pub error : Text
  pub loading : Bool

pub data Screen : Type 0 where
  login : Screen
  dashboard : Screen
  logs : Screen
  users : Screen
  groups : Screen
  lists : Screen
  ranges : Screen
  navigate : Text → Screen
  nothing : Screen

-- handleSubmit up to its request, which sends the name and the password
unfoldable pub submit : Login → Login × (Text × Text)
submit p = (record p { error = []; loading = true }, (p.username, p.password))

-- handleSubmit on the answer's token, none where the request fails
unfoldable pub submitted : Option Text → Login → Tab → Login × Tab
submitted none p t = (record p { error = codes "Usuário ou senha inválidos"; loading = false }, t)
submitted (some token) p t =
    let t' : Tab = record { token = some token; path = codes "/" } in
    (record p { loading = false }, t')

-- handleLogout
unfoldable pub logout : Tab → Tab
logout t = record { token = none; path = codes "/login" }

-- ProtectedRoute: `!token` holds for no token and for an empty one
unfoldable pub protected_route : Option Text → Screen → Screen
protected_route none s = navigate (codes "/login")
protected_route (some token) s = if is_empty token then navigate (codes "/login") else s

-- App: the route of a path, exact and without parameters
unfoldable pub app : Tab → Screen
unfolding protected_route
app t =
    if text_beq t.path (codes "/login")
    then login
    else if text_beq t.path (codes "/")
    then protected_route t.token dashboard
    else if text_beq t.path (codes "/logs")
    then protected_route t.token logs
    else if text_beq t.path (codes "/users")
    then protected_route t.token users
    else if text_beq t.path (codes "/groups")
    then protected_route t.token groups
    else if text_beq t.path (codes "/lists")
    then protected_route t.token lists
    else if text_beq t.path (codes "/ranges")
    then protected_route t.token ranges
    else nothing
