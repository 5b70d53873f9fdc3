-- ===== src/Web/Session/Access.antt =====
-- Who sees which page of the dashboard (web/src/App.tsx).
use dns_filter.Prelude.{
  ◌≡◌, refl, Bool, true, false, [], ◌∷◌, Option, none, some, Text, is_empty, arith, if◌then◌else◌,
  text_beq,
}
use dns_filter.Web.Session.{
  Tab, Login, Screen, navigate, nothing, submitted, logout, protected_route, app,
}

-- A screen that shows nothing of the dashboard.
abbrev pub is_public : Screen → Bool
is_public Screen.login = true
is_public (navigate _) = true
is_public nothing = true
is_public _ = false

abbrev pub has_token : Option Text → Bool
has_token none = false
has_token (some t) = if is_empty t then false else true

route-public :
    (token : Option Text) (s : Screen)
    → has_token token ≡ false
    → is_public (protected_route token s) ≡ true
unfolding protected_route
route-public none s e = refl
route-public (some t) s e = ground (arith, e)

submitted-app :
    (t : Tab) (p : Login) (token : Text)
    → has_token (some token) ≡ true
    → app (submitted (some token) p t).1 ≡ Screen.dashboard
unfolding app submitted protected_route text_beq
submitted-app t p [] e = ground (arith, e)
submitted-app t p (c ∷ token) e = refl

-- Without a token, or with an empty one, no path shows a page of the dashboard.
pub app-is_public : (t : Tab) → has_token t.token ≡ false → is_public (app t) ≡ true
unfolding app
app-is_public t out = ground (
  arith,
  route-public t.token Screen.dashboard out,
  route-public t.token Screen.logs out,
  route-public t.token Screen.users out,
  route-public t.token Screen.groups out,
  route-public t.token Screen.lists out,
  route-public t.token Screen.ranges out,
)

-- Logging in with a token that is not empty opens the dashboard; logging out after it leads to the
-- login page, and from there no path shows a page of the dashboard.
pub app-logout :
    (t : Tab) (p : Login) (token path : Text)
    → has_token (some token) ≡ true
    → (app (submitted (some token) p t).1 ≡ Screen.dashboard)
      × (app (logout (submitted (some token) p t).1) ≡ Screen.login)
      × (is_public (app (record (logout (submitted (some token) p t).1) { path = path })) ≡ true)
unfolding app logout protected_route text_beq
app-logout t p token path e = (
  submitted-app t p token e,
  refl,
  app-is_public (record (logout (submitted (some token) p t).1) { path = path }) refl,
)
