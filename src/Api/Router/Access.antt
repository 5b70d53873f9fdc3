-- ===== src/Api/Router/Access.antt =====
-- Who may change what through the API (internal/api/router.go, AuthMiddleware and AdminOnly).
use dns_filter.Prelude.{
  ℕ, ◌≡◌, ◌⊎◌, refl, inl, inr, Bool, true, false, Option, none, some, Text, nat_beq, nat_beq_iff,
  Bool-cases, if◌then◌else◌,
}
use dns_filter.RateLimit.{middleware, take_token, client_of}
use dns_filter.Api.Tokens.{AuthUser, Auth, refused, panics, admitted, authenticate}
use dns_filter.Api.Requests.{UserRoute, Route, health_check, login, api, Request, Credentials}
use dns_filter.Api.Handlers
use dns_filter.Api.Handlers.{Libs, Handlers, Response, unix, Body}
use dns_filter.Api.Router.{
  admin_only, user_handler, after_auth, serve_user, limited, serve_route, serve,
}

module _ (lib : Libs) where
  -- the database, the two lists and the resolver are as they were
  abbrev pub IsSame : Handlers lib → Handlers lib → Type 0
  IsSame h h' =
      (h'.db ≡ h.db) × (h'.black ≡ h.black) × (h'.white ≡ h.white) × (h'.identity ≡ h.identity)

  give_token-IsSame :
      (now : ℕ) (user : AuthUser) (h : Handlers lib)
      → IsSame h (Handlers.give_token lib now user h).0
  give_token-IsSame now user h = (refl, refl, refl, refl)

  login_as-IsSame :
      (now : ℕ) (found : Text ⊎ Option AuthUser) (h : Handlers lib)
      → IsSame h (Handlers.login_as lib now found h).0
  login_as-IsSame now (inl err) h = (refl, refl, refl, refl)
  login_as-IsSame now (inr none) h = (refl, refl, refl, refl)
  login_as-IsSame now (inr (some user)) h = (refl, refl, refl, refl)

  login-IsSame :
      (now : ℕ) (b : Option Credentials) (h : Handlers lib)
      → IsSame h (Handlers.login lib now b h).0
  unfolding Handlers.login
  login-IsSame now none h = (refl, refl, refl, refl)
  login-IsSame now (some c) h =
      login_as-IsSame now (lib.store.authenticate_admin h.db c.username c.password) h

  -- a user that is not an administrator
  viewer-IsSame :
      (route : UserRoute) (now : ℕ) (user : AuthUser) (h : Handlers lib)
      → nat_beq user.role 0 ≡ false
      → IsSame h (user_handler lib route now user h).0
  unfolding user_handler admin_only Handlers.refresh_token Handlers.get_metrics Handlers.get_logs
      Handlers.invalidate_cache
  viewer-IsSame UserRoute.refresh_token now user h viewer = (refl, refl, refl, refl)
  viewer-IsSame UserRoute.get_dashboard_stats now user h viewer = (refl, refl, refl, refl)
  viewer-IsSame UserRoute.get_metrics now user h viewer = (refl, refl, refl, refl)
  viewer-IsSame (UserRoute.get_logs q) now user h viewer = (refl, refl, refl, refl)
  viewer-IsSame (UserRoute.invalidate_cache domain) now user h viewer = (refl, refl, refl, refl)
  viewer-IsSame (UserRoute.admin route) now user h viewer = rw viewer (refl, refl, refl, refl)

  -- the header of the request is an administrator's
  abbrev pub IsAdmin : Text → ℕ → Handlers lib → Type 0
  IsAdmin authorization now h =
      (user : AuthUser) × (authenticate lib.jwt h.jwt_secret (unix now) authorization
        ≡ admitted user)
      × (user.role ≡ 0)

  after_auth-IsSame :
      (auth : Auth) (route : UserRoute) (now : ℕ) (h : Handlers lib)
      → IsSame h (after_auth lib auth route now h).0
        ⊎ ((user : AuthUser) × (auth ≡ admitted user) × (user.role ≡ 0))
  after_auth-IsSame (refused m) route now h = inl (refl, refl, refl, refl)
  after_auth-IsSame panics route now h = inl (refl, refl, refl, refl)
  after_auth-IsSame (admitted user) route now h = elim (Bool-cases (nat_beq user.role 0)) [
    | inl admin ↦ inr (user, refl, (nat_beq_iff user.role 0).0 admin)
    | inr viewer ↦ inl (viewer-IsSame route now user h viewer)
  ]

  limited-IsSame :
      (ok : Bool) (next : Handlers.Handler lib) (h : Handlers lib) (P : Type 0)
      → IsSame h (next h).0 ⊎ P
      → IsSame h (limited lib (if ok then some next else none) h).0 ⊎ P
  limited-IsSame true next h P s = s
  limited-IsSame false next h P s = inl (refl, refl, refl, refl)

  serve_route-IsSame :
      (route : Route) (r : Request) (now : ℕ) (h : Handlers lib)
      → IsSame h (serve_route lib route r now h).0 ⊎ IsAdmin r.authorization now h
  unfolding middleware Handlers.health_check serve_user
  serve_route-IsSame health_check r now h = inl (refl, refl, refl, refl)
  serve_route-IsSame (login body) r now h =
      let (rl, ok) =
        take_token lib.rate now (client_of lib.rate r.remote_addr r.real_ip) h.login_limiter in
      let h' : Handlers lib = record h { login_limiter = rl } in
      limited-IsSame ok (Handlers.login lib now body) h' (IsAdmin r.authorization now h)
        (inl (login-IsSame now body h'))
  serve_route-IsSame (api route) r now h =
      let (rl, ok) =
        take_token lib.rate now (client_of lib.rate r.remote_addr r.real_ip) h.api_limiter in
      let h' : Handlers lib = record h { api_limiter = rl } in
      limited-IsSame ok (serve_user lib route r.authorization now) h'
        (IsAdmin r.authorization now h)
        (after_auth-IsSame (authenticate lib.jwt h.jwt_secret (unix now) r.authorization) route now
          h')

  -- Whatever the request, it leaves the database, both lists and the resolver as they were, unless
  -- its header carries a token that the middleware admits for a user of role 0.
  pub serve-IsSame :
      (r : Request) (now : ℕ) (h : Handlers lib)
      → IsSame h (serve lib r now h).0 ⊎ IsAdmin r.authorization now h
  unfolding serve
  serve-IsSame r now h = serve_route-IsSame r.route r now h
