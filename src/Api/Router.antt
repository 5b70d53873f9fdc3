-- ===== src/Api/Router.antt =====
-- internal/api/router.go: which middlewares a route passes before its handler.
pub mod Access
pub mod Status
pub mod Effects
pub mod Refreshing
use dns_filter.Prelude.{
  ℕ, ◌/◌, ◌≡◌, Bool, true, false, Option, none, some, Text, codes, nat_beq, if◌then◌else◌,
}
use dns_filter.RateLimit.{Rate, RateLimiter, middleware}
use dns_filter.Api.Numbers.{ℤ}
use dns_filter.Api.Tokens.{AuthUser, Auth, refused, panics, admitted, authenticate}
use dns_filter.Api.Requests
use dns_filter.Api.Requests.{AdminRoute, UserRoute, Route, health_check, login, api, Request}
use dns_filter.Api.Handlers
use dns_filter.Api.Handlers.{
  Libs, Response, write_error, write_json, write_created, status, inserted, of_id, with_id,
  with_body, ask, or_null, or_empty, execute, says, unix,
}

module _ (lib : Libs) where
  -- the handlers below AdminOnly
  unfoldable pub admin_handler : AdminRoute → ℕ → Handlers.Handler lib
  admin_handler AdminRoute.list_users now = ask lib Requests.list_admin_users (or_null lib)
  admin_handler (AdminRoute.create_user b) now = with_body lib b (λ u.
      execute lib (Requests.create_admin_user u) (codes "Erro ao criar usuário: ")
        (write_created lib))
  admin_handler (AdminRoute.update_user id b) now = with_id lib id (λ n.
      with_body lib b
        (λ u. execute lib (Requests.update_admin_user n u) (codes "Erro: ") (says lib "updated")))
  admin_handler (AdminRoute.delete_user id) now =
      with_id lib id
        (λ n. execute lib (Requests.delete_admin_user n) (codes "Erro: ") (says lib "deleted"))
  admin_handler AdminRoute.list_groups now = ask lib Requests.list_groups_ (or_empty lib)
  admin_handler (AdminRoute.create_group b) now = with_body lib b (λ g.
      execute lib (Requests.create_group_ g) (codes "Erro ao criar grupo: ") (write_created lib))
  admin_handler (AdminRoute.update_group id b) now = with_id lib id (λ n.
      with_body lib b
        (λ g. execute lib (Requests.update_group_ n g) (codes "Erro: ") (says lib "updated")))
  admin_handler (AdminRoute.delete_group id) now =
      with_id lib id
        (λ n. execute lib (Requests.delete_group_ n) (codes "Erro: ") (says lib "deleted"))
  admin_handler AdminRoute.list_categories now = ask lib Requests.list_categories_ (or_empty lib)
  admin_handler (AdminRoute.get_group_policy id) now =
      with_id lib id
        (λ n. ask lib (Requests.get_group_blocked_categories n) (λ r. of_id n (or_empty lib r)))
  admin_handler (AdminRoute.set_group_policy id b) now = with_id lib id (λ n.
      with_body lib b
        (λ cs. execute lib (Requests.set_group_policy_ n cs) (codes "Erro: ") (says lib "updated")))
  admin_handler AdminRoute.list_blocklists now = ask lib Requests.list_blocklists_ (or_empty lib)
  admin_handler (AdminRoute.create_blocklist b) now =
      with_body lib b
        (λ l. execute lib (Requests.insert_blocklist l) (codes "Erro: ") (write_created lib))
  admin_handler (AdminRoute.update_blocklist id b) now = with_id lib id (λ n.
      with_body lib b
        (λ l. execute lib (Requests.update_blocklist_ n l) (codes "Erro: ") (says lib "updated")))
  admin_handler (AdminRoute.delete_blocklist id) now =
      with_id lib id
        (λ n. execute lib (Requests.delete_blocklist_ n) (codes "Erro: ") (says lib "deleted"))
  admin_handler (AdminRoute.add_entries id b) now = with_id lib id (λ n. with_body lib b (λ ds.
      execute lib (Requests.insert_blocklist_entries n ds) (codes "Erro: ")
        (λ k. write_json lib (inserted k))))
  admin_handler AdminRoute.reload_lists now = Handlers.reload_lists lib
  admin_handler AdminRoute.download_lists now = Handlers.download_lists lib
  admin_handler (AdminRoute.get_blocklist_categories id) now =
      with_id lib id
        (λ n. ask lib (Requests.get_blocklist_categories_ n) (λ r. of_id n (or_empty lib r)))
  admin_handler (AdminRoute.set_blocklist_categories id b) now = with_id lib id (λ n.
      with_body lib b (λ cs.
        execute lib (Requests.set_blocklist_categories_ n cs) (codes "Erro: ")
          (says lib "updated")))
  admin_handler AdminRoute.list_ranges now = ask lib Requests.list_ip_ranges (or_null lib)
  admin_handler (AdminRoute.create_range b) now = Handlers.create_range lib b
  admin_handler (AdminRoute.update_range id b) now = with_id lib id (λ n.
      with_body lib b
        (λ r. execute lib (Requests.update_ip_range n r) (codes "Erro: ") (says lib "updated")))
  admin_handler (AdminRoute.delete_range id) now =
      with_id lib id
        (λ n. execute lib (Requests.delete_ip_range n) (codes "Erro: ") (says lib "deleted"))

  -- AdminOnly
  unfoldable pub admin_only : AuthUser → Handlers.Handler lib → Handlers.Handler lib
  admin_only user next h =
      if nat_beq user.role 0
      then next h
      else (h, write_error lib (codes "Acesso negado — apenas administradores") 403)

  -- the handlers below AuthMiddleware, for its user
  unfoldable pub user_handler : UserRoute → ℕ → AuthUser → Handlers.Handler lib
  user_handler UserRoute.refresh_token now user = Handlers.refresh_token lib now user
  user_handler UserRoute.get_dashboard_stats now user =
      ask lib Requests.get_dashboard_stats_ (or_null lib)
  user_handler UserRoute.get_metrics now user = Handlers.get_metrics lib now
  user_handler (UserRoute.get_logs q) now user = Handlers.get_logs lib q
  user_handler (UserRoute.invalidate_cache domain) now user = Handlers.invalidate_cache lib domain
  user_handler (UserRoute.admin route) now user = admin_only user (admin_handler route now)

  -- AuthMiddleware's outcome; chi's Recoverer answers a panic with 500
  abbrev pub after_auth : Auth → UserRoute → ℕ → Handlers.Handler lib
  after_auth (refused message) route now h = (h, write_error lib message 401)
  after_auth panics route now h = (h, record { code = 500; body = Handlers.nothing })
  after_auth (admitted user) route now h = user_handler route now user h

  -- AuthMiddleware before the handlers below it
  unfoldable pub serve_user : UserRoute → Text → ℕ → Handlers.Handler lib
  serve_user route authorization now h =
      after_auth (authenticate lib.jwt h.jwt_secret (unix now) authorization) route now h

  abbrev pub too_many : Handlers.Reply lib
  too_many = write_error lib (codes "Muitas requisições. Tente novamente em alguns segundos.") 429

  -- what comes after a limiter, on the state with its tokens taken
  abbrev pub limited : Option (Handlers.Handler lib) → Handlers.Handler lib
  limited none h = (h, too_many)
  limited (some next) h = next h

  -- the middlewares of a route, and its handler
  abbrev pub serve_route : Route → Request → ℕ → Handlers.Handler lib
  serve_route health_check r now h = Handlers.health_check lib h
  serve_route (login body) r now h =
      let (rl, next) =
        middleware lib.rate now r.remote_addr r.real_ip (Handlers.login lib now body)
          h.login_limiter in
      limited next (record h { login_limiter = rl })
  serve_route (api route) r now h =
      let (rl, next) =
        middleware lib.rate now r.remote_addr r.real_ip (serve_user route r.authorization now)
          h.api_limiter in
      limited next (record h { api_limiter = rl })

  -- NewRouter's handler at the time `now`, on the routes that it names
  unfoldable pub serve : Request → ℕ → Handlers.Handler lib
  serve r now = serve_route r.route r now
