-- ===== src/Api/Router/Status.antt =====
-- The requests that internal/api answers with 401.
use dns_filter.Prelude.{
  ℕ, ◌≡◌, ◌⊎◌, refl, inl, inr, Bool, true, false, List, [], ◌∷◌, Option, none, some, Text, codes,
  nat_beq, Bool-cases,
}
use dns_filter.Identity.{IpNet}
use dns_filter.Api.Numbers.{atoi, ℤ}
use dns_filter.Api.Tokens.{AuthUser, Auth, refused, panics, admitted, authenticate, new_claims}
use dns_filter.Api.Requests
use dns_filter.Api.Requests.{AdminRoute, UserRoute, RangeBody, Query, Command}
use dns_filter.Api.Handlers
use dns_filter.Api.Handlers.{Libs, Handlers, Response, unix, Body, with_id, with_body, ask, execute}
use dns_filter.Api.Router.{admin_handler, admin_only, user_handler, after_auth, serve_user}

-- AuthMiddleware refuses the request
abbrev pub is_refused : Auth → Bool
is_refused (refused m) = true
is_refused panics = false
is_refused (admitted user) = false

module _ (lib : Libs) where
  abbrev pub is_401 : Handlers.Reply lib → Bool
  is_401 r = nat_beq r.code 401

  -- a handler that never answers 401
  abbrev Never : Handlers.Handler lib → Type 0
  Never next = (h : Handlers lib) → is_401 (next h).1 ≡ false

  ask-Never :
      (q : Query) (write : Option lib.store.Rows → Body lib.store.Rows) → Never (ask lib q write)
  ask-Never q write h = answer (lib.store.query h.db q)
    where
      answer :
          (r : Text ⊎ Option lib.store.Rows) → is_401 (Handlers.answer_rows lib write r) ≡ false
      answer (inl err) = refl
      answer (inr r) = refl

  execute-Never :
      (c : Command) (prefix : Text) (write : ℕ → Handlers.Reply lib)
      → ((n : ℕ) → is_401 (write n) ≡ false)
      → Never (execute lib c prefix write)
  execute-Never c prefix write w h = answer (lib.store.execute h.db c).1
    where
      answer : (r : Text ⊎ ℕ) → is_401 (Handlers.answer_done lib prefix write r) ≡ false
      answer (inl err) = refl
      answer (inr n) = w n

  with_number-Never :
      (r : ℤ × Bool) (next : ℤ → Handlers.Handler lib)
      → ((n : ℤ) → Never (next n))
      → Never (Handlers.with_number lib r next)
  with_number-Never (n, true) next never h = never n h
  with_number-Never (n, false) next never h = refl

  with_id-Never :
      (id : Text) (next : ℤ → Handlers.Handler lib)
      → ((n : ℤ) → Never (next n))
      → Never (with_id lib id next)
  with_id-Never id next never h = with_number-Never (atoi id) next never h

  with_body-Never :
      {B : Type 0} (b : Option B) (next : B → Handlers.Handler lib)
      → ((x : B) → Never (next x))
      → Never (with_body lib b next)
  with_body-Never none next never h = refl
  with_body-Never (some b) next never h = never b h

  -- an edit of the row whose id stands in the path
  edit-Never :
      {B : Type 0} (id : Text) (b : Option B) (c : ℤ → B → Command) (write : ℕ → Handlers.Reply lib)
      → ((n : ℕ) → is_401 (write n) ≡ false)
      → Never
          (with_id lib id (λ n. with_body lib b (λ x. execute lib (c n x) (codes "Erro: ") write)))
  edit-Never id b c write w =
      with_id-Never id _
        (λ n. with_body-Never b _ (λ x. execute-Never (c n x) (codes "Erro: ") write w))

  create-Never :
      {B : Type 0} (b : Option B) (c : B → Command) (prefix : Text)
      → Never (with_body lib b (λ x. execute lib (c x) prefix (Handlers.write_created lib)))
  create-Never b c prefix =
      with_body-Never b _ (λ x. execute-Never (c x) prefix (Handlers.write_created lib) (λ n. refl))

  remove-Never :
      (id : Text) (c : ℤ → Command)
      → Never
          (with_id lib id (λ n. execute lib (c n) (codes "Erro: ") (Handlers.says lib "deleted")))
  remove-Never id c =
      with_id-Never id _
        (λ n. execute-Never (c n) (codes "Erro: ") (Handlers.says lib "deleted") (λ k. refl))

  reload_with-Never : (r : Text ⊎ (List Text × List Text)) → Never (Handlers.reload_with lib r)
  reload_with-Never (inl err) h = refl
  reload_with-Never (inr x) h = refl

  download_from-Never : (r : Text ⊎ List (ℕ × Text × Text)) → Never (Handlers.download_from lib r)
  unfolding Handlers.download_all
  download_from-Never (inl err) h = refl
  download_from-Never (inr []) h = refl
  download_from-Never (inr (l ∷ ls)) h = refl

  created_range-Never :
      (net : IpNet) (b : RangeBody) (r : Text ⊎ ℕ) → Never (Handlers.created_range lib net b r)
  created_range-Never net b (inl err) h = refl
  created_range-Never net b (inr id) h = refl

  create_range_in-Never :
      (net : Option IpNet) (b : RangeBody) → Never (Handlers.create_range_in lib net b)
  create_range_in-Never none b h = refl
  create_range_in-Never (some net) b h =
      let (db, result) = lib.store.execute h.db (Requests.create_ip_range b) in
      created_range-Never net b result (record h { db = db })

  admin_handler-Never : (route : AdminRoute) (now : ℕ) → Never (admin_handler lib route now)
  unfolding admin_handler Handlers.reload_lists Handlers.download_lists Handlers.create_range
  admin_handler-Never AdminRoute.list_users now = ask-Never _ _
  admin_handler-Never (AdminRoute.create_user b) now =
      create-Never b _ (codes "Erro ao criar usuário: ")
  admin_handler-Never (AdminRoute.update_user id b) now = edit-Never id b _ _ (λ n. refl)
  admin_handler-Never (AdminRoute.delete_user id) now = remove-Never id _
  admin_handler-Never AdminRoute.list_groups now = ask-Never _ _
  admin_handler-Never (AdminRoute.create_group b) now =
      create-Never b _ (codes "Erro ao criar grupo: ")
  admin_handler-Never (AdminRoute.update_group id b) now = edit-Never id b _ _ (λ n. refl)
  admin_handler-Never (AdminRoute.delete_group id) now = remove-Never id _
  admin_handler-Never AdminRoute.list_categories now = ask-Never _ _
  admin_handler-Never (AdminRoute.get_group_policy id) now = with_id-Never id _ (λ n. ask-Never _ _)
  admin_handler-Never (AdminRoute.set_group_policy id b) now = edit-Never id b _ _ (λ n. refl)
  admin_handler-Never AdminRoute.list_blocklists now = ask-Never _ _
  admin_handler-Never (AdminRoute.create_blocklist b) now = create-Never b _ (codes "Erro: ")
  admin_handler-Never (AdminRoute.update_blocklist id b) now = edit-Never id b _ _ (λ n. refl)
  admin_handler-Never (AdminRoute.delete_blocklist id) now = remove-Never id _
  admin_handler-Never (AdminRoute.add_entries id b) now = edit-Never id b _ _ (λ n. refl)
  admin_handler-Never AdminRoute.reload_lists now =
      λ h. reload_with-Never (lib.store.load_active_blocklist_entries h.db) h
  admin_handler-Never AdminRoute.download_lists now =
      λ h. download_from-Never (lib.store.external_lists h.db) h
  admin_handler-Never (AdminRoute.get_blocklist_categories id) now =
      with_id-Never id _ (λ n. ask-Never _ _)
  admin_handler-Never (AdminRoute.set_blocklist_categories id b) now =
      edit-Never id b _ _ (λ n. refl)
  admin_handler-Never AdminRoute.list_ranges now = ask-Never _ _
  admin_handler-Never (AdminRoute.create_range b) now =
      with_body-Never b _ (λ r. create_range_in-Never (lib.parse_cidr r.cidr) r)
  admin_handler-Never (AdminRoute.update_range id b) now = edit-Never id b _ _ (λ n. refl)
  admin_handler-Never (AdminRoute.delete_range id) now = remove-Never id _

  give_token-Never : (now : ℕ) (user : AuthUser) → Never (Handlers.give_token lib now user)
  give_token-Never now user h = answer (lib.jwt.sign h.jwt_secret (new_claims (unix now) user))
    where
      answer : (t : Option Text) → is_401 (Handlers.answer_token lib t) ≡ false
      answer none = refl
      answer (some t) = refl

  get_logs-Never : (q : List (Text × Text)) → Never (Handlers.get_logs lib q)
  unfolding Handlers.get_logs
  get_logs-Never q h = answer (lib.store.query_logs h.db (Handlers.log_filter q))
    where
      answer :
          (r : Text ⊎ (Option lib.store.Rows × ℕ))
          → is_401 (Handlers.answer_logs lib (Handlers.log_filter q) r) ≡ false
      answer (inl err) = refl
      answer (inr r) = refl

  user_handler-Never :
      (route : UserRoute) (now : ℕ) (user : AuthUser) → Never (user_handler lib route now user)
  unfolding user_handler admin_only Handlers.refresh_token Handlers.get_metrics
      Handlers.invalidate_cache
  user_handler-Never UserRoute.refresh_token now user h = give_token-Never now user h
  user_handler-Never UserRoute.get_dashboard_stats now user h = ask-Never _ _ h
  user_handler-Never UserRoute.get_metrics now user h = refl
  user_handler-Never (UserRoute.get_logs q) now user h = get_logs-Never q h
  user_handler-Never (UserRoute.invalidate_cache domain) now user h = refl
  user_handler-Never (UserRoute.admin route) now user h = elim (Bool-cases (nat_beq user.role 0)) [
    | inl admin ↦ rw (admin, admin_handler-Never route now h)
    | inr viewer ↦ rw viewer
  ]

  after_auth-is_401 :
      (auth : Auth) (route : UserRoute) (now : ℕ) (h : Handlers lib)
      → is_401 (after_auth lib auth route now h).1 ≡ is_refused auth
  after_auth-is_401 (refused m) route now h = refl
  after_auth-is_401 panics route now h = refl
  after_auth-is_401 (admitted user) route now h = user_handler-Never route now user h

  -- Below AuthMiddleware a request is answered with 401 exactly where the middleware refuses its
  -- header: no handler behind it gives that status.
  pub serve_user-is_401 :
      (route : UserRoute) (authorization : Text) (now : ℕ) (h : Handlers lib)
      → is_401 (serve_user lib route authorization now h).1
        ≡ is_refused (authenticate lib.jwt h.jwt_secret (unix now) authorization)
  unfolding serve_user
  serve_user-is_401 route authorization now h =
      after_auth-is_401 (authenticate lib.jwt h.jwt_secret (unix now) authorization) route now h
