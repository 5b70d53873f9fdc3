-- ===== src/Api/Router/Refreshing.antt =====
-- The life of a token: Login and RefreshToken of internal/api/handlers.go, AuthMiddleware, and the
-- refresh that web/src/api/client.ts tries.
use dns_filter.Prelude.{
  ℕ, ◌+◌, ◌≤◌, ◌≡◌, refl, ap, ◌∙◌, sym, inl, inr, true, false, ◌++◌, Option, none, some, Text,
  codes, is_empty, ltb, nat_beq, Bool-cases, arith, if◌then◌else◌, has_prefix,
}
use dns_filter.Api.Tokens.{
  AuthUser, Claims, Jwt, IsJwt, IsExact, Auth, refused, admitted, new_claims, key_function,
  bearer_token, authenticate,
}
use dns_filter.Api.Requests.{UserRoute, Credentials, refresh_token}
use dns_filter.Api.Handlers
use dns_filter.Api.Handlers.{Libs, Handlers, Response, Body, unix, second}
use dns_filter.Api.Router.{serve_user}
use dns_filter.Api.Router.Status.{is_401, is_refused, serve_user-is_401}
use dns_filter.Web.Client.{Browser, Config, on_refreshed}

-- the header that web/src/api/client.ts sets
abbrev pub bearer_header : Text → Text
bearer_header token = codes "Bearer " ++ token

bearer_token_lem :
    (token : Text) → is_empty token ≡ false → bearer_token (bearer_header token) ≡ some token
unfolding bearer_token has_prefix
bearer_token_lem token full = rw full

-- A signed token is admitted for its user until it expires, and then refused.
authenticate-sign :
    (lib : Jwt) (secret : Text) (c : Claims) (token : Text) (now : ℕ)
    → IsJwt lib
    → IsExact c.user
    → lib.sign secret c ≡ some token
    → is_empty token ≡ false
    → authenticate lib secret now (bearer_header token)
      ≡ (if ltb now c.exp then admitted c.user else refused (codes "Token inválido"))
unfolding authenticate
authenticate-sign lib secret c token now law exact signed full =
    rw
      (
        bearer_token_lem token full,
        law.parse-sign (key_function secret) secret c token now exact refl signed,
      )
      (elim (Bool-cases (ltb now c.exp)) [ inl e ↦ rw e | inr e ↦ rw e ])

module _ (lib : Libs) where
  -- the token that the client takes from an answer: none where the request fails
  abbrev token_of : Body lib.store.Rows → Option Text
  token_of (Body.token t) = some t
  token_of b = none

  abbrev pub reply_token : Response lib.store.Rows → Option Text
  reply_token r = if nat_beq r.code 200 then token_of r.body else none

  -- With a token library that keeps its documented law: where the database has the user of the
  -- credentials, with an id and a role below 2 ^ 53, and the signing gives a token that is not
  -- empty, Login answers with that token, and until an hour has passed, in whole seconds, the
  -- middleware admits it for that same user, and refuses it from then on.
  pub login-authenticate :
      (now later : ℕ) (c : Credentials) (h : Handlers lib) (user : AuthUser) (t : Text)
      → IsJwt lib.jwt
      → IsExact user
      → lib.store.authenticate_admin h.db c.username c.password ≡ inr (some user)
      → lib.jwt.sign h.jwt_secret (new_claims (unix now) user) ≡ some t
      → is_empty t ≡ false
      → (reply_token (Handlers.login lib now (some c) h).1 ≡ some t)
        × (authenticate lib.jwt h.jwt_secret (unix later) (bearer_header t) ≡ (
            if ltb (unix later) (unix now + 3600)
            then admitted user
            else refused (codes "Token inválido")))
  unfolding Handlers.login
  login-authenticate now later c h user t law exact found signed full = (
    rw (found, signed),
    authenticate-sign lib.jwt h.jwt_secret (new_claims (unix now) user) t (unix later) law exact
        signed full,
  )

  -- a browser that was sent to the login page without a token
  abbrev pub IsLoggedOut : Browser → Type 0
  IsLoggedOut b = (b.token ≡ none) × (b.at_login ≡ true)

  -- what the middleware makes of a token that expires at `exp`
  abbrev until : ℕ → ℕ → AuthUser → Auth
  until now exp user = if ltb now exp then admitted user else refused (codes "Token inválido")

  refused_later :
      (now later exp : ℕ) (user : AuthUser)
      → now ≤ later
      → is_refused (until now exp user) ≡ true
      → until later exp user ≡ refused (codes "Token inválido")
  refused_later now later exp user le out = elim (Bool-cases (ltb now exp)) [
    | inl valid ↦ ground (arith, out, valid)
    | inr expired ↦ ground (arith, expired, le)
  ]

  refresh_refused :
      (later : ℕ) (h : Handlers lib) (t m : Text) (b : Browser) (request : Config)
      → authenticate lib.jwt h.jwt_secret (unix later) (bearer_header t) ≡ refused m
      → let answer = (serve_user lib refresh_token (bearer_header t) later h).1 in
        (is_401 lib answer ≡ true) × IsLoggedOut (on_refreshed (reply_token answer) b request).0
  unfolding serve_user on_refreshed
  refresh_refused later h t m b request e = rw e (refl, (refl, refl))

  -- With a token library that keeps its documented law: where a request below the middleware is
  -- answered with 401 although its token, not empty, was signed here for a user whose id and role
  -- are below 2 ^ 53, a refresh with that token in the same second or later, under the same secret,
  -- is answered with 401 too, and the client that waits for it sends the user to the login page.
  pub refresh_too_late :
      (route : UserRoute) (now later : ℕ) (h h' : Handlers lib) (c : Claims) (t : Text)
      (b : Browser) (request : Config)
      → IsJwt lib.jwt
      → IsExact c.user
      → h'.jwt_secret ≡ h.jwt_secret
      → lib.jwt.sign h.jwt_secret c ≡ some t
      → is_empty t ≡ false
      → unix now ≤ unix later
      → is_401 lib (serve_user lib route (bearer_header t) now h).1 ≡ true
      → let answer = (serve_user lib refresh_token (bearer_header t) later h').1 in
        (is_401 lib answer ≡ true) × IsLoggedOut (on_refreshed (reply_token answer) b request).0
  refresh_too_late route now later h h' c t b request law exact same signed full le unauthorized =
      let first = authenticate-sign lib.jwt h.jwt_secret c t (unix now) law exact signed full in
      let last =
        authenticate-sign lib.jwt h'.jwt_secret c t (unix later) law exact
          (ap (λ s. lib.jwt.sign s c) same ∙ signed) full in
      let out =
        sym (ap (is_refused) first)
        ∙ sym (serve_user-is_401 lib route (bearer_header t) now h)
        ∙ unauthorized in
      refresh_refused later h' t (codes "Token inválido") b request
        (last ∙ refused_later (unix now) (unix later) c.exp c.user le out)
