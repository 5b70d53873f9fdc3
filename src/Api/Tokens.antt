-- ===== src/Api/Tokens.antt =====
-- The tokens of internal/api/handlers.go: Login, AuthMiddleware and RefreshToken.
use dns_filter.Prelude.{
  ℕ, ◌+◌, ◌^◌, ◌<◌, ◌≡◌, not, ◌&&◌, [], ◌∷◌, Option, none, some, Text, codes, has_prefix, is_empty,
  ltb, if◌then◌else◌,
}

pub record AuthUser : Type 0 where
  pub id : ℕ
  pub username : Text
  pub role : ℕ

-- The claims that Login and RefreshToken sign; times are in seconds.
pub record Claims : Type 0 where
  pub user : AuthUser
  pub exp : ℕ
  pub iat : ℕ

-- jwt.MapClaims, as far as AuthMiddleware reads it: a claim that is missing or of another type is none
pub record MapClaims : Type 0 where
  pub user_id : Option ℕ
  pub username : Option Text
  pub role : Option ℕ

pub data Method : Type 0 where
  hmac other_method : Method

-- github.com/golang-jwt/jwt: SignedString under HS256, and Parse with its key function at a time,
-- none where it fails or the token is not valid
pub record Jwt : Type 0 where
  pub sign : Text → Claims → Option Text
  pub parse : (Method → Option Text) → ℕ → Text → Option MapClaims

abbrev pub to_map : Claims → MapClaims
to_map c = record {
  user_id = some c.user.id;
  username = some c.user.username;
  role = some c.user.role;
}

-- A claim passes through JSON as a float64, which is exact below 2 ^ 53.
abbrev pub IsExact : AuthUser → Type 0
IsExact u = (u.id < 2 ^ 53) × (u.role < 2 ^ 53)

-- What the library documents: a token that was signed is parsed under the same key until it expires.
pub record IsJwt (lib : Jwt) : Type 0 where
  pub parse-sign :
      (keys : Method → Option Text) (secret : Text) (c : Claims) (token : Text) (now : ℕ)
      → IsExact c.user
      → keys hmac ≡ some secret
      → lib.sign secret c ≡ some token
      → lib.parse keys now token ≡ (if ltb now c.exp then some (to_map c) else none)

-- the claims of Login and RefreshToken
abbrev pub new_claims : ℕ → AuthUser → Claims
new_claims now user = record { user = user; exp = now + 3600; iat = now }

-- the key function of AuthMiddleware
abbrev pub key_function : Text → Method → Option Text
key_function secret hmac = some secret
key_function secret other_method = none

abbrev pub after_bearer : Text → Text
after_bearer (b ∷ e ∷ a ∷ r ∷ e2 ∷ r2 ∷ space ∷ token) = token
after_bearer s = []

-- `len(tokenStr) > 7 && tokenStr[:7] == "Bearer "`, and the rest
unfoldable pub bearer_token : Text → Option Text
bearer_token header =
    if has_prefix header (codes "Bearer ") && not (is_empty (after_bearer header))
    then some (after_bearer header)
    else none

-- What AuthMiddleware makes of a request: refused with a message, a panic in a type assertion, or
-- the user.
pub data Auth : Type 0 where
  refused : Text → Auth
  panics : Auth
  admitted : AuthUser → Auth

-- the three type assertions
abbrev user_from : Option ℕ → Option Text → Option ℕ → Auth
user_from (some id) (some name) (some role) =
    admitted (record { id = id; username = name; role = role })
user_from id name role = panics

abbrev pub user_of : MapClaims → Auth
user_of c = user_from c.user_id c.username c.role

abbrev pub of_claims : Option MapClaims → Auth
of_claims none = refused (codes "Token inválido")
of_claims (some c) = user_of c

abbrev pub of_token : Jwt → Text → ℕ → Option Text → Auth
of_token lib secret now none = refused (codes "Token não fornecido")
of_token lib secret now (some token) = of_claims (lib.parse (key_function secret) now token)

-- AuthMiddleware, on the header Authorization
unfoldable pub authenticate : Jwt → Text → ℕ → Text → Auth
authenticate lib secret now header = of_token lib secret now (bearer_token header)
