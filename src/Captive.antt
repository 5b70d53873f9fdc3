-- ===== src/Captive.antt =====
-- internal/captive/server.go: the login page of the captive portal.
pub mod Redirects
pub mod Login
pub mod Page
use dns_filter.Prelude.{
  ℕ, ◌+◌, Bool, true, false, not, ◌&&◌, List, [], ◌∷◌, ◌++◌, Option, none, some, ◌||◌, ◌==◌, ltb,
  length, nat_eq, if◌then◌else◌, Text, codes, text_eq, has_prefix, is_empty, Map, lookup,
}
use dns_filter.Identity.{Ip, Session, Resolver, add_session, get_range_group_id}
use dns_filter.Handler.{Net}

pub record UserInfo : Type 0 where
  pub user_id : ℕ
  pub group_id : ℕ

-- the interface Authenticator
abbrev pub Authenticator : Type 0
Authenticator = Text → Text → Option UserInfo

pub record StaticUser : Type 0 where
  pub password : Text
  pub user_id : ℕ
  pub group_id : ℕ

-- StaticCredentials.Authenticate
unfoldable pub static_authenticate : Map Text StaticUser → Authenticator
static_authenticate users username password = elim (lookup username users) [
  | none ↦ none
  | some u ↦
      if u.password == password
      then some (record { user_id = u.user_id; group_id = u.group_id })
      else none
]

-- DBAuthenticator.Authenticate (internal/captive/db_auth.go): `row` is what the query for an
-- active user answers, `matches` is bcrypt's comparison of a hash with a password
unfoldable pub db_authenticate : (Text → Option (ℕ × Text)) → (Text → Text → Bool) → Authenticator
db_authenticate row matches username password = elim (row username) [
  | none ↦ none
  | some (id, hash) ↦
      if matches hash password then some (record { user_id = id; group_id = 0 }) else none
]

-- Server
pub record Portal : Type 0 where
  pub resolver : Resolver
  pub auth : Authenticator
  pub session_ttl : ℕ

pub record Request : Type 0 where
  pub is_post : Bool
  pub username : Text
  pub password : Text
  pub redirect : Text
  pub remote_addr : Text

pub data Response : Type 0 where
  see_other : Text → Response
  internal_error : Response
  success_page : Response

-- isValidRedirect
unfoldable pub is_valid_redirect : Text → Bool
is_valid_redirect url =
    if has_prefix url (codes "/")
    then not (has_prefix url (codes "//"))
    else ltb 7 (length url)
      && (has_prefix url (codes "http://") || has_prefix url (codes "https://"))

-- the location that a failed login is sent to
abbrev pub login_failed : Text → Text
login_failed redirect = codes "/?error=Usuário ou senha inválidos&redirect=" ++ redirect

-- the end of Server.handleAuth
unfoldable pub after_login : Text → Response
after_login redirect =
    if not (is_empty redirect) && is_valid_redirect redirect
    then see_other redirect
    else success_page

-- the group of a new session
abbrev pub session_group : Resolver → Ip → UserInfo → ℕ
session_group r client user =
    let group = get_range_group_id r client in if group == 0 then user.group_id else group

-- the session that a login registers
abbrev pub new_session : Portal → ℕ → Ip → Text → UserInfo → Session
new_session s now client username user = record {
  client_ip = client;
  user_id = user.user_id;
  username = username;
  group_id = session_group s.resolver client user;
  expires_at = now + s.session_ttl;
}

-- Server.handleAuth at the time `now`
unfoldable pub handle_auth : Net → ℕ → Request → Portal → Portal × Response
handle_auth net now r s =
    if not r.is_post then (s, see_other (codes "/")) else elim (s.auth r.username r.password) [
      | none ↦ (s, see_other (login_failed r.redirect))
      | some user ↦ elim (net.split_host r.remote_addr) [
        | none ↦ (s, internal_error)
        | some host ↦ (
          record s {
            resolver =
                add_session (new_session s now (net.parse_ip host) r.username user) s.resolver;
          },
          after_login r.redirect,
        )
      ]
    ]
