-- ===== src/Examples/Server.antt =====
-- Requests to the REST API (internal/api).
use dns_filter.Prelude.{
  ℕ, ◌+◌, ◌-◌, ◌^◌, ◌<◌, ◌≤◌, ◌≡◌, ◌↔◌, ◌⊎◌, refl, sym, ap, ◌∙◌, inl, inr, Bool, true, false, List,
  [], ◌∷◌, ◌++◌, Option, none, some, Text, codes, ltb, nat_beq, arith, if◌then◌else◌, is_empty,
  text_beq, text_eq, length, lookup,
}
use dns_filter.Filter.Blacklist.{contains}
use dns_filter.Filter.Blacklist.Loading.{CoveredBy}
use dns_filter.Identity.{v4, ip_eq, IpNet, new_resolver}
use dns_filter.Cache.{new_cache}
use dns_filter.RateLimit.{Rate, new_rate_limiter}
use dns_filter.Api.Numbers.{pos}
use dns_filter.Api.Tokens.{
  AuthUser, Claims, MapClaims, Jwt, IsJwt, Method, hmac, refused, admitted, to_map, authenticate,
  new_claims,
}
use dns_filter.Api.Requests
use dns_filter.Api.Requests.{Credentials, RangeBody, Store, Request, api}
use dns_filter.Api.Handlers
use dns_filter.Api.Handlers.{
  Libs, Handlers, unix, reload_lists, reloaded, write_json, create_range, auth_mode_of, log_filter,
}
use dns_filter.Api.Handlers.Paging.{log_filter-params}
use dns_filter.Api.Router.{admin_handler, serve_user, serve}
use dns_filter.Api.Router.Access.{IsSame, IsAdmin, serve-IsSame}
use dns_filter.Api.Router.Status.{is_401}
use dns_filter.Api.Router.Effects.{admin_handler-effects}
use dns_filter.Api.Router.Refreshing.{
  bearer_header, reply_token, login-authenticate, IsLoggedOut, refresh_too_late,
}
use dns_filter.Web.Client.{Browser, Config, on_refreshed}
use dns_filter.Web.Logs
use dns_filter.Web.Logs.{Logs, params}
use dns_filter.Filter.Blacklist.{scanned}
use dns_filter.Filter.Blacklist.Loading.{file_domains}
use dns_filter.Startup.Filtering.{Database, Files, engine_of, start_up, config_changed}
use dns_filter.Startup.Filtering.Fresh.{config_changed-start_up, reload_forgets_files}
use dns_filter.Examples.Answers

-- a token that carries its claims and the secret in the clear
encode : Text → Claims → Text
encode secret c = c.user.id ∷ c.user.role ∷ c.exp ∷ (secret ++ c.user.username)

-- what follows the secret
after_secret : Text → Text → Option Text
after_secret [] rest = some rest
after_secret (c ∷ s) [] = none
after_secret (c ∷ s) (d ∷ rest) =
    let later = after_secret s rest in if nat_beq c d then later else none

after_secret-append : (s name : Text) → after_secret s (s ++ name) ≡ some name
unfolding after_secret
after_secret-append [] name = refl
after_secret-append (c ∷ s) name = ground (arith, after_secret-append s name)

with_name : ℕ → ℕ → ℕ → ℕ → Option Text → Option MapClaims
with_name id role exp now none = none
with_name id role exp now (some name) =
    if ltb now exp
    then some (record { user_id = some id; username = some name; role = some role })
    else none

decode : Option Text → ℕ → Text → Option MapClaims
decode (some secret) now (id ∷ role ∷ exp ∷ rest) =
    with_name id role exp now (after_secret secret rest)
decode key now token = none

abbrev clear_jwt : Jwt
clear_jwt = record {
  sign = λ secret c. some (encode secret c);
  parse = λ keys now token. decode (keys hmac) now token;
}

token_lem : (s t : Text) → some s ≡ some t → t ≡ s
token_lem s t e = cc e

clear_jwt-IsJwt : IsJwt clear_jwt
unfolding decode encode with_name
clear_jwt-IsJwt = record {
  parse-sign = λ keys secret c token now exact key signed.
      rw
        (key, token_lem (encode secret c) token signed, after_secret-append secret c.user.username);
}

-- a bucket that is never empty
abbrev open_bucket : Rate
open_bucket = record {
  Limiter = ℕ;
  new_limiter = λ r burst. burst;
  allow = λ now tokens. (tokens, true);
}

abbrev boss : AuthUser
boss = record { id = 1; username = codes "boss"; role = 0 }

abbrev guest : AuthUser
guest = record { id = 2; username = codes "guest"; role = 1 }

-- a database that counts its commands, with one user and one listed domain
abbrev small_store : Store
small_store = record {
  Db = ℕ;
  Rows = ℕ;
  authenticate_admin =
      λ db name password. if text_beq password (codes "pw") then inr (some boss) else inr none;
  query = λ db q. inr (some db);
  execute = λ db c. (db + 1, inr db);
  query_logs = λ db f. inr (none, 0);
  load_active_blocklist_entries = λ db. inr (codes "ads.com" ∷ [], []);
  external_lists = λ db. inr [];
  refill_list = λ db id ds. (db, some (length ds));
}

abbrev office : IpNet
office = record { address = v4 0x0A000000; prefix = 8 }

abbrev libs : Libs
libs = record {
  jwt = clear_jwt;
  rate = open_bucket;
  dns = Answers.lib;
  store = small_store;
  parse_cidr = λ s. some office;
  fetch_domains = λ url. none;
}

abbrev handlers : Handlers libs
handlers = record {
  db = 7;
  cache = new_cache 1 2;
  identity = new_resolver 1;
  black = record { domains = (codes "old.com.", true) ∷ [] };
  white = record { domains = [] };
  jwt_secret = codes "key";
  started_at = 0;
  query_count = none;
  log_pending = none;
  login_limiter = new_rate_limiter open_bucket 5 10;
  api_limiter = new_rate_limiter open_bucket 30 60;
}

-- a viewer's token, valid until second 5000
abbrev guest_claims : Claims
guest_claims = record { user = guest; exp = 5000; iat = 1400 }

abbrev guest_token : Text
guest_token = encode (codes "key") guest_claims

abbrev removal : Request
removal = record {
  route = api (Requests.admin (Requests.delete_user (codes "3")));
  authorization = bearer_header guest_token;
  remote_addr = codes "10.0.0.9:5";
  real_ip = [];
}

serve-IsSame_example :
    IsSame libs handlers (serve libs removal 5 handlers).0
    ⊎ IsAdmin libs (bearer_header guest_token) 5 handlers
serve-IsSame_example = serve-IsSame libs removal 5 handlers

abbrev credentials : Credentials
credentials = record { username = codes "boss"; password = codes "pw" }

found_boss : small_store.authenticate_admin 7 (codes "boss") (codes "pw") ≡ inr (some boss)
unfolding text_beq
found_boss = refl

abbrev boss_token : Text
boss_token = encode (codes "key") (new_claims (unix 5) boss)

boss_token-is_empty : is_empty boss_token ≡ false
unfolding encode
boss_token-is_empty = refl

login-authenticate_example :
    (reply_token libs (Handlers.login libs 5 (some credentials) handlers).1 ≡ some boss_token)
    × (authenticate clear_jwt (codes "key") (unix 60000000000) (bearer_header boss_token) ≡ (
        if ltb (unix 60000000000) (unix 5 + 3600)
        then admitted boss
        else refused (codes "Token inválido")))
login-authenticate_example =
    login-authenticate libs 5 60000000000 credentials handlers boss boss_token clear_jwt-IsJwt
      (omega arith, omega arith) found_boss refl boss_token-is_empty

abbrev tab : Browser
tab = record { token = some guest_token; is_refreshing = true; at_login = false }

abbrev waiting : Config
waiting = record {
  method = codes "get";
  url = codes "/metrics";
  authorization = none;
  has_retried = true;
}

guest_token-is_empty : is_empty guest_token ≡ false
unfolding encode
guest_token-is_empty = refl

too_late :
    is_401 libs
      (serve_user libs Requests.get_metrics (bearer_header guest_token) 6000000000000 handlers).1
    ≡ true
unfolding serve_user authenticate dns_filter.Api.Tokens.bearer_token dns_filter.Prelude.has_prefix
    encode decode with_name after_secret
too_late = refl

refresh_too_late_example :
    let answer =
      (serve_user libs Requests.refresh_token
        (bearer_header guest_token)
        6001000000000
        handlers).1 in
    (is_401 libs answer ≡ true)
    × IsLoggedOut libs (on_refreshed (reply_token libs answer) tab waiting).0
refresh_too_late_example =
    refresh_too_late libs Requests.get_metrics 6000000000000 6001000000000 handlers handlers
      guest_claims guest_token tab waiting clear_jwt-IsJwt (omega arith, omega arith) refl refl
      guest_token-is_empty (omega arith) too_late

abbrev logs_page : Logs ℕ
logs_page = record Logs.mounted { offset = 40; domain = codes "ads" }

log_filter-params_example : log_filter (params logs_page) ≡ record {
  client_ip = [];
  domain = codes "ads";
  action = [];
  date_from = [];
  date_to = [];
  limit = pos 20;
  offset = pos 40;
}
log_filter-params_example = log_filter-params logs_page (omega arith)

admin_handler-effects_example :
    let after = (admin_handler libs (Requests.delete_range (codes "3")) 5 handlers).0 in
    after ≡ record handlers { db = after.db }
admin_handler-effects_example =
    admin_handler-effects libs (Requests.delete_range (codes "3")) 5 handlers

-- the same program over a database without entries, with a file of one domain
abbrev empty_libs : Libs
empty_libs = record libs {
  store = record small_store { load_active_blocklist_entries = λ db. inr ([], []) };
}

abbrev database : Database
database = record { entries = some ([], []); categories = some []; policies = some [] }

abbrev files : Files
files = record { blocklist = some (scanned (codes "ads.net" ∷ []) false); allowlist = none }

abbrev started : Handlers empty_libs
started = record {
  db = 0;
  cache = new_cache 1 2;
  identity = new_resolver 1;
  black = (start_up database files).black;
  white = (start_up database files).white;
  jwt_secret = codes "key";
  started_at = 0;
  query_count = none;
  log_pending = none;
  login_limiter = new_rate_limiter open_bucket 5 10;
  api_limiter = new_rate_limiter open_bucket 30 60;
}

named : CoveredBy (file_domains (codes "ads.net" ∷ [])) (codes "ads.net")
unfolding file_domains dns_filter.Filter.Blacklist.line_domain dns_filter.Prelude.trim
    dns_filter.Prelude.has_prefix dns_filter.Filter.Domain.parse_line dns_filter.Prelude.has_char
    dns_filter.Prelude.fields
named = (codes "ads.net", inl refl, inl refl)

reload_forgets_files_example :
    (contains started.black (codes "ads.net") ≡ true)
    × (contains (reload_lists empty_libs started).0.black (codes "ads.net") ≡ false)
reload_forgets_files_example =
    reload_forgets_files empty_libs started database files [] [] (codes "ads.net" ∷ []) false
      (codes "ads.net") refl refl refl refl named (λ c. c.1)

config_changed-start_up_example :
    (engine_of (config_changed database files (start_up database files))
      ≡ engine_of (start_up database files))
    × (config_changed (record database { entries = none }) files (start_up database files)
        ≡ start_up database files)
config_changed-start_up_example =
    config_changed-start_up files [] [] [] [] (record database { entries = none })
      (start_up database files) refl
