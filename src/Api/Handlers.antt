-- ===== src/Api/Handlers.antt =====
-- internal/api/handlers.go: the handlers, up to what they answer and what they leave.
pub mod Reload
pub mod Ranges
pub mod Paging
pub mod Downloads
pub use dns_filter.Api.Replies.{
  Libs, MetricsBody, Body, error, status, token, new_id, inserted, nothing, null, empty_array, rows,
  of_id, logs, removed, reloaded, downloaded, metrics, Response, Handlers, second, unix, Reply,
  Handler, write_json, write_error, write_created, failed, with_number, with_id, with_body,
  answer_rows, ask, or_null, or_empty, answer_done, execute, says,
}
use Prim.Native.String.{String}
use dns_filter.Prelude.{
  ℕ, ◌+◌, ◌-◌, ◌/◌, ◌≡◌, ◌⊎◌, inl, inr, Bool, true, false, not, ◌&&◌, ◌||◌, List, [], ◌∷◌, ◌++◌,
  Option, none, some, Text, codes, text_eq, ltb, leb, if◌then◌else◌, Map, lookup, insert, length,
  nat_beq,
}
use dns_filter.Message.{DnsLib}
use dns_filter.Filter.Blacklist
use dns_filter.Filter.Blacklist.{Blacklist, add, clear}
use dns_filter.Identity.{
  IpNet, AuthMode, auth_none, auth_captive_portal, Resolver, add_range, session_count,
}
use dns_filter.Cache
use dns_filter.Cache.{Cache, invalidate, get_stats}
use dns_filter.RateLimit.{Rate, RateLimiter}
use dns_filter.Api.Numbers.{ℤ, pos, negsuc, atoi}
use dns_filter.Api.Tokens.{AuthUser, Jwt, new_claims}
use dns_filter.Api.Requests
use dns_filter.Api.Requests.{
  Credentials, RangeBody, AdminRoute, UserRoute, LogFilter, Query, Command, Store,
}

-- identity.AuthMode(n): a number other than 1 acts like AuthNone
abbrev pub auth_mode_of : ℕ → AuthMode
auth_mode_of n = if nat_beq n 1 then auth_captive_portal else auth_none

-- the loop of Blacklist.Add
unfoldable pub add_all : List Text → Blacklist → Blacklist
add_all [] b = b
add_all (d ∷ ds) b = add_all ds (add d b)

-- `if limit <= 0 || limit > 100 { limit = 50 }`
abbrev pub clamp_limit : ℤ → ℤ
clamp_limit (negsuc n) = pos 50
clamp_limit (pos n) = if nat_beq n 0 || ltb 100 n then pos 50 else pos n

-- `q.Get(name)`
abbrev pub get_param : Text → List (Text × Text) → Text
get_param name q = elim (lookup name q) [ none ↦ [] | some v ↦ v ]

-- the filter of GetLogs
unfoldable pub log_filter : List (Text × Text) → LogFilter
log_filter q = record {
  client_ip = get_param (codes "client_ip") q;
  domain = get_param (codes "domain") q;
  action = get_param (codes "action") q;
  date_from = get_param (codes "date_from") q;
  date_to = get_param (codes "date_to") q;
  limit = clamp_limit ((atoi (get_param (codes "limit") q)).0);
  offset = (atoi (get_param (codes "offset") q)).0;
}

module _ (lib : Libs) where
  -- Login and RefreshToken from the signing on
  abbrev pub answer_token : Option Text → Reply lib
  answer_token none = write_error lib (codes "Erro ao gerar token") 500
  answer_token (some t) = write_json lib (token t)

  abbrev pub give_token : ℕ → AuthUser → Handler lib
  give_token now user h = (h, answer_token (lib.jwt.sign h.jwt_secret (new_claims (unix now) user)))

  abbrev pub login_as : ℕ → Text ⊎ Option AuthUser → Handler lib
  login_as now (inr (some user)) h = give_token now user h
  login_as now other h = (h, write_error lib (codes "Credenciais inválidas") 401)

  unfoldable pub login : ℕ → Option Credentials → Handler lib
  login now body =
      with_body lib body
        (λ c h. login_as now (lib.store.authenticate_admin h.db c.username c.password) h)

  unfoldable pub refresh_token : ℕ → AuthUser → Handler lib
  refresh_token now user = give_token now user

  unfoldable pub health_check : Handler lib
  health_check h = (h, write_json lib (status (codes "ok")))

  unfoldable pub get_metrics : ℕ → Handler lib
  get_metrics now h =
      let (hits, misses) = get_stats h.cache in
      let m : MetricsBody = record {
        uptime_seconds = (now - h.started_at) / second;
        cache_hits = hits;
        cache_misses = misses;
        cache_entries = Cache.size h.cache;
        blacklist_domains = Blacklist.size h.black;
        whitelist_domains = Blacklist.size h.white;
        active_sessions = session_count h.identity;
        total_queries = h.query_count;
        log_pending = h.log_pending;
      } in
      (h, write_json lib (metrics m))

  unfoldable pub invalidate_cache : Text → Handler lib
  invalidate_cache domain h =
      let (c, n) = invalidate lib.dns domain h.cache in
      (record h { cache = c }, write_json lib (removed domain n))

  abbrev pub answer_logs : LogFilter → Text ⊎ (Option lib.store.Rows × ℕ) → Reply lib
  answer_logs f (inl err) = failed lib (codes "Erro ao consultar logs: ") err
  answer_logs f (inr (r, total)) = write_json lib (logs (or_null lib r) total f.limit f.offset)

  unfoldable pub get_logs : List (Text × Text) → Handler lib
  get_logs q h = (h, answer_logs (log_filter q) (lib.store.query_logs h.db (log_filter q)))

  -- the lists, cleared and filled again
  abbrev pub reload : List Text × List Text → Handlers lib → Handlers lib
  reload (blacks, whites) h = record h {
    black = add_all blacks (clear h.black);
    white = add_all whites (clear h.white);
  }

  abbrev pub reload_with : Text ⊎ (List Text × List Text) → Handler lib
  reload_with (inl err) h = (h, failed lib (codes "Erro ao recarregar: ") err)
  reload_with (inr (blacks, whites)) h =
      (reload (blacks, whites) h, write_json lib (reloaded (length blacks) (length whites)))

  unfoldable pub reload_lists : Handler lib
  reload_lists h = reload_with (lib.store.load_active_blocklist_entries h.db) h

  abbrev pub created_range : IpNet → RangeBody → Text ⊎ ℕ → Handler lib
  created_range net b (inl err) h = (h, failed lib (codes "Erro: ") err)
  created_range net b (inr id) h = (
    record h {
      identity =
          add_range
            (record { network = net; group_id = b.group_id; auth_mode = auth_mode_of b.auth_mode })
            h.identity;
    },
    write_created lib id,
  )

  abbrev pub create_range_in : Option IpNet → RangeBody → Handler lib
  create_range_in none b h = (h, write_error lib (codes "CIDR inválido") 400)
  create_range_in (some net) b h =
      let (db, result) = lib.store.execute h.db (Requests.create_ip_range b) in
      created_range net b result (record h { db = db })

  unfoldable pub create_range : Option RangeBody → Handler lib
  create_range body = with_body lib body (λ b. create_range_in (lib.parse_cidr b.cidr) b)

  -- DownloadLists: one list, with the counts so far
  abbrev refilled :
      Text → lib.store.Db × Option ℕ → Map Text (Option ℕ) → lib.store.Db × Map Text (Option ℕ)
  refilled name (db, count) results = (db, insert name count results)

  abbrev download_list :
      lib.store.Db → ℕ × Text × Text → Map Text (Option ℕ) → lib.store.Db × Map Text (Option ℕ)
  download_list db (id, name, url) results = elim (lib.fetch_domains url) [
    | none ↦ (db, insert name none results)
    | some [] ↦ (db, insert name (some 0) results)
    | some (d ∷ ds) ↦ refilled name (lib.store.refill_list db id (d ∷ ds)) results
  ]

  unfoldable pub download_all :
      List (ℕ × Text × Text)
      → lib.store.Db
      → Map Text (Option ℕ)
      → lib.store.Db × Map Text (Option ℕ)
  download_all [] db results = (db, results)
  download_all (l ∷ ls) db results =
      let (db', results') = download_list db l results in download_all ls db' results'

  -- the reload after it, which an error skips
  abbrev pub reload_if : Text ⊎ (List Text × List Text) → Handlers lib → Handlers lib
  reload_if (inl err) h = h
  reload_if (inr domains) h = reload domains h

  abbrev pub downloaded_all : lib.store.Db × Map Text (Option ℕ) → Handler lib
  downloaded_all (db, results) h =
      let h' = reload_if (lib.store.load_active_blocklist_entries db) (record h { db = db }) in
      (h', write_json lib (downloaded results (Blacklist.size h'.black) (Blacklist.size h'.white)))

  abbrev pub download_from : Text ⊎ List (ℕ × Text × Text) → Handler lib
  download_from (inl err) h = (h, failed lib (codes "Erro: ") err)
  download_from (inr []) h = (h, write_json lib (status (codes "nenhuma lista externa encontrada")))
  download_from (inr (l ∷ ls)) h = downloaded_all (download_all (l ∷ ls) h.db []) h

  unfoldable pub download_lists : Handler lib
  unfolding download_all
  download_lists h = download_from (lib.store.external_lists h.db) h
