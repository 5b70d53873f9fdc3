-- ===== src/Api/Replies.antt =====
-- What the handlers of internal/api/handlers.go share: their state, their responses, and the steps that
-- answer a bad request, a query or a command.
use Prim.Native.String.{String}
use dns_filter.Prelude.{
  ℕ, ◌/◌, ◌⊎◌, inl, inr, Bool, true, false, List, ◌++◌, Option, none, some, Text, codes, text_eq,
  Map,
}
use dns_filter.Message.{DnsLib}
use dns_filter.Filter.Blacklist.{Blacklist}
use dns_filter.Identity.{IpNet, Resolver}
use dns_filter.Cache.{Cache}
use dns_filter.RateLimit.{Rate, RateLimiter}
use dns_filter.Api.Numbers.{ℤ, atoi}
use dns_filter.Api.Tokens.{Jwt}
use dns_filter.Api.Requests.{Query, Command, Store}

-- The code that the handlers call and that is not here: the two libraries, the store, net.ParseCIDR
-- and Downloader.FetchDomains, none where they fail.
pub record Libs : Type 1 where
  pub jwt : Jwt
  pub rate : Rate
  pub dns : DnsLib
  pub store : Store
  pub parse_cidr : Text → Option IpNet
  pub fetch_domains : Text → Option (List Text)

-- map[string]interface{} of GetMetrics, without the figures that are not whole; the last two are
-- there where the handler has a QueryMetrics and a logger
pub record MetricsBody : Type 0 where
  pub uptime_seconds : ℕ
  pub cache_hits : ℕ
  pub cache_misses : ℕ
  pub cache_entries : ℕ
  pub blacklist_domains : ℕ
  pub whitelist_domains : ℕ
  pub active_sessions : ℕ
  pub total_queries : Option ℕ
  pub log_pending : Option ℕ

-- the JSON of a response
pub data Body (Rows : Type 0) : Type 0 where
  error : Text → Body Rows
  status : Text → Body Rows
  token : Text → Body Rows
  new_id : ℕ → Body Rows
  inserted : ℕ → Body Rows
  nothing : Body Rows
  null : Body Rows
  empty_array : Body Rows
  rows : Rows → Body Rows
  of_id : ℤ → Body Rows → Body Rows
  logs : Body Rows → ℕ → ℤ → ℤ → Body Rows
  removed : Text → ℕ → Body Rows
  reloaded : ℕ → ℕ → Body Rows
  downloaded : Map Text (Option ℕ) → ℕ → ℕ → Body Rows
  metrics : MetricsBody → Body Rows

pub record Response (Rows : Type 0) : Type 0 where
  pub code : ℕ
  pub body : Body Rows

-- Handlers, with the two limiters of NewRouter; times are nanoseconds
pub record Handlers (lib : Libs) : Type 0 where
  pub db : lib.store.Db
  pub cache : Cache
  pub identity : Resolver
  pub black : Blacklist
  pub white : Blacklist
  pub jwt_secret : Text
  pub started_at : ℕ
  pub query_count : Option ℕ
  pub log_pending : Option ℕ
  pub login_limiter : RateLimiter lib.rate
  pub api_limiter : RateLimiter lib.rate

abbrev pub second : ℕ
second = 1000000000

-- `time.Now().Unix()`
abbrev pub unix : ℕ → ℕ
unix now = now / second

module _ (lib : Libs) where
  abbrev pub Reply : Type 0
  Reply = Response lib.store.Rows

  -- a handler, from the state to the state that it leaves and its answer
  abbrev pub Handler : Type 0
  Handler = Handlers lib → Handlers lib × Reply

  -- writeJSON, writeError, and WriteHeader(201) before writeJSON
  abbrev pub write_json : Body lib.store.Rows → Reply
  write_json b = record { code = 200; body = b }

  abbrev pub write_error : Text → ℕ → Reply
  write_error message code = record { code = code; body = error message }

  abbrev pub write_created : ℕ → Reply
  write_created id = record { code = 201; body = new_id id }

  -- `fmt.Sprintf("Erro: %v", err)` with 500
  abbrev pub failed : Text → Text → Reply
  failed prefix err = write_error (prefix ++ err) 500

  abbrev pub with_number : ℤ × Bool → (ℤ → Handler) → Handler
  with_number (n, true) next h = next n h
  with_number (n, false) next h = (h, write_error (codes "ID inválido") 400)

  -- the `{id}` of the path, and the body
  abbrev pub with_id : Text → (ℤ → Handler) → Handler
  with_id id = with_number (atoi id)

  abbrev pub with_body : {B : Type 0} → Option B → (B → Handler) → Handler
  with_body none next h = (h, write_error (codes "JSON inválido") 400)
  with_body (some b) next h = next b h

  -- a query, and what is written for its rows
  abbrev pub answer_rows :
      (Option lib.store.Rows → Body lib.store.Rows) → Text ⊎ Option lib.store.Rows → Reply
  answer_rows write (inl err) = failed (codes "Erro: ") err
  answer_rows write (inr r) = write_json (write r)

  abbrev pub ask : Query → (Option lib.store.Rows → Body lib.store.Rows) → Handler
  ask q write h = (h, answer_rows write (lib.store.query h.db q))

  abbrev pub or_null : Option lib.store.Rows → Body lib.store.Rows
  or_null none = null
  or_null (some r) = rows r

  -- `if x == nil { x = []T{} }`
  abbrev pub or_empty : Option lib.store.Rows → Body lib.store.Rows
  or_empty none = empty_array
  or_empty (some r) = rows r

  -- a command, with the prefix of its error, and what is written for its number
  abbrev pub answer_done : Text → (ℕ → Reply) → Text ⊎ ℕ → Reply
  answer_done prefix write (inl err) = failed prefix err
  answer_done prefix write (inr n) = write n

  abbrev pub execute : Command → Text → (ℕ → Reply) → Handler
  execute c prefix write h =
      let (db, result) = lib.store.execute h.db c in
      (record h { db = db }, answer_done prefix write result)

  abbrev pub says : String → ℕ → Reply
  says s n = write_json (status (codes s))
