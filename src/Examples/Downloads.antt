-- ===== src/Examples/Downloads.antt =====
-- A download of the lists through the REST API (internal/api/handlers.go).
use dns_filter.Prelude.{ℕ, ◌≡◌, refl, inr, true, List, [], ◌∷◌, none, some, Text, codes, map}
use dns_filter.Filter.Updater.{refill_list}
use dns_filter.Filter.Updater.Refreshed.{IsRefreshed}
use dns_filter.Database.Tables.{Tables}
use dns_filter.Identity.{new_resolver}
use dns_filter.Cache.{new_cache}
use dns_filter.RateLimit.{Rate, new_rate_limiter}
use dns_filter.Api.Tokens.{Jwt}
use dns_filter.Api.Requests.{Store}
use dns_filter.Api.Handlers.{Libs, Handlers, download_all, download_lists}
use dns_filter.Api.Handlers.Downloads.{
  RunsRefill, fetched_by, info_of, download_lists-IsRefreshed, IsReloaded,
}
use dns_filter.Examples.Answers
use dns_filter.Examples.Memory.{memory, memory_view, tables}

-- every domain of the tables
domains_of : List (ℕ × Text) → List Text
domains_of entries = map (λ e. e.1) entries

abbrev memory_store : Store
memory_store = record {
  Db = Tables;
  Rows = ℕ;
  authenticate_admin = λ db name password. inr none;
  query = λ db q. inr none;
  execute = λ db c. (db, inr 0);
  query_logs = λ db f. inr (none, 0);
  load_active_blocklist_entries = λ db. inr (domains_of db.entries, []);
  external_lists = λ db. inr ((1, codes "ads", codes "a/ads") ∷ []);
  refill_list = λ db id ds. refill_list memory id ds db;
}

abbrev silent_bucket : Rate
silent_bucket = record {
  Limiter = ℕ;
  new_limiter = λ r burst. burst;
  allow = λ now tokens. (tokens, true);
}

abbrev no_tokens : Jwt
no_tokens = record { sign = λ secret claims. none; parse = λ keys now token. none }

abbrev memory_libs : Libs
memory_libs = record {
  jwt = no_tokens;
  rate = silent_bucket;
  dns = Answers.lib;
  store = memory_store;
  parse_cidr = λ s. none;
  fetch_domains = λ url. some (codes "x.com" ∷ []);
}

abbrev server : Handlers memory_libs
server = record {
  db = tables;
  cache = new_cache 1 2;
  identity = new_resolver 1;
  black = record { domains = (codes "old.com.", true) ∷ [] };
  white = record { domains = [] };
  jwt_secret = codes "key";
  started_at = 0;
  query_count = none;
  log_pending = none;
  login_limiter = new_rate_limiter silent_bucket 5 10;
  api_limiter = new_rate_limiter silent_bucket 30 60;
}

runs_refill : RunsRefill memory_libs memory_view
runs_refill db id domains = refl

abbrev ads : ℕ × Text × Text
ads = (1, codes "ads", codes "a/ads")

abbrev blacks : List Text
blacks = codes "x.com" ∷ codes "kept.com" ∷ []

reloads :
    memory_store.load_active_blocklist_entries (download_all memory_libs (ads ∷ []) tables []).0
    ≡ inr (blacks, [])
unfolding domains_of download_all refill_list dns_filter.Examples.Memory.commit_on
    dns_filter.Examples.Memory.exec_on dns_filter.Filter.Updater.insert_counted
    dns_filter.Database.Tables.run dns_filter.Database.Tables.insert_row
    dns_filter.Database.Tables.has_row dns_filter.Database.Tables.clear_rows
reloads = refl

download_lists-IsRefreshed_example :
    let after = (download_lists memory_libs server).0 in
    IsRefreshed (fetched_by memory_libs.fetch_domains) (map info_of (ads ∷ [])) tables after.db 1
    × IsReloaded memory_libs memory_view
        (memory_store.load_active_blocklist_entries after.db)
        server
        after
        (codes "a.x.com")
    × (after ≡ record server { db = after.db; black = after.black; white = after.white })
download_lists-IsRefreshed_example =
    download_lists-IsRefreshed memory_libs memory_view server ads [] 1 (codes "a.x.com") runs_refill
      refl
