-- ===== src/Examples/Pages.antt =====
-- The dashboard (web/src).
use dns_filter.Prelude.{refl, false, [], none, some, codes}
use dns_filter.Web.Client.{Browser, Config, on_error}
use dns_filter.Web.Client.Refreshing
use dns_filter.Web.Client.Refreshing.{World, IsSingle, Reach-IsSingle, after_error}

abbrev browser : Browser
browser = record { token = some (codes "old"); is_refreshing = false; at_login = false }

abbrev config : Config
config = record {
  method = codes "get";
  url = codes "/lists";
  authorization = none;
  has_retried = false;
}

abbrev idle : World
idle = record { browser = browser; waiting = [] }

Reach-IsSingle_example : IsSingle (after_error (on_error (some 401) browser config) [])
Reach-IsSingle_example =
    Reach-IsSingle idle (after_error (on_error (some 401) browser config) [])
      (Refreshing.next Refreshing.here (Refreshing.fails (some 401) config)) (refl, refl)
