-- ===== src/Examples/Views.antt =====
-- Clicks on the pages of the dashboard (web/src/pages).
use dns_filter.Prelude.{ℕ, suc, ◌≡◌, ◌⊎◌, false, [], none, some, codes}
use dns_filter.Web.Html.{clicks}
use dns_filter.Web.Page.{show}
use dns_filter.Web.Lists
use dns_filter.Web.Lists.{Lists}
use dns_filter.Web.Lists.View
use dns_filter.Web.Lists.Once
use dns_filter.Web.Lists.Once.{saving_domains, offers, click-once}
use dns_filter.Web.Client.{Browser, Config, failure, End, request}
use dns_filter.Web.Client.Retrying.{request-ends}

abbrev page : Lists
page = record Lists.mounted.page { adding_domains = some 3; domains_text = codes "ads.com" }

click-once_example :
    ((View.update (Once.event saving_domains) page).requests ≡ [])
    ⊎ (offers saving_domains
          (clicks (View.view show (View.update (Once.event saving_domains) page).page))
        ≡ false)
click-once_example = click-once show saving_domains page

abbrev browser : Browser
browser = record { token = some (codes "old"); is_refreshing = false; at_login = false }

abbrev config : Config
config = record {
  method = codes "get";
  url = codes "/lists";
  authorization = none;
  has_retried = false;
}

-- a server that refuses every request, and a refresh that succeeds
request-ends_example :
    (e : End) × ((fuel : ℕ)
      → request (suc (suc fuel)) (λ n. failure (some 401)) (some (codes "new")) browser config
        ≡ some e)
request-ends_example = request-ends (λ n. failure (some 401)) (some (codes "new")) browser config
