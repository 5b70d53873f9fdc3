-- ===== src/Examples/Values.antt =====
-- What the definitions compute on a few inputs.
use dns_filter.Prelude.{
  ℕ, ◌≡◌, refl, Bool, true, false, List, [], ◌∷◌, Option, none, some, Text, codes,
}
use dns_filter.Filter.Domain.{normalize, parse_line}
use dns_filter.Filter.Engine.{split_domain, join_domain}
use dns_filter.Identity.{v4, in_net}
use dns_filter.Captive.{is_valid_redirect}
use dns_filter.Web.Page.{show}
use dns_filter.Web.Lists
use dns_filter.Web.Lists.{minus_one, loaded, download_done, domains_of}
use dns_filter.Web.Dashboard.{format_uptime}

normalized : normalize (codes " Ads.COM ") ≡ codes "ads.com."
unfolding normalize dns_filter.Prelude.ends_with dns_filter.Prelude.trim
    dns_filter.Prelude.lower_char
normalized = refl

hosts_line : parse_line (codes "0.0.0.0 ads.com # comment") ≡ codes "ads.com"
unfolding parse_line dns_filter.Prelude.has_char dns_filter.Prelude.trim dns_filter.Prelude.before
    dns_filter.Prelude.fields dns_filter.Prelude.text_beq
hosts_line = refl

two_words : parse_line (codes "ads.com other.com") ≡ []
unfolding parse_line dns_filter.Prelude.has_char dns_filter.Prelude.fields
    dns_filter.Prelude.text_beq
two_words = refl

labels : split_domain (codes "a..b.com.") ≡ codes "a" ∷ codes "b" ∷ codes "com" ∷ []
unfolding split_domain
labels = refl

joined : join_domain (codes "b" ∷ codes "com" ∷ []) ≡ codes "b.com."
unfolding join_domain
joined = refl

in_range : in_net (record { address = v4 0xC0A80100; prefix = 24 }) (v4 0xC0A801FE) ≡ true
unfolding in_net
in_range = refl

out_of_range : in_net (record { address = v4 0xC0A80100; prefix = 24 }) (v4 0xC0A80201) ≡ false
unfolding in_net
out_of_range = refl

protocol_relative : is_valid_redirect (codes "//evil.com") ≡ false
unfolding is_valid_redirect dns_filter.Prelude.has_prefix
protocol_relative = refl

any_host : is_valid_redirect (codes "https://evil.com") ≡ true
unfolding is_valid_redirect dns_filter.Prelude.has_prefix
any_host = refl

number : show 1203 ≡ codes "1203"
unfolding show
number = refl

uptime : format_uptime 7320 ≡ codes "2h 2m"
unfolding format_uptime show
uptime = refl

lines_read :
    domains_of (codes "Ads.com \nlocalhost\n\n x.org") ≡ codes "ads.com" ∷ codes "x.org" ∷ []
unfolding domains_of dns_filter.Prelude.split dns_filter.Prelude.trim dns_filter.Prelude.has_char
    dns_filter.Prelude.lower_char
lines_read = refl

download_message :
    (download_done
      (some (record {
        downloaded = (codes "a", loaded 12) ∷ (codes "b", minus_one) ∷ [];
        blacklist_loaded = 12;
        whitelist_loaded = 0;
      }))
      Lists.mounted.page).page.message
    ≡ codes "Download concluído — a: 12 domínios, b: erro. Total: 12 blacklist + 0 whitelist"
unfolding download_done show
download_message = refl
