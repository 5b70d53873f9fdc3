-- ===== src/Examples/Policies.antt =====
-- The filter (internal/filter) on a few names.
use dns_filter.Prelude.{
  ℕ, ◌+◌, ◌<◌, ◌≡◌, ◌≢◌, ◌↔◌, ◌⊎◌, inl, inr, refl, Bool, true, false, List, [], ◌∷◌, ◌++◌, Option,
  none, some, Text, codes, length, lookup, arith, insert, text_beq, to_lower, trim, trim_left,
  trim_right, ends_with, is_space, lower_char, split, if◌then◌else◌,
}
use dns_filter.Filter.Domain.{normalize}
use dns_filter.Filter.Blacklist.{
  Blacklist, new_blacklist, add, remove, listed, contains, scanned, load_from_file, tail_parts,
}
use dns_filter.Filter.Blacklist.Matching.{Covers, IsParent, contains_iff}
use dns_filter.Filter.Blacklist.Loading.{file_domains, CoveredBy, load_from_file_iff}
use dns_filter.Filter.Engine.{Engine, block, on_list, evaluate_for_group}
use dns_filter.Filter.Engine.Decision.{Forbids, evaluate_for_group-block_iff}
use dns_filter.Filter.Engine.Categories.{dots}

abbrev ads : Text
ads = codes "Ads.Example.com"

abbrev below_ads : Text
below_ads = codes "x.ads.example.com."

abbrev blocked_ads : Blacklist
blocked_ads = add ads new_blacklist

abbrev engine : Engine
engine = record {
  blacklist = some blocked_ads;
  whitelist = some new_blacklist;
  domain_categories = (codes "example.com.", 3) ∷ [];
  group_policies = (7, (3, true) ∷ []) ∷ [];
}

below_ads_blocked : contains blocked_ads below_ads ≡ true
unfolding contains add listed normalize new_blacklist lookup insert text_beq ends_with trim
    lower_char dns_filter.Filter.Blacklist.parent_listed split dns_filter.Prelude.join
below_ads_blocked = refl

contains_iff_example :
    (contains blocked_ads below_ads ≡ true)
    ↔ ((p : Text) × (listed blocked_ads p ≡ true) × Covers p (normalize below_ads))
contains_iff_example = contains_iff blocked_ads below_ads

abbrev file : List Text
file = codes "# ads" ∷ codes "0.0.0.0 ads.example.com" ∷ []

load_from_file_iff_example :
    ((contains (load_from_file (scanned file true) new_blacklist).list below_ads ≡ true)
      ↔ ((contains new_blacklist below_ads ≡ true) ⊎ CoveredBy (file_domains file) below_ads))
    × ((load_from_file (scanned file true) new_blacklist).count ≡ length (file_domains file))
    × ((load_from_file (scanned file true) new_blacklist).failed ≡ true)
load_from_file_iff_example = load_from_file_iff file true new_blacklist below_ads

evaluate_for_group-block_iff_example : ((evaluate_for_group engine below_ads 7).action ≡ block) ↔ (
    (on_list engine.whitelist below_ads ≡ false)
    × ((on_list engine.blacklist below_ads ≡ true)
        ⊎ ((0 < 7) × ((cat : ℕ) × Forbids engine 7 (normalize below_ads) cat))))
evaluate_for_group-block_iff_example = evaluate_for_group-block_iff engine below_ads 7

one_dot : dots (normalize (codes "com")) ≡ 1
unfolding dots normalize ends_with trim lower_char
one_dot = refl

host_below : IsParent (normalize (codes "com")) (normalize (codes "a.com"))
unfolding normalize ends_with trim lower_char
host_below = (codes "a", refl, λ e. cc)
