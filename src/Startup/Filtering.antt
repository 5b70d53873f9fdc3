-- ===== src/Startup/Filtering.antt =====
-- cmd/dnsfilter/main.go: the lists and the engine that the program starts with, and what it makes of
-- them when the configuration changes.
pub mod Fresh
use dns_filter.Prelude.{ℕ, Bool, true, false, List, [], ◌∷◌, Option, none, some, Text, Map}
use dns_filter.Filter.Blacklist.{Blacklist, new_blacklist, clear, Source, load_from_file}
use dns_filter.Filter.Engine.{Engine, new_engine, load_categories, load_policies}
use dns_filter.Api.Handlers.{add_all}

-- what the database answers: LoadActiveBlocklistEntries, LoadCategoryDomains and LoadGroupPolicies,
-- none where they fail
pub record Database : Type 0 where
  pub entries : Option (List Text × List Text)
  pub categories : Option (Map ℕ (List Text))
  pub policies : Option (Map ℕ (Map ℕ Bool))

-- blocklist.txt and allowlist.txt, none where os.Stat does not find them
pub record Files : Type 0 where
  pub blocklist : Option Source
  pub allowlist : Option Source

-- The two lists, which the engine shares, and the engine.
pub record Filtering : Type 0 where
  pub black : Blacklist
  pub white : Blacklist
  pub engine : Engine

-- the engine with the lists that it points to
abbrev pub engine_of : Filtering → Engine
engine_of f = record f.engine { blacklist = some f.black; whitelist = some f.white }

abbrev load_file : Option Source → Blacklist → Blacklist
load_file none b = b
load_file (some s) b = (load_from_file s b).list

-- the domains of the database, then those of the file
abbrev pub filled : List Text → Option Source → Blacklist → Blacklist
filled ds file b = load_file file (add_all ds b)

abbrev with_categories : Option (Map ℕ (List Text)) → Engine → Engine
with_categories none e = e
with_categories (some cats) e = load_categories cats e

abbrev with_policies : Option (Map ℕ (Map ℕ Bool)) → Engine → Engine
with_policies none e = e
with_policies (some ps) e = load_policies ps e

abbrev with_rules : Database → Engine → Engine
with_rules db e = with_policies db.policies (with_categories db.categories e)

-- the lists at start-up; without entries the files alone fill them
abbrev blacks_of : Option (List Text × List Text) → List Text
blacks_of none = []
blacks_of (some (blacks, whites)) = blacks

abbrev whites_of : Option (List Text × List Text) → List Text
whites_of none = []
whites_of (some (blacks, whites)) = whites

-- main up to the policies, where the database is reached
unfoldable pub start_up : Database → Files → Filtering
start_up db files =
    let black = filled (blacks_of db.entries) files.blocklist new_blacklist in
    let white = filled (whites_of db.entries) files.allowlist new_blacklist in
    record {
      black = black;
      white = white;
      engine = with_rules db (new_engine (some black) (some white));
    }

abbrev changed : Option (List Text × List Text) → Database → Files → Filtering → Filtering
changed none db files f = f
changed (some (blacks, whites)) db files f = record {
  black = filled blacks files.blocklist (clear f.black);
  white = filled whites files.allowlist (clear f.white);
  engine = with_rules db f.engine;
}

-- the callback of the listener for config_changed
unfoldable pub config_changed : Database → Files → Filtering → Filtering
config_changed db files f = changed db.entries db files f
