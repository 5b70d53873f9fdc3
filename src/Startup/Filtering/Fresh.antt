-- ===== src/Startup/Filtering/Fresh.antt =====
-- A change of the configuration against a new start (cmd/dnsfilter/main.go).
use dns_filter.Prelude.{
  Bool-cases, ℕ, ◌≡◌, refl, ◌↔◌, ◌⊎◌, inl, inr, Bool, true, false, List, none, some, Text, Map,
}
use dns_filter.Filter.Blacklist.{new_blacklist, clear, contains, scanned}
use dns_filter.Filter.Blacklist.Loading.{CoveredBy, file_domains, load_from_file_iff}
use dns_filter.Filter.Engine.{new_engine, load_categories, load_policies}
use dns_filter.Api.Handlers.{Libs, Handlers, add_all, reload_lists}
use dns_filter.Api.Handlers.Reload.{refilled_iff, reload_lists_iff}
use dns_filter.Startup.Filtering.{Database, Files, Filtering, engine_of, start_up, config_changed}

-- Where the entries, the categories and the policies load, a change of the configuration leaves the
-- engine, with its lists, exactly as a new start of the program would, whatever it was before; where
-- the entries do not load it leaves everything as it was.
pub config_changed-start_up :
    (files : Files) (blacks whites : List Text) (cats : Map ℕ (List Text))
    (policies : Map ℕ (Map ℕ Bool)) (other : Database) (f : Filtering)
    → other.entries ≡ none
    → let db : Database = record {
      entries = some (blacks, whites);
      categories = some cats;
      policies = some policies;
    } in
      (engine_of (config_changed db files f) ≡ engine_of (start_up db files))
      × (config_changed other files f ≡ f)
unfolding config_changed start_up new_engine clear new_blacklist load_categories load_policies
config_changed-start_up files blacks whites cats policies other f none_loaded =
    (refl, rw none_loaded)

started_iff :
    (db : Database) (files : Files) (blacks whites lines : List Text) (bad : Bool) (d : Text)
    → db.entries ≡ some (blacks, whites)
    → files.blocklist ≡ some (scanned lines bad)
    → (contains (start_up db files).black d ≡ true)
      ↔ (CoveredBy blacks d ⊎ CoveredBy (file_domains lines) d)
unfolding start_up clear new_blacklist
started_iff db files blacks whites lines bad d loaded found =
    let listed_iff = refilled_iff blacks new_blacklist d in
    let file_iff = (load_from_file_iff lines bad (add_all blacks new_blacklist) d).0 in
    rw (loaded, found)
      (
        λ h. elim (file_iff.0 h) [ inl e ↦ inl (listed_iff.0 e) | inr c ↦ inr c ],
        λ h. file_iff.1 (elim h [ inl c ↦ inl (listed_iff.1 c) | inr c ↦ inr c ]),
      )

-- Where the lines of blocklist.txt that are read at the start cover a domain and the entries of the
-- database do not, the blacklist of the start holds that domain; a reload through the API that gets
-- the same entries leaves a blacklist that does not hold it any more.
pub reload_forgets_files :
    (lib : Libs) (h : Handlers lib) (db : Database) (files : Files)
    (blacks whites lines : List Text) (bad : Bool) (d : Text)
    → db.entries ≡ some (blacks, whites)
    → lib.store.load_active_blocklist_entries h.db ≡ inr (blacks, whites)
    → files.blocklist ≡ some (scanned lines bad)
    → h.black ≡ (start_up db files).black
    → CoveredBy (file_domains lines) d
    → ¬ CoveredBy blacks d
    → (contains h.black d ≡ true) × (contains (reload_lists lib h).0.black d ≡ false)
reload_forgets_files lib h db files blacks whites lines bad d loaded reloaded found same named
      not_listed =
    (
      rw same ((started_iff db files blacks whites lines bad d loaded found).1 (inr named)),
      elim (Bool-cases (contains (reload_lists lib h).0.black d)) [
        | inl kept ↦
            absurd (not_listed ((reload_lists_iff lib h blacks whites d reloaded).0.0 kept))
        | inr gone ↦ gone
      ],
    )
