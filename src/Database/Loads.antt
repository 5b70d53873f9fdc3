-- ===== src/Database/Loads.antt =====
-- The loads of internal/store/policies.go and blocklist.go, from the rows that a query gives.
pub mod Policies
pub mod Enforced
pub mod Entries
use dns_filter.Prelude.{
  ℕ, ◌⊎◌, inl, inr, Bool, true, List, [], ◌∷◌, ◌++◌, Option, none, some, Text, codes, Map, lookup,
  insert, nat_eq, nat_beq, if◌then◌else◌,
}

-- pgx.Rows: each row, or the error of its Scan, and rows.Err() at the end
pub record Rows (R : Type 0) : Type 0 where
  pub scanned : List (Text ⊎ R)
  pub err : Option Text

module _ {A : Type 0} where
  abbrev pub or_nil : Option (List A) → List A
  or_nil none = []
  or_nil (some xs) = xs

-- `result[groupID][catID] = true`, on a new map where the group has none
abbrev pub put_policy : ℕ × ℕ → Map ℕ (Map ℕ Bool) → Map ℕ (Map ℕ Bool)
put_policy (group, cat) m = insert group (insert cat true (or_nil (lookup group m))) m

-- a row that does not scan is passed over
unfoldable pub put_policies : List (Text ⊎ ℕ × ℕ) → Map ℕ (Map ℕ Bool) → Map ℕ (Map ℕ Bool)
put_policies [] m = m
put_policies (inl e ∷ rows) m = put_policies rows m
put_policies (inr r ∷ rows) m = put_policies rows (put_policy r m)

-- Store.LoadGroupPolicies
unfoldable pub load_group_policies : Text ⊎ Rows (ℕ × ℕ) → Text ⊎ Map ℕ (Map ℕ Bool)
load_group_policies (inl e) = inl (codes "store: load policies: " ++ e)
load_group_policies (inr rows) = inr (put_policies rows.scanned [])

-- `result[catID] = append(result[catID], domain)`
abbrev pub put_domain : ℕ × Text → Map ℕ (List Text) → Map ℕ (List Text)
put_domain (cat, domain) m = insert cat (or_nil (lookup cat m) ++ (domain ∷ [])) m

unfoldable pub put_domains : List (Text ⊎ ℕ × Text) → Map ℕ (List Text) → Map ℕ (List Text)
put_domains [] m = m
put_domains (inl e ∷ rows) m = put_domains rows m
put_domains (inr r ∷ rows) m = put_domains rows (put_domain r m)

-- Store.LoadCategoryDomains
unfoldable pub load_category_domains : Text ⊎ Rows (ℕ × Text) → Text ⊎ Map ℕ (List Text)
load_category_domains (inl e) = inl (codes "store: load category domains: " ++ e)
load_category_domains (inr rows) = inr (put_domains rows.scanned [])

-- the switch on list_type
abbrev pub sort_entry : Text × ℕ → List Text × List Text → List Text × List Text
sort_entry (domain, list_type) (blacks, whites) =
    if nat_beq list_type 0
    then (blacks ++ (domain ∷ []), whites)
    else if nat_beq list_type 1
    then (blacks, whites ++ (domain ∷ []))
    else (blacks, whites)

-- the loop of LoadActiveBlocklistEntries, and rows.Err() after it
unfoldable pub sort_entries :
    List (Text ⊎ Text × ℕ) → Option Text → List Text × List Text → Text ⊎ (List Text × List Text)
sort_entries [] none lists = inr lists
sort_entries [] (some e) lists = inl (codes "store: iterate blocklist entries: " ++ e)
sort_entries (inl e ∷ rows) err lists = inl (codes "store: scan blocklist entry: " ++ e)
sort_entries (inr r ∷ rows) err lists = sort_entries rows err (sort_entry r lists)

-- Store.LoadActiveBlocklistEntries
unfoldable pub load_active_blocklist_entries :
    Text ⊎ Rows (Text × ℕ) → Text ⊎ (List Text × List Text)
load_active_blocklist_entries (inl e) = inl (codes "store: load blocklist entries: " ++ e)
load_active_blocklist_entries (inr rows) = sort_entries rows.scanned rows.err ([], [])

module _ {R : Type 0} where
  -- the loop of ListGroups, ListBlocklists, ListIPRanges and ListAdminUsers: a row that does not scan
  -- ends it
  unfoldable pub scan_all : Text → List (Text ⊎ R) → Text ⊎ List R
  scan_all prefix [] = inr []
  scan_all prefix (inl e ∷ rows) = inl (prefix ++ e)
  scan_all prefix (inr r ∷ rows) = elim (scan_all prefix rows) [
    | inl e ↦ inl e
    | inr rs ↦ inr (r ∷ rs)
  ]

  -- the loop of ListCategories, GetGroupBlockedCategories and GetBlocklistCategories: a row that does
  -- not scan is passed over
  unfoldable pub scan_good : List (Text ⊎ R) → List R
  scan_good [] = []
  scan_good (inl e ∷ rows) = scan_good rows
  scan_good (inr r ∷ rows) = r ∷ scan_good rows

  abbrev pub list_all : Text → Text → Text ⊎ Rows R → Text ⊎ List R
  list_all on_query on_scan (inl e) = inl (on_query ++ e)
  list_all on_query on_scan (inr rows) = scan_all on_scan rows.scanned

  abbrev pub list_good : Text → Text ⊎ Rows R → Text ⊎ List R
  list_good on_query (inl e) = inl (on_query ++ e)
  list_good on_query (inr rows) = inr (scan_good rows.scanned)

-- Store.ListGroups, ListBlocklists, ListIPRanges and ListAdminUsers
unfoldable pub list_groups : {R : Type 0} → Text ⊎ Rows R → Text ⊎ List R
unfolding scan_all
list_groups = list_all (codes "store: list groups: ") (codes "store: scan group: ")

unfoldable pub list_blocklists : {R : Type 0} → Text ⊎ Rows R → Text ⊎ List R
unfolding scan_all
list_blocklists = list_all (codes "store: list blocklists: ") (codes "store: scan blocklist: ")

unfoldable pub list_ip_ranges : {R : Type 0} → Text ⊎ Rows R → Text ⊎ List R
unfolding scan_all
list_ip_ranges = list_all (codes "store: list ranges: ") (codes "store: scan range: ")

unfoldable pub list_admin_users : {R : Type 0} → Text ⊎ Rows R → Text ⊎ List R
unfolding scan_all
list_admin_users = list_all (codes "store: list users: ") (codes "store: scan user: ")

-- Store.ListCategories, GetGroupBlockedCategories and GetBlocklistCategories
unfoldable pub list_categories : {R : Type 0} → Text ⊎ Rows R → Text ⊎ List R
unfolding scan_good
list_categories = list_good (codes "store: list categories: ")

unfoldable pub get_group_blocked_categories : {R : Type 0} → Text ⊎ Rows R → Text ⊎ List R
unfolding scan_good
get_group_blocked_categories = list_good (codes "store: get policies: ")

unfoldable pub get_blocklist_categories : {R : Type 0} → Text ⊎ Rows R → Text ⊎ List R
unfolding scan_good
get_blocklist_categories = list_good (codes "store: get blocklist categories: ")
