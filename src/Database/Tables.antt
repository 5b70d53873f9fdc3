-- ===== src/Database/Tables.antt =====
-- What the tables of internal/store/migrations hold, and what the statements of the program's
-- transactions do to them.
pub mod Rows
use dns_filter.Prelude.{
  ℕ, Bool, not, ◌&&◌, List, [], ◌∷◌, map, Option, some, false, true, Text, text_eq, nat_eq, Eq,
  ◌==◌, if◌then◌else◌, keep, any,
}

-- a row of blocklists
pub record ListRow : Type 0 where
  pub id : ℕ
  pub name : Text
  pub source_url : Option Text
  pub list_type : ℕ
  pub active : Bool
  pub domain_count : ℕ

-- a row of groups
pub record GroupRow : Type 0 where
  pub id : ℕ
  pub name : Text
  pub description : Text

-- a row of ip_ranges
pub record RangeRow : Type 0 where
  pub id : ℕ
  pub cidr : Text
  pub group_id : ℕ
  pub auth_mode : ℕ
  pub description : Text

-- a row of admin_users; the password is its hash
pub record AdminRow : Type 0 where
  pub id : ℕ
  pub username : Text
  pub password : Text
  pub role : ℕ
  pub active : Bool

-- blocklist_entries (list_id, domain), blocklist_categories (list_id, category_id) and policies
-- (group_id, category_id) are sets of pairs by their unique indexes.
pub record Tables : Type 0 where
  pub blocklists : List ListRow
  pub entries : List (ℕ × Text)
  pub list_categories : List (ℕ × ℕ)
  pub policies : List (ℕ × ℕ)
  pub groups : List GroupRow
  pub ip_ranges : List RangeRow
  pub admin_users : List AdminRow

module _ {A : Type 0} where
  -- `DELETE FROM … WHERE owner = $1`
  unfoldable pub clear_rows : ℕ → List (ℕ × A) → List (ℕ × A)
  clear_rows owner rows = keep (λ r. not (r.0 == owner)) rows

module _ {A : Type 0} ⦃eq : Eq A⦄ where
  unfoldable pub has_row : ℕ → A → List (ℕ × A) → Bool
  has_row owner item rows = any (λ r. r.0 == owner && r.1 == item) rows

  -- `INSERT INTO … VALUES ($1, $2) ON CONFLICT DO NOTHING`
  unfoldable pub insert_row : ℕ → A → List (ℕ × A) → List (ℕ × A)
  insert_row owner item rows = if has_row owner item rows then rows else (owner, item) ∷ rows

-- the statements, with their arguments
pub data Statement : Type 0 where
  delete_entries : ℕ → Statement
  insert_entry : ℕ → Text → Statement
  update_count : ℕ → ℕ → Statement
  delete_list : ℕ → Statement
  delete_list_categories : ℕ → Statement
  insert_list_category : ℕ → ℕ → Statement
  delete_policies : ℕ → Statement
  insert_policy : ℕ → ℕ → Statement
  -- the statements that run alone; a new row has the id that the database gives it
  insert_list : Text → Text → ℕ → (id : ℕ) → Statement
  update_list_row : ℕ → Text → Bool → Statement
  insert_group : Text → Text → (id : ℕ) → Statement
  update_group_row : ℕ → Text → Text → Statement
  delete_group_row : ℕ → Statement
  insert_range : Text → ℕ → ℕ → Text → (id : ℕ) → Statement
  update_range : ℕ → Text → ℕ → ℕ → Text → Statement
  delete_range : ℕ → Statement
  insert_admin : Text → Text → ℕ → (id : ℕ) → Statement
  update_admin : ℕ → Text → ℕ → Bool → Statement
  deactivate_admin : ℕ → Statement

-- `UPDATE blocklists SET domain_count = $1, updated_at = NOW() WHERE id = $2`
abbrev pub with_count : ℕ → ℕ → ListRow → ListRow
with_count count id row = if row.id == id then record row { domain_count = count } else row

-- the other UPDATE statements, on one row
abbrev pub with_list : ℕ → Text → Bool → ListRow → ListRow
with_list id name active row =
    if row.id == id then record row { name = name; active = active } else row

abbrev pub with_group : ℕ → Text → Text → GroupRow → GroupRow
with_group id name description row =
    if row.id == id then record row { name = name; description = description } else row

abbrev pub with_range : ℕ → Text → ℕ → ℕ → Text → RangeRow → RangeRow
with_range id cidr group mode description row =
    if row.id == id
    then record row { cidr = cidr; group_id = group; auth_mode = mode; description = description }
    else row

abbrev pub with_admin : ℕ → Text → ℕ → Bool → AdminRow → AdminRow
with_admin id username role active row =
    if row.id == id then record row { username = username; role = role; active = active } else row

abbrev pub without_access : ℕ → AdminRow → AdminRow
without_access id row = if row.id == id then record row { active = false } else row

-- A group that is deleted takes its policies and its ranges with it, and a list that is deleted its
-- entries and its categories (ON DELETE CASCADE). A new list is active and has no domains.
unfoldable pub run : Statement → Tables → Tables
run (delete_entries id) t = record t { entries = clear_rows id t.entries }
run (insert_entry id domain) t = record t { entries = insert_row id domain t.entries }
run (update_count count id) t = record t { blocklists = map (with_count count id) t.blocklists }
run (delete_list id) t = record t {
  blocklists = keep (λ row. not (row.id == id)) t.blocklists;
  entries = clear_rows id t.entries;
  list_categories = clear_rows id t.list_categories;
}
run (delete_list_categories id) t = record t { list_categories = clear_rows id t.list_categories }
run (insert_list_category id cat) t = record t {
  list_categories = insert_row id cat t.list_categories;
}
run (delete_policies group) t = record t { policies = clear_rows group t.policies }
run (insert_policy group cat) t = record t { policies = insert_row group cat t.policies }
run (insert_list name url type id) t = record t {
  blocklists =
      record {
        id = id;
        name = name;
        source_url = some url;
        list_type = type;
        active = true;
        domain_count = 0;
      }
      ∷ t.blocklists;
}
run (update_list_row id name active) t = record t {
  blocklists = map (with_list id name active) t.blocklists;
}
run (insert_group name description id) t = record t {
  groups = record { id = id; name = name; description = description } ∷ t.groups;
}
run (update_group_row id name description) t = record t {
  groups = map (with_group id name description) t.groups;
}
run (delete_group_row id) t = record t {
  groups = keep (λ row. not (row.id == id)) t.groups;
  policies = clear_rows id t.policies;
  ip_ranges = keep (λ row. not (row.group_id == id)) t.ip_ranges;
}
run (insert_range cidr group mode description id) t = record t {
  ip_ranges =
      record { id = id; cidr = cidr; group_id = group; auth_mode = mode; description = description }
      ∷ t.ip_ranges;
}
run (update_range id cidr group mode description) t = record t {
  ip_ranges = map (with_range id cidr group mode description) t.ip_ranges;
}
run (delete_range id) t = record t { ip_ranges = keep (λ row. not (row.id == id)) t.ip_ranges }
run (insert_admin username hash role id) t = record t {
  admin_users =
      record { id = id; username = username; password = hash; role = role; active = true }
      ∷ t.admin_users;
}
run (update_admin id username role active) t = record t {
  admin_users = map (with_admin id username role active) t.admin_users;
}
run (deactivate_admin id) t = record t { admin_users = map (without_access id) t.admin_users }
