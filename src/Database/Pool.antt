-- ===== src/Database/Pool.antt =====
-- The methods of internal/store that are one statement (admin.go, groups.go, ranges.go, blocklist.go).
pub mod Admins
pub mod Groups
use dns_filter.Prelude.{
  ℕ, ◌≡◌, ◌≢◌, ◌⊎◌, inl, inr, Bool, ◌&&◌, List, [], ◌∷◌, ◌++◌, ◌==◌, text_eq, Option, none, some,
  Text, codes, if◌then◌else◌,
}
use dns_filter.Database.Tables.{
  AdminRow, Tables, Statement, run, insert_list, update_list_row, insert_group, update_group_row,
  delete_group_row, insert_range, update_range, delete_range, insert_admin, update_admin,
  deactivate_admin,
}

-- pgxpool: Exec, and QueryRow with Scan of the id of a new row or of a user that can log in
pub record Pool (Db : Type 0) : Type 0 where
  pub exec : Statement → Db → Option Text × Db
  pub insert : (ℕ → Statement) → Db → (Text ⊎ ℕ) × Db
  -- `SELECT … FROM admin_users WHERE username = $1 AND active = true`
  pub active_admin : Text → Db → Text ⊎ AdminRow

-- golang.org/x/crypto/bcrypt
pub record Bcrypt : Type 0 where
  pub generate : Text → Text ⊎ Text
  pub compare : (hash : Text) → (password : Text) → Bool

-- store.AdminUser
pub record AdminUser : Type 0 where
  pub id : ℕ
  pub username : Text
  pub role : ℕ
  pub active : Bool

abbrev pub user_of : AdminRow → AdminUser
user_of r = record { id = r.id; username = r.username; role = r.role; active = r.active }

module _ {Db : Type 0} (pool : Pool Db) where
  abbrev pub or_err : Text → Option Text × Db → Db × Option Text
  or_err prefix (none, db) = (db, none)
  or_err prefix (some e, db) = (db, some (prefix ++ e))

  abbrev pub id_or_err : Text → (Text ⊎ ℕ) × Db → Db × (Text ⊎ ℕ)
  id_or_err prefix (inr id, db) = (db, inr id)
  id_or_err prefix (inl e, db) = (db, inl (prefix ++ e))

  -- Store.CreateGroup
  unfoldable pub create_group : Text → Text → Db → Db × (Text ⊎ ℕ)
  create_group name description db =
      id_or_err (codes "store: create group: ") (pool.insert (insert_group name description) db)

  -- Store.UpdateGroup
  unfoldable pub update_group : ℕ → Text → Text → Db → Db × Option Text
  update_group id name description db =
      or_err (codes "store: update group: ") (pool.exec (update_group_row id name description) db)

  -- Store.DeleteGroup
  unfoldable pub delete_group : ℕ → Db → Db × Option Text
  delete_group id db = or_err (codes "store: delete group: ") (pool.exec (delete_group_row id) db)

  -- Store.CreateIPRange
  unfoldable pub create_ip_range : Text → ℕ → ℕ → Text → Db → Db × (Text ⊎ ℕ)
  create_ip_range cidr group mode description db =
      id_or_err (codes "store: create range: ")
        (pool.insert (insert_range cidr group mode description) db)

  -- Store.UpdateIPRange
  unfoldable pub update_ip_range : ℕ → Text → ℕ → ℕ → Text → Db → Db × Option Text
  update_ip_range id cidr group mode description db =
      or_err (codes "store: update range: ")
        (pool.exec (update_range id cidr group mode description) db)

  -- Store.DeleteIPRange
  unfoldable pub delete_ip_range : ℕ → Db → Db × Option Text
  delete_ip_range id db = or_err (codes "store: delete range: ") (pool.exec (delete_range id) db)

  -- Store.InsertBlocklist
  unfoldable pub insert_blocklist : Text → Text → ℕ → Db → Db × (Text ⊎ ℕ)
  insert_blocklist name url type db =
      id_or_err (codes "store: insert blocklist: ") (pool.insert (insert_list name url type) db)

  -- Store.UpdateBlocklist
  unfoldable pub update_blocklist : ℕ → Text → Bool → Db → Db × Option Text
  update_blocklist id name active db =
      or_err (codes "store: update blocklist: ") (pool.exec (update_list_row id name active) db)

  abbrev pub created_with : Text → ℕ → Db → Text ⊎ Text → Db × (Text ⊎ ℕ)
  created_with username role db (inl e) = (db, inl (codes "store: hash password: " ++ e))
  created_with username role db (inr hash) =
      id_or_err (codes "store: create user: ") (pool.insert (insert_admin username hash role) db)

  -- Store.CreateAdminUser
  unfoldable pub create_admin_user : Bcrypt → Text → Text → ℕ → Db → Db × (Text ⊎ ℕ)
  create_admin_user bcrypt username password role db =
      created_with username role db (bcrypt.generate password)

  -- Store.UpdateAdminUser
  unfoldable pub update_admin_user : ℕ → Text → ℕ → Bool → Db → Db × Option Text
  update_admin_user id username role active db =
      or_err (codes "store: update user: ") (pool.exec (update_admin id username role active) db)

  -- Store.DeleteAdminUser
  unfoldable pub delete_admin_user : ℕ → Db → Db × Option Text
  delete_admin_user id db =
      or_err (codes "store: delete user: ") (pool.exec (deactivate_admin id) db)

  abbrev pub checked : Bcrypt → Text → Text ⊎ AdminRow → Text ⊎ AdminUser
  checked bcrypt password (inl e) = inl (codes "store: auth: " ++ e)
  checked bcrypt password (inr row) =
      if bcrypt.compare row.password password
      then inr (user_of row)
      else inl (codes "store: invalid password")

  -- Store.AuthenticateAdmin
  unfoldable pub authenticate_admin : Bcrypt → Text → Text → Db → Text ⊎ AdminUser
  authenticate_admin bcrypt username password db =
      checked bcrypt password (pool.active_admin username db)

-- the row with a name that is not deactivated; a name is unique
unfoldable pub find_admin : Text → List AdminRow → Option AdminRow
find_admin username [] = none
find_admin username (row ∷ rows) =
    let later = find_admin username rows in
    if row.username == username && row.active then some row else later

-- What PostgreSQL documents of a statement that runs alone.
pub record PoolView {Db : Type 0} (pool : Pool Db) : Type 0 where
  pub stored : Db → Tables
  pub exec_done :
      (s : Statement) (db : Db)
      → (pool.exec s db).0 ≡ none
      → stored (pool.exec s db).1 ≡ run s (stored db)
  pub insert_done :
      (s : ℕ → Statement) (db : Db) (id : ℕ)
      → (pool.insert s db).0 ≡ inr id
      → stored (pool.insert s db).1 ≡ run (s id) (stored db)
  pub admin_found :
      (username : Text) (db : Db) (row : AdminRow)
      → pool.active_admin username db ≡ inr row
      → find_admin username (stored db).admin_users ≡ some row
