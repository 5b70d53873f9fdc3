-- ===== src/Database/Pool/Admins.antt =====
-- Who can log in to the dashboard (internal/store/admin.go).
use dns_filter.Prelude.{
  ℕ, ◌≡◌, ◌≢◌, ◌⊎◌, refl, inl, inr, true, List, [], ◌∷◌, map, Option, Bool-cases, none, some, Text,
  text_eq, codes, text_beq_iff, nat_beq_iff, arith,
}
use dns_filter.Database.Tables.{AdminRow, run, without_access, insert_admin, deactivate_admin}
use dns_filter.Database.Pool.{
  Pool, PoolView, Bcrypt, AdminUser, user_of, find_admin, create_admin_user, delete_admin_user,
  authenticate_admin, checked, created_with, id_or_err, or_err,
}

-- a row that is found after one was deactivated is another
find_admin-without_access :
    (username : Text) (id : ℕ) (rows : List AdminRow) (row : AdminRow)
    → find_admin username (map (without_access id) rows) ≡ some row
    → row.id ≢ id
unfolding find_admin
find_admin-without_access username id [] row h = cc
find_admin-without_access username id (r ∷ rows) row h =
    let later = find_admin-without_access username id rows row in
    ground (arith, later, nat_beq_iff r.id id)

module _ {Db : Type 0} (pool : Pool Db) where
  pub or_err-done :
      (prefix : Text) (r : Option Text × Db) (after : Db)
      → or_err pool prefix r ≡ (after, none)
      → (r.0 ≡ none) × (r.1 ≡ after)
  or_err-done prefix (none, db) after h = (refl, cc)
  or_err-done prefix (some e, db) after h = cc

module _ {Db : Type 0} {pool : Pool Db} (view : PoolView pool) (bcrypt : Bcrypt) where
  id_or_err-done :
      (prefix : Text) (r : (Text ⊎ ℕ) × Db) (after : Db) (id : ℕ)
      → id_or_err pool prefix r ≡ (after, inr id)
      → (r.0 ≡ inr id) × (r.1 ≡ after)
  id_or_err-done prefix (inr n, db) after id h = (ground (arith, h), cc)
  id_or_err-done prefix (inl e, db) after id h = cc

  checked-found :
      (password : Text) (answer : Text ⊎ AdminRow) (u : AdminUser)
      → checked pool bcrypt password answer ≡ inr u
      → (row : AdminRow) × (answer ≡ inr row) × (u ≡ user_of row)
  checked-found password (inl e) u h = cc
  checked-found password (inr row) u h = elim (Bool-cases (bcrypt.compare row.password password)) [
    | inl same ↦ (row, refl, ground (arith, same, h))
    | inr other ↦ absurd (ground (arith, other, h))
  ]

  -- Over statements as PostgreSQL documents them: once a user is deleted without an error, no name and
  -- no password log in as this user.
  pub delete_admin_user-authenticate_admin :
      (id : ℕ) (username password : Text) (db after : Db) (u : AdminUser)
      → delete_admin_user pool id db ≡ (after, none)
      → authenticate_admin pool bcrypt username password after ≡ inr u
      → u.id ≢ id
  unfolding delete_admin_user authenticate_admin run
  delete_admin_user-authenticate_admin id username password db after u deleted logged_in =
      let (row, found, same) =
        checked-found password (pool.active_admin username after) u logged_in in
      let (done, left) =
        or_err-done pool (codes "store: delete user: ") (pool.exec (deactivate_admin id) db) after
          deleted in
      let stored : view.stored after ≡ run (deactivate_admin id) (view.stored db) =
        rw (← left) (view.exec_done (deactivate_admin id) db done) in
      let active = view.admin_found username after row found in
      rw same (
        find_admin-without_access username id (view.stored db).admin_users row
          (rw stored at active))

  -- the row of a new user
  new_row :
      (username hash : Text) (role id : ℕ) (db after : Db) (row : AdminRow)
      → id_or_err pool
          (codes "store: create user: ")
          (pool.insert (insert_admin username hash role) db)
        ≡ (after, inr id)
      → pool.active_admin username after ≡ inr row
      → row ≡ record { id = id; username = username; password = hash; role = role; active = true }
  unfolding run find_admin
  new_row username hash role id db after row created answered =
      let s = insert_admin username hash role in
      let (done, left) =
        id_or_err-done (codes "store: create user: ") (pool.insert s db) after id created in
      let stored : view.stored after ≡ run (s id) (view.stored db) =
        rw (← left) (view.insert_done s db id done) in
      let found = view.admin_found username after row answered in
      let found' = rw stored at found in ground (arith, found', text_beq_iff username username)

  -- Over statements as PostgreSQL documents them, and where bcrypt accepts the password of a hash that
  -- it has made: a user that is created without an error logs in with the name and the password given,
  -- as the new user with the role given, where the database answers the query for the name with a row.
  pub create_admin_user-authenticate_admin :
      (username password : Text) (role id : ℕ) (db after : Db) (row : AdminRow)
      → ((hash : Text) → bcrypt.generate password ≡ inr hash → bcrypt.compare hash password ≡ true)
      → create_admin_user pool bcrypt username password role db ≡ (after, inr id)
      → pool.active_admin username after ≡ inr row
      → authenticate_admin pool bcrypt username password after
        ≡ inr (record { id = id; username = username; role = role; active = true })
  unfolding create_admin_user authenticate_admin run
  create_admin_user-authenticate_admin username password role id db after row matches created
        answered =
      by_hash (bcrypt.generate password) (λ hash e. matches hash e) created
    where
      by_hash :
          (generated : Text ⊎ Text)
          → ((hash : Text) → generated ≡ inr hash → bcrypt.compare hash password ≡ true)
          → created_with pool username role db generated ≡ (after, inr id)
          → checked pool bcrypt password (pool.active_admin username after)
            ≡ inr (record { id = id; username = username; role = role; active = true })
      by_hash (inl e) matching done = cc
      by_hash (inr hash) matching done =
          let same = new_row username hash role id db after row done answered in
          let fits = matching hash refl in rw (answered, same, fits) refl
