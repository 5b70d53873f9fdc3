-- ===== src/Filter/Updater.antt =====
-- internal/filter/updater.go: updateAll and updateList; the transaction of DownloadLists of
-- internal/api/handlers.go, which does the same with other error handling.
pub mod Atomic
pub mod Refreshed
pub mod Rejected
use dns_filter.Prelude.{ℕ, ◌+◌, ◌⊎◌, inl, inr, List, [], ◌∷◌, ◌++◌, Option, none, some, Text, codes}
use dns_filter.Database.Tables.{delete_entries, insert_entry, update_count}
use dns_filter.Database.Transactions.{Sql, Action, pure, ◌>>=◌, ◌>>◌, exec_or_return, transact}
use dns_filter.Database.Loads.{Rows}

-- listInfo
pub record ListInfo : Type 0 where
  pub id : ℕ
  pub name : Text
  pub source_url : Text

abbrev pub prefixed : Text → Text
prefixed message = codes "List updater: " ++ message

-- `if err == nil { count++ }`
abbrev pub counted : Option Text → ℕ → ℕ
counted none count = count + 1
counted (some e) count = count

-- the rows of the query that scan
unfoldable pub scanned_lists : List (Text ⊎ ListInfo) → List ListInfo
scanned_lists [] = []
scanned_lists (inl e ∷ rows) = scanned_lists rows
scanned_lists (inr l ∷ rows) = l ∷ scanned_lists rows

module _ {Db : Type 0} (sql : Sql Db) where
  -- the loop of INSERT statements, of updateList and of DownloadLists: an error is passed over
  unfoldable pub insert_counted : ℕ → List Text → ℕ → sql.Tx → ℕ × sql.Tx
  insert_counted id [] count tx = (count, tx)
  insert_counted id (domain ∷ domains) count tx =
      let (err, tx') = sql.exec (insert_entry id domain) tx in
      insert_counted id domains (counted err count) tx'

  abbrev pub always : (sql.Tx → ℕ × sql.Tx) → Action sql.Tx ℕ
  always f tx = let (n, tx') = f tx in (inr n, tx')

  refill : ℕ → List Text → Action sql.Tx ℕ
  refill id domains = do
    exec_or_return sql (prefixed (codes "clear entries failed: ")) (delete_entries id)
    count ← always (insert_counted id domains 0)
    exec_or_return sql (prefixed (codes "update count failed: ")) (update_count count id)
    pure count

  -- Updater.updateList, from the result of FetchDomains on: the state that it leaves, and the count
  -- or the message that it prints
  unfoldable pub update_list : ListInfo → List Text × Option Text → Db → Db × (Text ⊎ ℕ)
  unfolding refill
  update_list l (domains, some e) db = (db, inl (prefixed (l.name ++ (codes " failed: " ++ e))))
  update_list l ([], none) db =
      (db, inl (prefixed (l.name ++ codes " returned 0 domains, skipping")))
  update_list l (d ∷ ds, none) db =
      transact sql (prefixed (codes "tx begin failed: ")) (prefixed (codes "commit failed: "))
        (refill l.id (d ∷ ds)) db

  -- what FetchDomains returns for each list is a parameter of one run
  module _ (fetched : ListInfo → List Text × Option Text) where
    unfoldable pub update_each : List ListInfo → Db → Db
    update_each [] db = db
    update_each (l ∷ ls) db = update_each ls (update_list l (fetched l) db).0

    -- Updater.updateAll, with the result of its query
    unfoldable pub update_all : Text ⊎ Rows ListInfo → Db → Db
    update_all (inl e) db = db
    update_all (inr rows) db = update_each (scanned_lists rows.scanned) db

  abbrev pub refilled_in : ℕ → List Text → Db → Text ⊎ sql.Tx → Db × Option ℕ
  refilled_in id domains db (inl e) = (db, none)
  refilled_in id domains db (inr tx) =
      let cleared = (sql.exec (delete_entries id) tx).1 in
      let (count, inserted) = insert_counted id domains 0 cleared in
      let updated = (sql.exec (update_count count id) inserted).1 in
      ((sql.commit updated db).1, some count)

  -- the transaction of DownloadLists, whose errors past Begin are passed over: the state that it
  -- leaves, and the count, none for -1
  unfoldable pub refill_list : ℕ → List Text → Db → Db × Option ℕ
  refill_list id domains db = refilled_in id domains db (sql.begin db)
