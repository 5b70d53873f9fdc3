-- ===== src/Database/Replacing.antt =====
-- The methods of internal/store that change several rows in one transaction (policies.go, ranges.go,
-- blocklist.go).
pub mod Done
use dns_filter.Prelude.{ℕ, ◌+◌, ◌⊎◌, inl, inr, List, [], ◌∷◌, map, ◌++◌, Text, codes}
use dns_filter.Database.Tables.{
  Statement, delete_entries, insert_entry, update_count, delete_list, delete_list_categories,
  insert_list_category, delete_policies, insert_policy,
}
use dns_filter.Database.Transactions.{
  Sql, Action, pure, ◌>>=◌, ◌>>◌, exec_or_return, exec_each, transact,
}

module _ {Db : Type 0} (sql : Sql Db) where
  -- Store.SetGroupPolicy
  unfoldable pub set_group_policy : ℕ → List ℕ → Db → Db × (Text ⊎ Unit {0})
  set_group_policy group cats = transact sql (codes "store: begin tx: ") [] (
      exec_or_return sql (codes "store: clear policies: ") (delete_policies group)
      >> exec_each sql (codes "store: insert policy: ") (map (insert_policy group) cats))

  -- Store.SetBlocklistCategories
  unfoldable pub set_blocklist_categories : ℕ → List ℕ → Db → Db × (Text ⊎ Unit {0})
  set_blocklist_categories id cats = transact sql (codes "store: begin tx: ") [] (
      exec_or_return sql (codes "store: clear categories: ") (delete_list_categories id)
      >> exec_each sql (codes "store: insert category: ") (map (insert_list_category id) cats))

  -- Store.DeleteBlocklist
  unfoldable pub delete_blocklist : ℕ → Db → Db × (Text ⊎ Unit {0})
  delete_blocklist id = transact sql (codes "store: begin tx: ") [] (
      exec_or_return sql (codes "store: delete entries: ") (delete_entries id)
      >> exec_or_return sql (codes "store: delete blocklist: ") (delete_list id))

  -- the loop of InsertBlocklistEntries, with its count; the text of an error names the domain
  unfoldable pub insert_each : ℕ → List Text → ℕ → Action sql.Tx ℕ
  insert_each id [] count = pure count
  insert_each id (domain ∷ domains) count = do
    exec_or_return sql (codes "store: insert entry " ++ (domain ++ codes ": "))
        (insert_entry id domain)
    insert_each id domains (count + 1)

  insert_and_count : ℕ → List Text → Action sql.Tx ℕ
  insert_and_count id domains = do
    count ← insert_each id domains 0
    exec_or_return sql (codes "store: update blocklist count: ") (update_count count id)
    pure count

  -- Store.InsertBlocklistEntries, up to the count that it returns along with an error
  unfoldable pub insert_blocklist_entries : ℕ → List Text → Db → Db × (Text ⊎ ℕ)
  unfolding insert_and_count
  insert_blocklist_entries id [] db = (db, inr 0)
  insert_blocklist_entries id (d ∷ ds) db =
      transact sql (codes "store: begin tx: ") (codes "store: commit: ")
        (insert_and_count id (d ∷ ds)) db
