-- ===== src/Database/Replacing/Done.antt =====
-- What the transactions of internal/store leave in the tables.
use dns_filter.Prelude.{
  ℕ, ◌+◌, ◌≡◌, List, [], ◌∷◌, map, ◌++◌, Text, codes, length, arith, refl, nat_eq, text_eq,
}
use dns_filter.Database.Tables.{
  Tables, run, clear_rows, with_count, delete_entries, insert_entry, update_count, delete_list,
  delete_list_categories, insert_list_category, delete_policies, insert_policy,
}
use dns_filter.Database.Tables.Rows.{insert_rows}
use dns_filter.Database.Transactions.{Sql, View, pure, ◌>>◌, exec_or_return}
use dns_filter.Database.Transactions.Atomic.{
  IsAtomic, replace-IsAtomic, Performs, transact-IsAtomic, run_all, >>=-Performs,
  exec_or_return-Performs, pure-Performs,
}
use dns_filter.Database.Replacing.{
  set_group_policy, set_blocklist_categories, delete_blocklist, insert_each, insert_and_count,
  insert_blocklist_entries,
}

run_all-insert_policy :
    (group : ℕ) (cats : List ℕ) (t : Tables)
    → run_all (map (insert_policy group) cats) t
      ≡ record t { policies = insert_rows group cats t.policies }
unfolding run_all insert_rows run
run_all-insert_policy group [] t = refl
run_all-insert_policy group (c ∷ cats) t =
    run_all-insert_policy group cats (run (insert_policy group c) t)

run_all-insert_list_category :
    (id : ℕ) (cats : List ℕ) (t : Tables)
    → run_all (map (insert_list_category id) cats) t
      ≡ record t { list_categories = insert_rows id cats t.list_categories }
unfolding run_all insert_rows run
run_all-insert_list_category id [] t = refl
run_all-insert_list_category id (c ∷ cats) t =
    run_all-insert_list_category id cats (run (insert_list_category id c) t)

abbrev pub replaced_policies : ℕ → List ℕ → Tables → Tables
replaced_policies group cats t = record t {
  policies = insert_rows group cats (clear_rows group t.policies);
}

abbrev pub replaced_categories : ℕ → List ℕ → Tables → Tables
replaced_categories id cats t = record t {
  list_categories = insert_rows id cats (clear_rows id t.list_categories);
}

abbrev pub added_entries : ℕ → List Text → Tables → Tables
added_entries id domains t = record t { entries = insert_rows id domains t.entries }

-- the list's count becomes the number of the domains that were given
abbrev pub added_domains : ℕ → List Text → Tables → Tables
added_domains id domains t = record t {
  entries = insert_rows id domains t.entries;
  blocklists = map (with_count (length domains) id) t.blocklists;
}

module _ {Db : Type 0} {sql : Sql Db} (view : View sql) where
  -- SetGroupPolicy replaces the blocked categories of the group by those given, and no others, or
  -- leaves the tables as they were; an error can also be that of a commit that was carried out.
  pub set_group_policy-IsAtomic :
      (group : ℕ) (cats : List ℕ) (db : Db)
      → IsAtomic view tt
          (replaced_policies group cats)
          (view.stored db)
          (set_group_policy sql group cats db)
  unfolding set_group_policy run
  set_group_policy-IsAtomic group cats db =
      replace-IsAtomic view (replaced_policies group cats) (codes "store: begin tx: ") []
        (codes "store: clear policies: ") (codes "store: insert policy: ") (delete_policies group)
        (map (insert_policy group) cats) db
        (run_all-insert_policy group cats (run (delete_policies group) (view.stored db)))

  pub set_blocklist_categories-IsAtomic :
      (id : ℕ) (cats : List ℕ) (db : Db)
      → IsAtomic view tt
          (replaced_categories id cats)
          (view.stored db)
          (set_blocklist_categories sql id cats db)
  unfolding set_blocklist_categories run
  set_blocklist_categories-IsAtomic id cats db =
      replace-IsAtomic view (replaced_categories id cats) (codes "store: begin tx: ") []
        (codes "store: clear categories: ") (codes "store: insert category: ")
        (delete_list_categories id) (map (insert_list_category id) cats) db
        (run_all-insert_list_category id cats (run (delete_list_categories id) (view.stored db)))

  insert_each-Performs :
      (id : ℕ) (domains : List Text) (count total : ℕ)
      → total ≡ count + length domains
      → Performs view total (added_entries id domains) (insert_each sql id domains count)
  unfolding insert_each insert_rows run
  insert_each-Performs id [] count total e = λ tx t sees. (omega (arith, e), sees)
  insert_each-Performs id (d ∷ ds) count total e =
      let prefix : Text = codes "store: insert entry " ++ (d ++ codes ": ") in
      let s = insert_entry id d in
      >>=-Performs view (exec_or_return sql prefix s) (λ _. insert_each sql id ds (count + 1)) tt
        total (run s) (added_entries id ds) (exec_or_return-Performs view prefix s)
        (insert_each-Performs id ds (count + 1) total (omega (arith, e)))

  insert_and_count-Performs :
      (id : ℕ) (domains : List Text)
      → Performs view (length domains) (added_domains id domains) (insert_and_count sql id domains)
  unfolding insert_and_count run
  insert_and_count-Performs id domains =
      let n = length domains in
      let prefix = codes "store: update blocklist count: " in
      let s = update_count n id in
      >>=-Performs view (insert_each sql id domains 0)
        (λ count. exec_or_return sql prefix (update_count count id) >> pure count) n n
        (added_entries id domains) (run s) (insert_each-Performs id domains 0 n (omega arith))
        (>>=-Performs view (exec_or_return sql prefix s) (λ _. pure n) tt n (run s) (λ t. t)
          (exec_or_return-Performs view prefix s) (pure-Performs view n))

  -- Over transactions as PostgreSQL documents them, InsertBlocklistEntries of one domain or more adds
  -- them all to the list, keeps the other entries, and sets the count of the list to the number of
  -- the domains that it was given, whatever the list held; or it leaves the tables as they were. An
  -- error can also be that of a commit that was carried out.
  pub insert_blocklist_entries-IsAtomic :
      (id : ℕ) (d : Text) (ds : List Text) (db : Db)
      → IsAtomic view
          (length (d ∷ ds))
          (added_domains id (d ∷ ds))
          (view.stored db)
          (insert_blocklist_entries sql id (d ∷ ds) db)
  unfolding insert_blocklist_entries
  insert_blocklist_entries-IsAtomic id d ds db =
      transact-IsAtomic view (length (d ∷ ds)) (added_domains id (d ∷ ds))
        (codes "store: begin tx: ") (codes "store: commit: ") (insert_and_count sql id (d ∷ ds)) db
        (insert_and_count-Performs id (d ∷ ds))

  abbrev pub deleted_list : ℕ → Tables → Tables
  deleted_list id t = run (delete_list id) (run (delete_entries id) t)

  pub delete_blocklist-IsAtomic :
      (id : ℕ) (db : Db)
      → IsAtomic view tt (deleted_list id) (view.stored db) (delete_blocklist sql id db)
  unfolding delete_blocklist
  delete_blocklist-IsAtomic id db =
      let p = codes "store: delete entries: " in
      let q = codes "store: delete blocklist: " in
      transact-IsAtomic view tt (deleted_list id) (codes "store: begin tx: ") []
        (exec_or_return sql p (delete_entries id) >> exec_or_return sql q (delete_list id)) db
        (>>=-Performs view (exec_or_return sql p (delete_entries id))
          (λ _. exec_or_return sql q (delete_list id)) tt tt (run (delete_entries id))
          (run (delete_list id)) (exec_or_return-Performs view p (delete_entries id))
          (exec_or_return-Performs view q (delete_list id)))
