-- ===== src/Api/Handlers/Downloads.antt =====
-- What DownloadLists of internal/api/handlers.go leaves in the database.
use dns_filter.Prelude.{
  ℕ, ◌≡◌, ◌↔◌, ◌⊎◌, inl, inr, true, List, [], ◌∷◌, Option, none, some, Text, Map, map, length, refl,
  Option-cases, arith, text_eq,
}
use dns_filter.Database.Tables.{Statement, Tables, run, delete_entries, update_count}
use dns_filter.Database.Tables.Rows.{insert_rows}
use dns_filter.Database.Transactions.{Sql, View}
use dns_filter.Filter.Updater.{ListInfo, insert_counted, refilled_in, refill_list}
use dns_filter.Filter.Updater.Atomic.{
  refilled, Counted, insert_counted-Counted, insert_counted-aborted,
}
use dns_filter.Filter.Updater.Refreshed.{IsRefreshed, stored-IsRefreshed, IsRefreshed-trans}
use dns_filter.Api.Handlers.{Libs, Handlers, download_list, download_all, reload_if, download_lists}
use dns_filter.Api.Handlers.Reload.{refilled_iff}
use dns_filter.Filter.Blacklist.{contains}
use dns_filter.Filter.Blacklist.Loading.{CoveredBy}

module _ {Db : Type 0} {sql : Sql Db} (view : View sql) where
  -- the transaction sees the tables, or it is aborted
  abbrev MaySee : Tables → sql.Tx → Type 0
  MaySee t tx = (view.seen tx ≡ none) ⊎ (view.seen tx ≡ some t)

  exec-MaySee :
      (s : Statement) (t : Tables) (tx : sql.Tx) → MaySee t tx → MaySee (run s t) (sql.exec s tx).1
  exec-MaySee s t tx (inl aborted) = inl (view.exec_failed s tx (view.exec_aborted s tx aborted))
  exec-MaySee s t tx (inr sees) = elim (Option-cases (sql.exec s tx).0) [
    | inl done ↦ inr (view.exec_done s tx t sees done)
    | inr (e, failed) ↦ inl (view.exec_failed s tx (λ none'. cc))
  ]

  inserted-Counted :
      (id : ℕ) (domains : List Text) (t : Tables) (tx : sql.Tx)
      → MaySee t tx
      → Counted view
          (length domains)
          (record t { entries = insert_rows id domains t.entries })
          (insert_counted sql id domains 0 tx)
  inserted-Counted id domains t tx (inl aborted) =
      inl (insert_counted-aborted view id domains 0 tx aborted).1
  inserted-Counted id domains t tx (inr sees) =
      insert_counted-Counted view id domains 0 (length domains) tx t (omega arith) sees

  updated-MaySee :
      (id total : ℕ) (t : Tables) (r : ℕ × sql.Tx)
      → Counted view total t r
      → MaySee (run (update_count total id) t) (sql.exec (update_count r.0 id) r.1).1
  updated-MaySee id total t (n, tx) (inl aborted) =
      let s = update_count n id in inl (view.exec_failed s tx (view.exec_aborted s tx aborted))
  updated-MaySee id total t (n, tx) (inr (same, sees)) =
      rw same (exec-MaySee (update_count total id) t tx (inr sees))

  commit_stored :
      (t : Tables) (tx : sql.Tx) (db : Db)
      → MaySee t tx
      → let u = view.stored (sql.commit tx db).1 in (u ≡ view.stored db) ⊎ (u ≡ t)
  commit_stored t tx db (inl aborted) = inl (view.commit_aborted tx db aborted).1
  commit_stored t tx db (inr sees) = view.commit_failed tx db t sees

  -- without a look at the errors the transaction is carried out or leaves the tables alone, too
  refill_list_stored :
      (id : ℕ) (domains : List Text) (db : Db)
      → let t = view.stored db in
        let u = view.stored (refill_list sql id domains db).0 in
        (u ≡ t) ⊎ (u ≡ refilled id domains t)
  unfolding refill_list run
  refill_list_stored id domains db = by_result (sql.begin db) (view.begin_seen db)
    where
      by_result :
          (r : Text ⊎ sql.Tx)
          → ((tx : sql.Tx) → r ≡ inr tx → view.seen tx ≡ some (view.stored db))
          → (view.stored (refilled_in sql id domains db r).0 ≡ view.stored db)
            ⊎ (view.stored (refilled_in sql id domains db r).0
                ≡ refilled id domains (view.stored db))
      by_result (inl e) k = inl refl
      by_result (inr tx) k =
          let t = view.stored db in
          let cleared = (sql.exec (delete_entries id) tx).1 in
          let r = insert_counted sql id domains 0 cleared in
          let counted =
            inserted-Counted id domains (run (delete_entries id) t) cleared
              (exec-MaySee (delete_entries id) t tx (inr (k tx refl))) in
          commit_stored (refilled id domains t) (sql.exec (update_count r.0 id) r.1).1 db
            (updated-MaySee id (length domains) _ r counted)

-- what FetchDomains gives for a list, as the handler sees it
abbrev pub fetched_by : (Text → Option (List Text)) → ListInfo → List Text × Option Text
fetched_by fetch l = elim (fetch l.source_url) [ none ↦ ([], some []) | some ds ↦ (ds, none) ]

abbrev pub info_of : ℕ × Text × Text → ListInfo
info_of (id, name, url) = record { id = id; name = name; source_url = url }

module _ (lib : Libs) {sql : Sql lib.store.Db} (view : View sql) where
  -- the store runs the transaction of DownloadLists over the database
  abbrev pub RunsRefill : Type 0
  RunsRefill =
      (db : lib.store.Db) (id : ℕ) (domains : List Text)
      → lib.store.refill_list db id domains ≡ refill_list sql id domains db

  module _ (id : ℕ) (name url : Text) (ls : List (ℕ × Text × Text)) where
    -- the entries of a list after the round of another or the same list
    abbrev AfterRound : lib.store.Db → lib.store.Db → ℕ → Type 0
    AfterRound before after own =
        IsRefreshed (fetched_by lib.fetch_domains) (map info_of ((id, name, url) ∷ ls))
          (view.stored before) (view.stored after) own

    some-AfterRound :
        (ds : List Text) (db : lib.store.Db) (results : Map Text (Option ℕ)) (own : ℕ)
        → RunsRefill
        → lib.fetch_domains url ≡ some ds
        → AfterRound db (download_list lib db (id, name, url) results).0 own
    some-AfterRound [] db results own h e = rw (e, download_list) (inl (λ x. (λ k. k, λ k. k)))
    some-AfterRound (d ∷ ds) db results own h e =
        let fetched = fetched_by lib.fetch_domains in
        let l = info_of (id, name, url) in
        let gives : fetched l ≡ (d ∷ ds, none) = rw (e, fetched_by) refl in
        rw (e, download_list, h db id (d ∷ ds))
          (stored-IsRefreshed fetched l (map info_of ls) d ds (view.stored db) _ own gives
            (refill_list_stored view id (d ∷ ds) db))

    download_list-AfterRound :
        (db : lib.store.Db) (results : Map Text (Option ℕ)) (own : ℕ)
        → RunsRefill
        → AfterRound db (download_list lib db (id, name, url) results).0 own
    download_list-AfterRound db results own h = elim (Option-cases (lib.fetch_domains url)) [
      | inl e ↦ rw (e, download_list) (inl (λ x. (λ k. k, λ k. k)))
      | inr (ds, e) ↦ some-AfterRound ds db results own h e
    ]

  download_all-IsRefreshed :
      (ls : List (ℕ × Text × Text)) (db : lib.store.Db) (results : Map Text (Option ℕ)) (own : ℕ)
      → RunsRefill
      → IsRefreshed
          (fetched_by lib.fetch_domains)
          (map info_of ls)
          (view.stored db)
          (view.stored (download_all lib ls db results).0)
          own
  unfolding download_all
  download_all-IsRefreshed [] db results own h = inl (λ x. (λ k. k, λ k. k))
  download_all-IsRefreshed ((id, name, url) ∷ ls) db results own h =
      let (next, results') = download_list lib db (id, name, url) results in
      IsRefreshed-trans (fetched_by lib.fetch_domains) (info_of (id, name, url)) (map info_of ls)
        (view.stored db) (view.stored next) (view.stored (download_all lib ls next results').0) own
        (download_list-AfterRound id name url ls db results own h)
        (download_all-IsRefreshed ls next results' own h)

  -- the two lists after a reload with an answer of the database: as they were after an error, and
  -- exactly what the loaded domains cover otherwise
  abbrev pub IsReloaded :
      Text ⊎ (List Text × List Text) → Handlers lib → Handlers lib → Text → Type 0
  IsReloaded (inl err) before after d = (after.black ≡ before.black) × (after.white ≡ before.white)
  IsReloaded (inr (blacks, whites)) before after d =
      ((contains after.black d ≡ true) ↔ CoveredBy blacks d)
      × ((contains after.white d ≡ true) ↔ CoveredBy whites d)

  reload_if-IsReloaded :
      (answer : Text ⊎ (List Text × List Text)) (db : lib.store.Db) (h : Handlers lib) (d : Text)
      → let after = reload_if lib answer (record h { db = db }) in
        (after.db ≡ db)
        × IsReloaded answer h after d
        × (after ≡ record h { db = db; black = after.black; white = after.white })
  reload_if-IsReloaded (inl err) db h d = (refl, (refl, refl), refl)
  reload_if-IsReloaded (inr (blacks, whites)) db h d =
      (refl, (refilled_iff blacks h.black d, refilled_iff whites h.white d), refl)

  -- Where DownloadLists finds a list at least and refills lists by its transaction over PostgreSQL:
  -- every list of the database has afterwards, whatever fails on the way, the entries that it had, or
  -- exactly the domains of its download, which gave some; where the entries load from that database,
  -- the blacklist holds exactly the names that the black ones cover, and the whitelist those of the
  -- white, and where they do not load, the two are as before; nothing else of the server changes.
  pub download_lists-IsRefreshed :
      (h : Handlers lib) (l : ℕ × Text × Text) (ls : List (ℕ × Text × Text)) (own : ℕ) (d : Text)
      → RunsRefill
      → lib.store.external_lists h.db ≡ inr (l ∷ ls)
      → let after = (download_lists lib h).0 in
        IsRefreshed
          (fetched_by lib.fetch_domains)
          (map info_of (l ∷ ls))
          (view.stored h.db)
          (view.stored after.db)
          own
        × IsReloaded (lib.store.load_active_blocklist_entries after.db) h after d
        × (after ≡ record h { db = after.db; black = after.black; white = after.white })
  unfolding download_lists
  download_lists-IsRefreshed h l ls own d runs lists =
      let db = (download_all lib (l ∷ ls) h.db []).0 in
      let refreshed = download_all-IsRefreshed (l ∷ ls) h.db [] own runs in
      let (same, reloaded, rest) =
        reload_if-IsReloaded (lib.store.load_active_blocklist_entries db) db h d in
      rw (lists, same) (refreshed, reloaded, rest)
