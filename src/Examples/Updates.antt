-- ===== src/Examples/Updates.antt =====
-- Downloads of lists (internal/filter).
use dns_filter.Prelude.{
  ℕ, ◌+◌, ◌≡◌, ◌≢◌, ◌↔◌, ◌⊎◌, refl, ap, inl, inr, Bool, true, false, List, [], ◌∷◌, ◌++◌, map,
  Option, none, some, Text, codes, length, arith, Map, lookup, In, nat_eq, text_eq, text_beq,
  text_beq_iff, sym, split, if◌then◌else◌,
}
use dns_filter.Filter.Blacklist.{new_blacklist, scanned, load_from_file}
use dns_filter.Filter.Downloader.{
  answered, not_created, not_fetched, max_body, limited, fetch_domains,
}
use dns_filter.Filter.Downloader.AsFile.{Refused, fetch_domains-load_from_file}
use dns_filter.Filter.Updater.{ListInfo, scanned_lists, update_list, update_all, refill_list}
use dns_filter.Filter.Updater.Refreshed.{IsRefreshed, update_all-IsRefreshed}
use dns_filter.Filter.Updater.Rejected.{RejectsAfter, update_list-refill_list}
use dns_filter.Database.Tables.{
  AdminRow, ListRow, Tables, Statement, run, insert_entry, delete_entries,
}
use dns_filter.Database.Transactions.{Sql, View}
use dns_filter.Database.Loads.{Rows}
use dns_filter.Api.Handlers.{add_all}
use dns_filter.Examples.Memory.{
  memory_pool, memory_pool_view, memory, memory_view, row, tables, exec_on, takes,
}

-- downloads

abbrev info : ℕ → Text → ListInfo
info id url = record { id = id; name = codes "list"; source_url = url }

-- the first list gets two domains, the download of the second fails
fetched : ListInfo → List Text × Option Text
fetched l =
    if text_beq l.source_url (codes "a/ads")
    then (codes "x.com" ∷ codes "y.com" ∷ [], none)
    else ([], some (codes "timeout"))

abbrev listed_rows : Rows ListInfo
listed_rows = record {
  scanned = inr (info 1 (codes "a/ads")) ∷ inl (codes "scan") ∷ inr (info 2 (codes "a/bad")) ∷ [];
  err = none;
}

updated : Tables
updated = update_all memory fetched (inr listed_rows) tables

updated_entries :
    updated.entries ≡ (1, codes "y.com") ∷ (1, codes "x.com") ∷ (2, codes "kept.com") ∷ []
unfolding updated update_all dns_filter.Filter.Updater.update_each scanned_lists update_list fetched
    text_beq dns_filter.Database.Transactions.transact
    dns_filter.Database.Transactions.exec_or_return exec_on dns_filter.Filter.Updater.insert_counted
    dns_filter.Examples.Memory.commit_on run dns_filter.Database.Tables.insert_row
    dns_filter.Database.Tables.has_row dns_filter.Database.Tables.clear_rows
updated_entries = refl

update_all-IsRefreshed_example :
    IsRefreshed fetched
      (scanned_lists listed_rows.scanned)
      tables
      (update_all memory fetched (inr listed_rows) tables)
      1
update_all-IsRefreshed_example = update_all-IsRefreshed fetched memory_view listed_rows tables 1

abbrev too_long : Text
too_long = codes "much-too-long.com"

rejects : RejectsAfter memory_view 1 too_long (codes "x.com" ∷ [])
unfolding exec_on takes
rejects = (always, clears, takes_short)
  where
    always : (tx : Option Tables) → (exec_on (insert_entry 1 too_long) tx).0 ≢ none
    always none e = cc
    always (some t) e = cc

    clears :
        (tx : Option Tables) (t : Tables) → tx ≡ some t → (exec_on (delete_entries 1) tx).0 ≡ none
    clears none t e = cc
    clears (some u) t e = refl

    takes_short :
        (x : Text) (tx : Option Tables) (t : Tables)
        → In x (codes "x.com" ∷ [])
        → tx ≡ some t
        → (exec_on (insert_entry 1 x) tx).0 ≡ none
    takes_short x none t m e = cc
    takes_short x (some u) t (inl same) e = rw same refl
    takes_short x (some u) t (inr m) e = absurd m

update_list-refill_list_example :
    let (after, printed) =
      update_list memory
        (info 1 (codes "a/ads"))
        ((codes "x.com" ∷ []) ++ (too_long ∷ codes "y.com" ∷ []), none)
        tables in
    let (after', count) =
      refill_list memory 1 ((codes "x.com" ∷ []) ++ (too_long ∷ codes "y.com" ∷ [])) tables in
    ((e : Text) × (printed ≡ inl e)) × (after ≡ tables) × (count ≡ some 1) × (after' ≡ tables)
update_list-refill_list_example =
    update_list-refill_list memory_view (info 1 (codes "a/ads")) too_long (codes "x.com" ∷ [])
      (codes "y.com" ∷ []) tables (some tables) refl rejects

-- the lines of a text, with no error
lines : Text × Option Text → List Text × Option Text
lines (body, err) = (split 10 body, err)

fetch_domains-load_from_file_example :
    let body = codes "# ads\n0.0.0.0 x.com\ny.com" in
    let (ls, err) = lines (limited max_body body none) in
    let (domains, failure) = fetch_domains lines (codes "a/ads") (answered 200 body none) in
    (add_all domains new_blacklist ≡ (load_from_file (scanned ls false) new_blacklist).list)
    × ((failure ≡ none) ↔ (err ≡ none))
    × Refused (fetch_domains lines (codes "a/ads") (answered 404 body none))
    × Refused (fetch_domains lines (codes "a/ads") (not_created (codes "bad url")))
    × Refused (fetch_domains lines (codes "a/ads") (not_fetched (codes "bad url")))
fetch_domains-load_from_file_example =
    fetch_domains-load_from_file lines (codes "a/ads") (codes "# ads\n0.0.0.0 x.com\ny.com") none
      404 (codes "bad url") false new_blacklist (omega arith)

downloaded :
    fetch_domains lines (codes "a/ads") (answered 200 (codes "# ads\n0.0.0.0 x.com\ny.com") none)
    ≡ (codes "x.com" ∷ codes "y.com" ∷ [], none)
unfolding fetch_domains lines split dns_filter.Filter.Downloader.fetched_domain
    dns_filter.Prelude.trim dns_filter.Prelude.has_prefix dns_filter.Filter.Domain.parse_line
    dns_filter.Prelude.has_char dns_filter.Prelude.fields text_beq
downloaded = refl
