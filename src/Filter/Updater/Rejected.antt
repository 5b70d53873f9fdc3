-- ===== src/Filter/Updater/Rejected.antt =====
-- A download with a domain that the database rejects (internal/filter/updater.go, and DownloadLists of
-- internal/api/handlers.go): blocklist_entries.domain has 253 characters at most.
use dns_filter.Prelude.{
  ℕ, ◌+◌, ◌≡◌, ◌≢◌, refl, ap, ◌⊎◌, inl, inr, List, [], ◌∷◌, ◌++◌, none, some, Text, codes, arith,
  length, In, Option-cases, text_eq,
}
use dns_filter.Database.Tables.{Tables, run, delete_entries, insert_entry, update_count}
use dns_filter.Database.Transactions.{
  Sql, View, transact, begun, ended, exec_or_return, reported, bound,
}
use dns_filter.Filter.Updater.{ListInfo, insert_counted, refill, prefixed, update_list, refill_list}
use dns_filter.Filter.Updater.Atomic.{insert_counted-aborted}

module _ {Db : Type 0} {sql : Sql Db} (view : View sql) (id : ℕ) (bad : Text) where
  -- the insertion of the one domain fails; the statements of the transaction before it go through
  abbrev pub RejectsAfter : List Text → Type 0
  RejectsAfter xs =
      ((tx : sql.Tx) → (sql.exec (insert_entry id bad) tx).0 ≢ none)
      × ((tx : sql.Tx) (t : Tables)
          → view.seen tx ≡ some t
          → (sql.exec (delete_entries id) tx).0 ≡ none)
      × ((x : Text) (tx : sql.Tx) (t : Tables)
          → In x xs
          → view.seen tx ≡ some t
          → (sql.exec (insert_entry id x) tx).0 ≡ none)

  insert_counted-stops :
      (xs ys : List Text) (count : ℕ) (tx : sql.Tx) (t : Tables)
      → RejectsAfter xs
      → view.seen tx ≡ some t
      → let r = insert_counted sql id (xs ++ (bad ∷ ys)) count tx in
        (r.0 ≡ count + length xs) × (view.seen r.1 ≡ none)
  unfolding insert_counted
  insert_counted-stops [] ys count tx t h sees =
      let s = insert_entry id bad in
      let stays =
        insert_counted-aborted view id ys count (sql.exec s tx).1
          (view.exec_failed s tx (h.0 tx)) in
      elim (Option-cases (sql.exec s tx).0) [
        | inl e ↦ absurd (h.0 tx e)
        | inr (x, e) ↦ rw (e, insert_counted) (omega (arith, stays.0), stays.1)
      ]
  insert_counted-stops (x ∷ xs) ys count tx t h sees =
      let s = insert_entry id x in
      let done = h.2 x tx t (inl refl) sees in
      let rest : RejectsAfter xs = (h.0, h.1, λ y ty u m. h.2 y ty u (inr m)) in
      let later =
        insert_counted-stops xs ys (count + 1) (sql.exec s tx).1 (run s t) rest
          (view.exec_done s tx t sees done) in
      rw (done, insert_counted) (omega (arith, later.0), later.1)

  -- the tables and the counts after DELETE and the loop
  cleared_stops :
      (xs ys : List Text) (tx : sql.Tx) (t : Tables)
      → RejectsAfter xs
      → view.seen tx ≡ some t
      → let r = insert_counted sql id (xs ++ (bad ∷ ys)) 0 (sql.exec (delete_entries id) tx).1 in
        (r.0 ≡ length xs) × (view.seen r.1 ≡ none)
  cleared_stops xs ys tx t h sees =
      let s = delete_entries id in
      let stops =
        insert_counted-stops xs ys 0 (sql.exec s tx).1 (run s t) h
          (view.exec_done s tx t sees (h.1 tx t sees)) in
      (omega (arith, stops.0), stops.1)

  abbrev IsError : {A B : Type 0} → (Text ⊎ A) × B → Type 0
  IsError {A} r = (e : Text) × (r.0 ≡ inl e)

  refill-IsError :
      (xs ys : List Text) (tx : sql.Tx) (t : Tables)
      → RejectsAfter xs
      → view.seen tx ≡ some t
      → IsError (refill sql id (xs ++ (bad ∷ ys)) tx)
  unfolding refill exec_or_return
  refill-IsError xs ys tx t h sees =
      let s = delete_entries id in
      let stops = cleared_stops xs ys tx t h sees in
      let r = insert_counted sql id (xs ++ (bad ∷ ys)) 0 (sql.exec s tx).1 in
      let u = update_count r.0 id in
      elim (Option-cases (sql.exec u r.1).0) [
        | inl e ↦ absurd (view.exec_aborted u r.1 stops.1 e)
        | inr (x, e) ↦ rw (h.1 tx t sees, e, reported, bound) (_, refl)
      ]

module _ {Db : Type 0} {sql : Sql Db} (view : View sql) where
  update_list-transact :
      (l : ListInfo) (ds : List Text) (db : Db)
      → ds ≢ []
      → update_list sql l (ds, none) db
        ≡ transact sql
            (prefixed (codes "tx begin failed: "))
            (prefixed (codes "commit failed: "))
            (refill sql l.id ds)
            db
  unfolding update_list
  update_list-transact l [] db ne = absurd (ne refl)
  update_list-transact l (d ∷ ds) db ne = refl

  has_bad : (xs : List Text) (bad : Text) (ys : List Text) → xs ++ (bad ∷ ys) ≢ []
  has_bad [] bad ys e = cc
  has_bad (x ∷ xs) bad ys e = cc

  -- Where PostgreSQL begins the transaction, clears the list, takes the domains of a download before
  -- one and rejects this one, the updater reports an error and the tables stay as they were;
  -- DownloadLists leaves them as they were too, yet counts the domains before it as downloaded.
  pub update_list-refill_list :
      (l : ListInfo) (bad : Text) (xs ys : List Text) (db : Db) (tx : sql.Tx)
      → sql.begin db ≡ inr tx
      → RejectsAfter view l.id bad xs
      → let (after, printed) = update_list sql l (xs ++ (bad ∷ ys), none) db in
        let (after', answered) = refill_list sql l.id (xs ++ (bad ∷ ys)) db in
        ((e : Text) × (printed ≡ inl e))
        × (view.stored after ≡ view.stored db)
        × (answered ≡ some (length xs))
        × (view.stored after' ≡ view.stored db)
  unfolding refill_list transact
  update_list-refill_list l bad xs ys db tx began h =
      let sees = view.begin_seen db tx began in
      let domains = xs ++ (bad ∷ ys) in
      let (e, fails) = refill-IsError view l.id bad xs ys tx (view.stored db) h sees in
      let stops = cleared_stops view l.id bad xs ys tx (view.stored db) h sees in
      let r = insert_counted sql l.id domains 0 (sql.exec (delete_entries l.id) tx).1 in
      let u = update_count r.0 l.id in
      let aborted = view.exec_failed u r.1 (view.exec_aborted u r.1 stops.1) in
      let undone = (view.commit_aborted (sql.exec u r.1).1 db aborted).1 in
      rw (update_list-transact l domains db (has_bad xs bad ys), began, fails, begun, ended)
        ((e, refl), view.rolled_back _ db, ap some stops.0, undone)
