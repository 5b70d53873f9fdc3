-- ===== src/Filter/Updater/Atomic.antt =====
-- The transaction of one list (internal/filter/updater.go).
use dns_filter.Prelude.{
  ℕ, ◌+◌, ◌≡◌, ◌⊎◌, inl, inr, List, [], ◌∷◌, map, Option, none, some, Text, codes, arith, length,
  refl, text_eq, nat_eq, Option-cases,
}
use dns_filter.Database.Tables.{
  Statement, Tables, run, clear_rows, with_count, delete_entries, insert_entry, update_count,
}
use dns_filter.Database.Tables.Rows.{insert_rows}
use dns_filter.Database.Transactions.{Sql, View, pure, bound, reported, ◌>>=◌, ◌>>◌, exec_or_return}
use dns_filter.Database.Transactions.Atomic.{
  Sees, IsAtomic, Performs, transact-IsAtomic, >>=-Performs, exec_or_return-Performs, pure-Performs,
}
use dns_filter.Filter.Updater.{ListInfo, insert_counted, always, refill, prefixed, update_list}

-- the entries of the list are the domains, and its count is their number
abbrev pub refilled : ℕ → List Text → Tables → Tables
refilled id domains t = record t {
  entries = insert_rows id domains (clear_rows id t.entries);
  blocklists = map (with_count (length domains) id) t.blocklists;
}

module _ {Db : Type 0} {sql : Sql Db} (view : View sql) where
  -- A transaction whose statements have all gone through, with the whole count, or one that is
  -- aborted.
  abbrev pub Counted : ℕ → Tables → ℕ × sql.Tx → Type 0
  Counted total t (n, tx) = (view.seen tx ≡ none) ⊎ ((n ≡ total) × (view.seen tx ≡ some t))

  -- After a failed statement every other fails, and the count stays.
  pub insert_counted-aborted :
      (id : ℕ) (domains : List Text) (count : ℕ) (tx : sql.Tx)
      → view.seen tx ≡ none
      → ((insert_counted sql id domains count tx).0 ≡ count)
        × (view.seen (insert_counted sql id domains count tx).1 ≡ none)
  unfolding insert_counted
  insert_counted-aborted id [] count tx h = (refl, h)
  insert_counted-aborted id (d ∷ ds) count tx h =
      let s = insert_entry id d in
      let fails = view.exec_aborted s tx h in
      elim (Option-cases (sql.exec s tx).0) [
        | inl e ↦ absurd (fails e)
        | inr (x, e) ↦
            rw (e, insert_counted)
              (insert_counted-aborted id ds count (sql.exec s tx).1 (view.exec_failed s tx fails))
      ]

  pub insert_counted-Counted :
      (id : ℕ) (domains : List Text) (count total : ℕ) (tx : sql.Tx) (t : Tables)
      → total ≡ count + length domains
      → view.seen tx ≡ some t
      → Counted total
          (record t { entries = insert_rows id domains t.entries })
          (insert_counted sql id domains count tx)
  unfolding insert_counted insert_rows run
  insert_counted-Counted id [] count total tx t e h = inr (omega (arith, e), h)
  insert_counted-Counted id (d ∷ ds) count total tx t e h =
      let s = insert_entry id d in
      let after = (sql.exec s tx).1 in
      elim (Option-cases (sql.exec s tx).0) [
        | inl done ↦
            rw (done, insert_counted)
              (insert_counted-Counted id ds (count + 1) total after (run s t) (omega (arith, e))
                (view.exec_done s tx t h done))
        | inr (x, failed) ↦
            rw (failed, insert_counted)
              (inl (insert_counted-aborted id ds count after (view.exec_failed s tx (λ q. cc))).1)
      ]

  refused :
      {A : Type 0} (total a : A) (f : Tables → Tables) (t : Tables) (prefix x : Text)
      (s : Statement) (tx : sql.Tx)
      → (sql.exec s tx).0 ≡ some x
      → Sees view total f t ((exec_or_return sql prefix s >> pure a) tx)
  unfolding exec_or_return
  refused total a f t prefix x s tx e = rw (e, reported, bound) tt

  -- the UPDATE after the loop, which an aborted transaction refuses
  count_updated :
      (id total : ℕ) (prefix : Text) (t : Tables) (r : ℕ × sql.Tx)
      → Counted total t r
      → Sees view total
          (run (update_count total id))
          t
          ((exec_or_return sql prefix (update_count r.0 id) >> pure r.0) r.1)
  count_updated id total prefix t (n, tx) (inl aborted) =
      let s = update_count n id in
      elim (Option-cases (sql.exec s tx).0) [
        | inl e ↦ absurd (view.exec_aborted s tx aborted e)
        | inr (x, e) ↦ refused total n (run (update_count total id)) t prefix x s tx e
      ]
  count_updated id total prefix t (n, tx) (inr (same, sees)) = rw same (
      >>=-Performs view (exec_or_return sql prefix (update_count total id)) (λ _. pure total) tt
        total (run (update_count total id)) (λ u. u)
        (exec_or_return-Performs view prefix (update_count total id)) (pure-Performs view total) tx
        t sees)

  refill-Performs :
      (id : ℕ) (domains : List Text)
      → Performs view (length domains) (refilled id domains) (refill sql id domains)
  unfolding refill run
  refill-Performs id domains =
      let n = length domains in
      let clearing = prefixed (codes "clear entries failed: ") in
      let counting = prefixed (codes "update count failed: ") in
      let insert_all = insert_counted sql id domains 0 in
      >>=-Performs view (exec_or_return sql clearing (delete_entries id))
        (λ _.
          always sql insert_all
          >>= (λ count. exec_or_return sql counting (update_count count id) >> pure count))
        tt n (run (delete_entries id))
        (λ t. run (update_count n id) (record t { entries = insert_rows id domains t.entries }))
        (exec_or_return-Performs view clearing (delete_entries id))
        (λ tx t sees.
          count_updated id n counting (record t { entries = insert_rows id domains t.entries })
            (insert_all tx) (insert_counted-Counted id domains 0 n tx t (omega arith) sees))

  pub update_list-IsAtomic :
      (l : ListInfo) (domains : List Text) (err : Option Text) (db : Db)
      → IsAtomic view
          (length domains)
          (refilled l.id domains)
          (view.stored db)
          (update_list sql l (domains, err) db)
  unfolding update_list
  update_list-IsAtomic l domains (some e) db = inl refl
  update_list-IsAtomic l [] none db = inl refl
  update_list-IsAtomic l (d ∷ ds) none db =
      transact-IsAtomic view (length (d ∷ ds)) (refilled l.id (d ∷ ds))
        (prefixed (codes "tx begin failed: ")) (prefixed (codes "commit failed: "))
        (refill sql l.id (d ∷ ds)) db (refill-Performs l.id (d ∷ ds))
