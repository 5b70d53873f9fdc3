-- ===== src/Filter/Updater/Refreshed.antt =====
-- What a run of the updater leaves of each list (internal/filter/updater.go).
use dns_filter.Prelude.{
  ℕ, ◌≡◌, ◌≢◌, ◌↔◌, ◌⊎◌, inl, inr, List, [], ◌∷◌, Option, none, some, Text, arith, length, In, refl,
  text_eq, nat_beq, nat_beq_iff, Bool-cases,
}
use dns_filter.Database.Tables.{Tables}
use dns_filter.Database.Tables.Rows.{Holds, replaced-Holds}
use dns_filter.Database.Transactions.{Sql, View}
use dns_filter.Database.Transactions.Atomic.{either_stored}
use dns_filter.Database.Loads.{Rows}
use dns_filter.Filter.Updater.{ListInfo, update_list, scanned_lists, update_each, update_all}
use dns_filter.Filter.Updater.Atomic.{refilled, update_list-IsAtomic}

abbrev SameEntries : Tables → Tables → ℕ → Type 0
SameEntries t u own = (x : Text) → Holds own x u.entries ↔ Holds own x t.entries

abbrev HasEntries : Tables → ℕ → List Text → Type 0
HasEntries u own domains = (x : Text) → Holds own x u.entries ↔ In x domains

-- The list has the entries that it had, or it is one of those that are updated, and it has exactly
-- the domains of a download that gave some and no error.
abbrev pub IsRefreshed :
    (ListInfo → List Text × Option Text) → List ListInfo → Tables → Tables → ℕ → Type 0
IsRefreshed fetched lists t u own =
    SameEntries t u own
    ⊎ ((l : ListInfo) × In l lists
        × (own ≡ l.id)
        × ((fetched l).1 ≡ none)
        × ((fetched l).0 ≢ [])
        × HasEntries u own (fetched l).0)

refilled-HasEntries :
    (id own : ℕ) (domains : List Text) (t : Tables)
    → SameEntries t (refilled id domains t) own
      ⊎ ((own ≡ id) × HasEntries (refilled id domains t) own domains)
refilled-HasEntries id own domains t = elim (Bool-cases (nat_beq own id)) [
  | inl e ↦ inr (
    (nat_beq_iff own id).0 e,
    λ x. ground (arith, replaced-Holds id own domains x t.entries, (nat_beq_iff own id).0 e),
  )
  | inr e ↦
      inl (λ x. ground (arith, replaced-Holds id own domains x t.entries, nat_beq_iff own id, e))
]

module _ (fetched : ListInfo → List Text × Option Text) where
  pub stored-IsRefreshed :
      (l : ListInfo) (ls : List ListInfo) (d : Text) (ds : List Text) (t u : Tables) (own : ℕ)
      → fetched l ≡ (d ∷ ds, none)
      → (u ≡ t) ⊎ (u ≡ refilled l.id (d ∷ ds) t)
      → IsRefreshed fetched (l ∷ ls) t u own
  stored-IsRefreshed l ls d ds t u own same (inl unchanged) =
      inl (λ x. rw unchanged (λ h. h, λ h. h))
  stored-IsRefreshed l ls d ds t u own same (inr changed) =
      rw changed (elim (refilled-HasEntries l.id own (d ∷ ds) t) [
        | inl kept ↦ inl kept
        | inr (mine, has) ↦
            inr (l, inl refl, mine, ground (arith, same), ground (arith, same), rw same has)
      ])

  -- two runs, one after the other
  pub IsRefreshed-trans :
      (l : ListInfo) (ls : List ListInfo) (t u w : Tables) (own : ℕ)
      → IsRefreshed fetched (l ∷ ls) t u own
      → IsRefreshed fetched ls u w own
      → IsRefreshed fetched (l ∷ ls) t w own
  IsRefreshed-trans l ls t u w own first (inr (k, m, mine, ok, ne, has)) =
      inr (k, inr m, mine, ok, ne, has)
  IsRefreshed-trans l ls t u w own (inl kept) (inl same) =
      inl (λ x. (λ h. (kept x).0 ((same x).0 h), λ h. (same x).1 ((kept x).1 h)))
  IsRefreshed-trans l ls t u w own (inr (k, m, mine, ok, some_domain, has)) (inl same) = inr (
    k,
    m,
    mine,
    ok,
    some_domain,
    λ x. (λ h. (has x).0 ((same x).0 h), λ h. (same x).1 ((has x).1 h)),
  )

  module _ {Db : Type 0} {sql : Sql Db} (view : View sql) where
    update_list-IsRefreshed :
        (l : ListInfo) (ls : List ListInfo) (r : List Text × Option Text) (db : Db) (own : ℕ)
        → fetched l ≡ r
        → IsRefreshed fetched (l ∷ ls) (view.stored db) (view.stored (update_list sql l r db).0) own
    unfolding update_list
    update_list-IsRefreshed l ls (domains, some e) db own same = inl (λ x. (λ h. h, λ h. h))
    update_list-IsRefreshed l ls ([], none) db own same = inl (λ x. (λ h. h, λ h. h))
    update_list-IsRefreshed l ls (d ∷ ds, none) db own same =
        let r = update_list sql l (d ∷ ds, none) db in
        stored-IsRefreshed l ls d ds (view.stored db) (view.stored r.0) own same (
          either_stored view (length (d ∷ ds)) (refilled l.id (d ∷ ds)) (view.stored db) r
            (update_list-IsAtomic view l (d ∷ ds) none db))

    update_each-IsRefreshed :
        (ls : List ListInfo) (db : Db) (own : ℕ)
        → IsRefreshed fetched ls (view.stored db) (view.stored (update_each sql fetched ls db)) own
    unfolding update_each
    update_each-IsRefreshed [] db own = inl (λ x. (λ h. h, λ h. h))
    update_each-IsRefreshed (l ∷ ls) db own =
        let next = (update_list sql l (fetched l) db).0 in
        IsRefreshed-trans l ls (view.stored db) (view.stored next)
          (view.stored (update_each sql fetched ls next)) own
          (update_list-IsRefreshed l ls (fetched l) db own refl)
          (update_each-IsRefreshed ls next own)

    -- Over transactions as PostgreSQL documents them, and whatever fails in a run of the updater after
    -- its query, every list of the database has afterwards the entries that it had, or it is one of
    -- the lists that the run read, and it has exactly the domains of its download, which ended without
    -- an error and gave a domain at least.
    pub update_all-IsRefreshed :
        (rows : Rows ListInfo) (db : Db) (own : ℕ)
        → IsRefreshed fetched
            (scanned_lists rows.scanned)
            (view.stored db)
            (view.stored (update_all sql fetched (inr rows) db))
            own
    unfolding update_all
    update_all-IsRefreshed rows db own = update_each-IsRefreshed (scanned_lists rows.scanned) db own
