-- ===== src/Database/Loads/Entries.antt =====
-- What LoadActiveBlocklistEntries gives (internal/store/blocklist.go).
use dns_filter.Prelude.{
  ℕ, ◌≡◌, refl, ◌↔◌, ◌⊎◌, inl, inr, List, [], ◌∷◌, ◌++◌, Option, none, some, Text, arith,
  append_assoc, append-nil, ap, if◌then◌else◌, nat_beq,
}
use dns_filter.Database.Loads.{
  scan_good, Rows, sort_entry, sort_entries, load_active_blocklist_entries,
}

-- the domains of the rows of one type, in order
abbrev pub of_type : ℕ → List (Text × ℕ) → List Text
of_type type [] = []
of_type type ((domain, list_type) ∷ rows) =
    if nat_beq list_type type then domain ∷ of_type type rows else of_type type rows

-- every row scans
abbrev pub AllScan : List (Text ⊎ Text × ℕ) → Type 0
AllScan [] = Unit
AllScan (inl e ∷ rows) = ⊥
AllScan (inr r ∷ rows) = AllScan rows

sort_entry-of_type :
    (d : Text) (k : ℕ) (es : List (Text × ℕ)) (bs ws : List Text)
    → let (bs', ws') = sort_entry (d, k) (bs, ws) in
      (bs' ++ of_type 0 es ≡ bs ++ of_type 0 ((d, k) ∷ es))
      × (ws' ++ of_type 1 es ≡ ws ++ of_type 1 ((d, k) ∷ es))
sort_entry-of_type d k es bs ws =
    ground (arith, append_assoc bs (d ∷ []) (of_type 0 es), append_assoc ws (d ∷ []) (of_type 1 es))

sort_entries_iff :
    (rows : List (Text ⊎ Text × ℕ)) (err : Option Text) (bs ws : List Text)
    (r : List Text × List Text)
    → (sort_entries rows err (bs, ws) ≡ inr r) ↔ (
        AllScan rows
        × (err ≡ none)
        × ((bs ++ of_type 0 (scan_good rows), ws ++ of_type 1 (scan_good rows)) ≡ r))
unfolding sort_entries scan_good
sort_entries_iff [] none bs ws r =
    rw (append-nil bs, append-nil ws) (λ h. (tt, refl, cc), λ k. ap inr k.2)
sort_entries_iff [] (some e) bs ws r = (λ h. cc, λ k. cc)
sort_entries_iff (inl e ∷ rows) err bs ws r = (λ h. cc, λ k. absurd k.0)
sort_entries_iff (inr (d, k) ∷ rows) err bs ws r =
    let e = sort_entry-of_type d k (scan_good rows) bs ws in
    let (bs', ws') = sort_entry (d, k) (bs, ws) in
    rw (← e.0, ← e.1) (sort_entries_iff rows err bs' ws' r)

-- LoadActiveBlocklistEntries succeeds exactly where its query does, every row scans and the rows end
-- without an error; its result is then the domains of the rows of type 0 and those of type 1, in
-- their order.
pub load_active_blocklist_entries_iff :
    (answer : Text ⊎ Rows (Text × ℕ)) (r : List Text × List Text)
    → (load_active_blocklist_entries answer ≡ inr r) ↔ (
        (rows : Rows (Text × ℕ)) × (answer ≡ inr rows)
        × AllScan rows.scanned
        × (rows.err ≡ none)
        × ((of_type 0 (scan_good rows.scanned), of_type 1 (scan_good rows.scanned)) ≡ r))
unfolding load_active_blocklist_entries
load_active_blocklist_entries_iff (inl e) r = (λ h. cc, λ k. cc)
load_active_blocklist_entries_iff (inr rows) r =
    let sorted = sort_entries_iff rows.scanned rows.err [] [] r in
    (
      λ h. let (scan, ended, lists) = sorted.0 h in (rows, refl, scan, ended, lists),
      λ (others, same, scan, ended, lists).
          let e : rows ≡ others = cc in sorted.1 (rw e (scan, ended, lists)),
    )
