-- ===== src/Filter/Downloader/AsFile.antt =====
-- A download against a file of the same lines (internal/filter/downloader.go and blacklist.go).
use dns_filter.Prelude.{
  ℕ, ◌+◌, ◌≡◌, ◌≢◌, ◌↔◌, refl, ◌∙◌, Bool, List, [], ◌∷◌, Option, none, Text, arith, inl, inr,
  Option-cases,
}
use dns_filter.Filter.Blacklist.{Blacklist, add, line_domain, load_lines, load_from_file, scanned}
use dns_filter.Filter.Downloader.{
  answered, not_created, not_fetched, max_body, limited, fetched_domain, scan_domains,
  fetch_domains,
}
use dns_filter.Api.Handlers.{add_all}

-- the two loops find the same domain in a line
fetched_domain-line_domain : (text : Text) → fetched_domain text ≡ line_domain text
unfolding fetched_domain line_domain
fetched_domain-line_domain text = refl

add_all-scan_domains :
    (lines : List Text) (n : ℕ) (b : Blacklist)
    → add_all (scan_domains lines) b ≡ (load_lines lines n b).0
unfolding add_all scan_domains load_lines
add_all-scan_domains [] n b = refl
add_all-scan_domains (text ∷ lines) n b =
    let same = fetched_domain-line_domain text in
    elim (Option-cases (line_domain text)) [
      | inl e ↦ rw (same ∙ e, e, scan_domains, load_lines) (add_all-scan_domains lines n b)
      | inr (d, e) ↦
          rw (same ∙ e, e, scan_domains, load_lines, add_all)
            (add_all-scan_domains lines (n + 1) (add d b))
    ]

abbrev pub Refused : List Text × Option Text → Type 0
Refused (domains, err) = (domains ≡ []) × (err ≢ none)

-- The domains of a response with status 200, added to a list, give the list that LoadFromFile makes
-- of a file whose lines are those that the scanner gives of the body's first 50 MB, and there is an
-- error exactly where the scan has one. A response with another status, a request that cannot be
-- created and one that fails give an error and no domain.
pub fetch_domains-load_from_file :
    (scan : Text × Option Text → List Text × Option Text) (url body : Text) (broken : Option Text)
    (other : ℕ) (e : Text) (bad : Bool) (b : Blacklist)
    → other ≢ 200
    → let (lines, err) = scan (limited max_body body broken) in
      let (domains, failed) = fetch_domains scan url (answered 200 body broken) in
      (add_all domains b ≡ (load_from_file (scanned lines bad) b).list)
      × ((failed ≡ none) ↔ (err ≡ none))
      × Refused (fetch_domains scan url (answered other body broken))
      × Refused (fetch_domains scan url (not_created e))
      × Refused (fetch_domains scan url (not_fetched e))
unfolding fetch_domains load_from_file
fetch_domains-load_from_file scan url body broken other e bad b ne = (
  add_all-scan_domains (scan (limited max_body body broken)).0 0 b,
  ground arith,
  ground arith,
  ground arith,
  ground arith,
)
