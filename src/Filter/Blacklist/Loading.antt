-- ===== src/Filter/Blacklist/Loading.antt =====
-- Reading lists of domains (internal/filter/blacklist.go, internal/filter/downloader.go).
use dns_filter.Prelude.{
  ℕ, ◌+◌, ◌≡◌, refl, ◌↔◌, ◌⊎◌, inl, inr, Bool, true, List, [], ◌∷◌, none, some, arith, Text, length,
  In, Option-cases,
}
use dns_filter.Filter.Domain.{normalize}
use dns_filter.Filter.Blacklist.{
  Blacklist, add, contains, line_domain, load_lines, scanned, load_from_file,
}
use dns_filter.Filter.Blacklist.Matching.{Covers, contains-add}

-- the domains that the lines of a file name, in order
unfoldable pub file_domains : List Text → List Text
file_domains [] = []
file_domains (t ∷ ts) = elim (line_domain t) [
  | none ↦ file_domains ts
  | some d ↦ d ∷ file_domains ts
]

load_lines-count :
    (ts : List Text) (n : ℕ) (b : Blacklist) → (load_lines ts n b).1 ≡ n + length (file_domains ts)
unfolding load_lines file_domains
load_lines-count [] n b = omega arith
load_lines-count (t ∷ ts) n b = elim (Option-cases (line_domain t)) [
  | inl e ↦ rw (e, load_lines, file_domains) (load_lines-count ts n b)
  | inr (d, e) ↦ ground (arith, load_lines-count ts (n + 1) (add d b))
]

abbrev pub CoveredBy : List Text → Text → Type 0
CoveredBy ds d = (x : Text) × In x ds × Covers (normalize x) (normalize d)

pub CoveredBy-cons :
    {A : Type 0} (x d : Text) (ds : List Text) (b : Blacklist)
    → A ↔ ((contains (add x b) d ≡ true) ⊎ CoveredBy ds d)
    → A ↔ ((contains b d ≡ true) ⊎ CoveredBy (x ∷ ds) d)
CoveredBy-cons x d ds b h = (λ a. later (h.0 a), λ k. h.1 (earlier k))
  where
    first :
        (contains b d ≡ true) ⊎ Covers (normalize x) (normalize d)
        → (contains b d ≡ true) ⊎ CoveredBy (x ∷ ds) d
    first (inl e) = inl e
    first (inr c) = inr (x, inl refl, c)

    later :
        (contains (add x b) d ≡ true) ⊎ CoveredBy ds d
        → (contains b d ≡ true) ⊎ CoveredBy (x ∷ ds) d
    later (inl e) = first ((contains-add x d b).0 e)
    later (inr (y, m, c)) = inr (y, inr m, c)

    earlier :
        (contains b d ≡ true) ⊎ CoveredBy (x ∷ ds) d
        → (contains (add x b) d ≡ true) ⊎ CoveredBy ds d
    earlier (inl e) = inl ((contains-add x d b).1 (inl e))
    earlier (inr (y, inl same, c)) = inl ((contains-add x d b).1 (inr (rw same at c)))
    earlier (inr (y, inr m, c)) = inr (y, m, c)

load_lines_iff :
    (ts : List Text) (n : ℕ) (b : Blacklist) (d : Text)
    → (contains (load_lines ts n b).0 d ≡ true)
      ↔ ((contains b d ≡ true) ⊎ CoveredBy (file_domains ts) d)
unfolding load_lines file_domains
load_lines_iff [] n b d = (λ h. inl h, λ h. elim h [ inl e ↦ e | inr (x, m, c) ↦ absurd m ])
load_lines_iff (t ∷ ts) n b d = elim (Option-cases (line_domain t)) [
  | inl e ↦ rw (e, load_lines, file_domains) (load_lines_iff ts n b d)
  | inr (x, e) ↦
      rw (e, load_lines, file_domains)
        (CoveredBy-cons x d (file_domains ts) b (load_lines_iff ts (n + 1) (add x b) d))
]

-- A file that is opened adds to the list exactly the domains that its lines name, and the count is
-- their number; a later read error is reported and keeps what was read.
pub load_from_file_iff :
    (ts : List Text) (bad : Bool) (b : Blacklist) (d : Text)
    → let r = load_from_file (scanned ts bad) b in
      ((contains r.list d ≡ true) ↔ ((contains b d ≡ true) ⊎ CoveredBy (file_domains ts) d))
      × (r.count ≡ length (file_domains ts))
      × (r.failed ≡ bad)
unfolding load_from_file
load_from_file_iff ts bad b d =
    (load_lines_iff ts 0 b d, omega (arith, load_lines-count ts 0 b), refl)
