-- ===== src/Cache/Ttl.antt =====
-- How long an answer is kept (internal/cache/cache.go): extractTTL.
use dns_filter.Prelude.{
  ℕ, ◌*◌, ◌≤◌, ◌<◌, ◌≡◌, refl, ◌⊎◌, inl, inr, List, [], ◌∷◌, arith, All, In, ltb, Bool-cases,
  if◌then◌else◌,
}
use dns_filter.Message.{Msg, Rr, header}
use dns_filter.Cache.{Cache, extract_ttl, min_ttl, second}

min_ttl-le : (n : ℕ) (rrs : List Rr) → min_ttl n rrs ≤ n
unfolding min_ttl
min_ttl-le n [] = omega arith
min_ttl-le n (rr ∷ rrs) = ground (arith, min_ttl-le n rrs, min_ttl-le (header rr).ttl rrs)

min_ttl-lower : (n : ℕ) (rrs : List Rr) → All (λ rr. min_ttl n rrs ≤ (header rr).ttl) rrs
unfolding min_ttl
min_ttl-lower n [] = tt
min_ttl-lower n (rr ∷ rrs) =
    let least = if ltb (header rr).ttl n then (header rr).ttl else n in
    (ground (arith, min_ttl-le least rrs), min_ttl-lower least rrs)

abbrev pub IsLeast : ℕ → List Rr → ℕ → Type 0
IsLeast n rrs least =
    (least ≤ n)
    × All (λ rr. least ≤ (header rr).ttl) rrs
    × ((least ≡ n) ⊎ ((rr : Rr) × In rr rrs × (least ≡ (header rr).ttl)))

min_ttl-attained :
    (n : ℕ) (rrs : List Rr)
    → (min_ttl n rrs ≡ n) ⊎ ((rr : Rr) × In rr rrs × (min_ttl n rrs ≡ (header rr).ttl))
unfolding min_ttl
min_ttl-attained n [] = inl refl
min_ttl-attained n (rr ∷ rrs) = elim (Bool-cases (ltb (header rr).ttl n)) [
  | inl less ↦ rw less (of_first (min_ttl-attained (header rr).ttl rrs))
  | inr more ↦ rw more (later (min_ttl-attained n rrs))
]
  where
    of_first :
        {m : ℕ}
        → (m ≡ (header rr).ttl) ⊎ ((x : Rr) × In x rrs × (m ≡ (header x).ttl))
        → (m ≡ n) ⊎ ((x : Rr) × In x (rr ∷ rrs) × (m ≡ (header x).ttl))
    of_first (inl e) = inr (rr, inl refl, e)
    of_first (inr (x, i, e)) = inr (x, inr i, e)

    later :
        {m : ℕ}
        → (m ≡ n) ⊎ ((x : Rr) × In x rrs × (m ≡ (header x).ttl))
        → (m ≡ n) ⊎ ((x : Rr) × In x (rr ∷ rrs) × (m ≡ (header x).ttl))
    later (inl e) = inl e
    later (inr (x, i, e)) = inr (x, inr i, e)

-- Where the configured bounds are in order, the time to live of an answer lies between them, and
-- is the least of an hour and of the times of its records, clamped to them: with a ceiling above an
-- hour, and records that are all longer, it is still an hour at most, or the floor if that is more.
pub extract_ttl_bounds :
    (c : Cache) (msg : Msg)
    → c.ttl_floor ≤ c.ttl_ceil
    → (c.ttl_floor ≤ extract_ttl c msg)
      × (extract_ttl c msg ≤ c.ttl_ceil)
      × ((extract_ttl c msg ≤ 3600 * second) ⊎ (extract_ttl c msg ≡ c.ttl_floor))
      × ((least : ℕ) × IsLeast 3600 msg.answer least
          × ((extract_ttl c msg ≡ least * second)
              ⊎ ((least * second < c.ttl_floor) × (extract_ttl c msg ≡ c.ttl_floor))
              ⊎ ((c.ttl_ceil < least * second) × (extract_ttl c msg ≡ c.ttl_ceil))))
unfolding extract_ttl
extract_ttl_bounds c msg h = (
  ground arith,
  ground arith,
  ground (arith, min_ttl-le 3600 msg.answer),
  (
    min_ttl 3600 msg.answer,
    (min_ttl-le 3600 msg.answer, min_ttl-lower 3600 msg.answer, min_ttl-attained 3600 msg.answer),
    ground arith,
  ),
)
