-- ===== src/Filter/Blacklist/Matching.antt =====
-- Which domains a list blocks (internal/filter/blacklist.go): Contains against label suffixes.
use dns_filter.Prelude.{
  ℕ, ◌≡◌, refl, sym, ap, ◌∙◌, ◌≢◌, ◌↔◌, ◌⊎◌, inl, inr, Bool, true, false, not, ◌&&◌, ◌||◌, List, [],
  ◌∷◌, ◌++◌, arith, Text, nat_beq, nat_beq_iff, is_empty, ends_with, split, split-ne-nil, join,
  join-split, if◌then◌else◌, Bool-cases, cons_head, lookup-insert, lookup-delete, text_eq,
  text_beq_iff, ◌==◌,
}
use dns_filter.Filter.Domain.{normalize}
use dns_filter.Filter.Domain.Normal.{ends_with-normalize}
use dns_filter.Filter.Blacklist.{
  Blacklist, add, remove, listed, parent_listed, tail_parts, contains,
}

-- `p` is what follows one of the dots of `n`: a parent domain of the name `n`.
abbrev pub IsParent : Text → Text → Type 0
IsParent p n = (a : Text) × (n ≡ a ++ (b'.' ∷ p)) × (p ≢ [])

-- `p` is the name or a parent of it.
abbrev pub Covers : Text → Text → Type 0
Covers p n = (p ≡ n) ⊎ IsParent p n

-- The search of Contains, by the characters of the name.
suffix_listed : Blacklist → Text → Bool
suffix_listed b [] = false
suffix_listed b (c ∷ s) = (nat_beq c b'.' && (not (is_empty s) && listed b s)) || suffix_listed b s

tail_parts-cons_head :
    (c : ℕ) (ps : List Text) → ps ≢ [] → tail_parts (cons_head c ps) ≡ tail_parts ps
tail_parts-cons_head c [] h = absurd (h refl)
tail_parts-cons_head c (p ∷ ps) h = refl

IsQualified : Text → Type 0
IsQualified n = (n ≡ []) ⊎ (ends_with b'.' n ≡ true)

IsQualified-tail : (c : ℕ) (s : Text) → IsQualified (c ∷ s) → IsQualified s
unfolding IsQualified ends_with
IsQualified-tail c [] h = inl refl
IsQualified-tail c (d ∷ s) h = ground arith

-- A name that ends in a dot has two parts at least.
abbrev TwoParts : Text → Type 0
TwoParts s = (p q : Text) × (r : List Text) × (split b'.' s ≡ p ∷ q ∷ r)

split_first : (c : ℕ) (s : Text) → nat_beq c b'.' ≡ true → TwoParts (c ∷ s)
unfolding split
split_first c s e = of_parts (split b'.' s) (split-ne-nil b'.' s)
  where
    of_parts :
        (ps : List Text)
        → ps ≢ []
        → (p q : Text) × (r : List Text) × ((if nat_beq c b'.' then [] ∷ ps else cons_head c ps)
            ≡ p ∷ q ∷ r)
    of_parts [] h = absurd (h refl)
    of_parts (p ∷ ps) h = ([], p, ps, rw e)

split_two : (s : Text) → IsQualified s → (s ≡ []) ⊎ TwoParts s
unfolding IsQualified ends_with split
split_two [] h = inl refl
split_two (c ∷ []) h = inr (split_first c [] (ground arith))
split_two (c ∷ d ∷ s) h = elim (Bool-cases (nat_beq c b'.')) [
  | inl e ↦ inr (split_first c (d ∷ s) e)
  | inr e ↦ elim (split_two (d ∷ s) (ground arith)) [
    | inl none' ↦ cc
    | inr (p, q, r, eq) ↦ inr (c ∷ p, q, r, rw e (ap (cons_head c) eq))
  ]
]

split_nil : split b'.' [] ≡ [] ∷ []
unfolding split
split_nil = refl

-- After a dot, the rounds of the loop begin at the whole rest.
parent_listed-split :
    (b : Blacklist) (s : Text)
    → IsQualified s
    → parent_listed b (split b'.' s)
      ≡ ((not (is_empty s) && listed b s) || parent_listed b (tail_parts (split b'.' s)))
unfolding parent_listed
parent_listed-split b [] h = rw split_nil refl
parent_listed-split b (c ∷ s) h = elim (split_two (c ∷ s) h) [
  | inl e ↦ cc
  | inr (p, q, r, e) ↦ of_parts p q r e
]
  where
    of_parts :
        (p q : Text) (r : List Text)
        → split b'.' (c ∷ s) ≡ p ∷ q ∷ r
        → parent_listed b (split b'.' (c ∷ s))
          ≡ (listed b (c ∷ s) || parent_listed b (tail_parts (split b'.' (c ∷ s))))
    of_parts p q r e =
        let whole : join b'.' (p ∷ q ∷ r) ≡ c ∷ s = rw (← e) (join-split b'.' (c ∷ s)) in
        rw e (ap (λ t. listed b t || parent_listed b (q ∷ r)) whole)

parent_listed-suffix_listed :
    (b : Blacklist) (n : Text)
    → IsQualified n
    → parent_listed b (tail_parts (split b'.' n)) ≡ suffix_listed b n
unfolding parent_listed suffix_listed split
parent_listed-suffix_listed b [] q = refl
parent_listed-suffix_listed b (c ∷ s) q =
    let q' = IsQualified-tail c s q in
    let ih = parent_listed-suffix_listed b s q' in
    elim (Bool-cases (nat_beq c b'.')) [
      | inl is_dot ↦ rw is_dot (parent_listed-split b s q' ∙ rw ih)
      | inr other ↦ rw (other, tail_parts-cons_head c (split b'.' s) (split-ne-nil b'.' s)) ih
    ]

IsParent-cons : {p : Text} (c : ℕ) {n : Text} → IsParent p n → IsParent p (c ∷ n)
IsParent-cons c (a, e, ne) = (c ∷ a, ap (◌∷◌ c) e, ne)

IsParent-uncons :
    (p : Text) (c : ℕ) (n : Text)
    → IsParent p (c ∷ n)
    → ((c ≡ b'.') × (n ≡ p) × (p ≢ [])) ⊎ IsParent p n
IsParent-uncons p c n ([], e, ne) = inl (cc, cc, ne)
IsParent-uncons p c n (d ∷ a, e, ne) = inr (a, cc, ne)

abbrev HasParent : Blacklist → Text → Type 0
HasParent b n = (p : Text) × (listed b p ≡ true) × IsParent p n

suffix_listed_sound : (b : Blacklist) (n : Text) → suffix_listed b n ≡ true → HasParent b n
unfolding suffix_listed
suffix_listed_sound b [] h = cc
suffix_listed_sound b (c ∷ s) h = elim (Bool-cases (suffix_listed b s)) [
  | inl later ↦ let (p, on, par) = suffix_listed_sound b s later in (p, on, IsParent-cons c par)
  | inr here ↦
      (s, ground arith, ([], ap (λ x. x ∷ s) ((nat_beq_iff c b'.').0 (ground arith)), ground arith))
]

is_empty-false : (s : Text) → s ≢ [] → is_empty s ≡ false
is_empty-false [] h = absurd (h refl)
is_empty-false (c ∷ s) h = refl

suffix_listed_complete : (b : Blacklist) (n : Text) → HasParent b n → suffix_listed b n ≡ true
unfolding suffix_listed
suffix_listed_complete b [] (p, on, ([], e, ne)) = cc
suffix_listed_complete b [] (p, on, (d ∷ a, e, ne)) = cc
suffix_listed_complete b (c ∷ s) (p, on, par) = elim (IsParent-uncons p c s par) [
  | inl (is_dot, same, ne) ↦
      let full = is_empty-false s (λ e. ne (sym same ∙ e)) in
      ground (arith, full, nat_beq_iff c b'.', same)
  | inr later ↦ ground (arith, suffix_listed_complete b s (p, on, later))
]

contains-suffix_listed :
    (b : Blacklist) (d : Text)
    → contains b d ≡ (listed b (normalize d) || suffix_listed b (normalize d))
unfolding contains IsQualified
contains-suffix_listed b d =
    rw (parent_listed-suffix_listed b (normalize d) (inr (ends_with-normalize d)))

-- A domain is blocked exactly when a listed name covers it: the normal form of the domain itself,
-- or what follows one of its dots.
pub contains_iff :
    (b : Blacklist) (d : Text)
    → (contains b d ≡ true) ↔ ((p : Text) × (listed b p ≡ true) × Covers p (normalize d))
contains_iff b d = (to, from)
  where
    to : contains b d ≡ true → (p : Text) × (listed b p ≡ true) × Covers p (normalize d)
    to h = elim (Bool-cases (suffix_listed b (normalize d))) [
      | inl yes' ↦ let (p, on, par) = suffix_listed_sound b (normalize d) yes' in (p, on, inr par)
      | inr no' ↦ (normalize d, ground (arith, contains-suffix_listed b d), inl refl)
    ]

    from : (p : Text) × (listed b p ≡ true) × Covers p (normalize d) → contains b d ≡ true
    from (p, on, inl same) = ground (arith, contains-suffix_listed b d)
    from (p, on, inr par) =
        ground
          (arith, contains-suffix_listed b d, suffix_listed_complete b (normalize d) (p, on, par))

listed-add :
    (x p : Text) (b : Blacklist)
    → listed (add x b) p ≡ (if normalize x == p then true else listed b p)
unfolding listed add
listed-add x p b = ground (arith, lookup-insert (normalize x) p true b.domains)

listed-remove :
    (x p : Text) (b : Blacklist)
    → listed (remove x b) p ≡ (if normalize x == p then false else listed b p)
unfolding listed remove
listed-remove x p b = ground (arith, lookup-delete (normalize x) p b.domains)

-- To add a domain blocks what it covers, in any case and with or without the last dot, and
-- nothing else that was not blocked before.
pub contains-add :
    (x d : Text) (b : Blacklist)
    → (contains (add x b) d ≡ true) ↔ ((contains b d ≡ true) ⊎ Covers (normalize x) (normalize d))
contains-add x d b = (to, from)
  where
    to : contains (add x b) d ≡ true → (contains b d ≡ true) ⊎ Covers (normalize x) (normalize d)
    to h =
        let (p, on, cov) = (contains_iff (add x b) d).0 h in
        elim (Bool-cases (normalize x == p)) [
          | inl same ↦ inr (rw ((text_beq_iff (normalize x) p).0 same) cov)
          | inr other ↦ inl ((contains_iff b d).1 (p, ground (arith, listed-add x p b), cov))
        ]

    from : (contains b d ≡ true) ⊎ Covers (normalize x) (normalize d) → contains (add x b) d ≡ true
    from (inl h) =
        let (p, on, cov) = (contains_iff b d).0 h in
        (contains_iff (add x b) d).1 (p, ground (arith, listed-add x p b), cov)
    from (inr cov) = (contains_iff (add x b) d).1 (
      normalize x,
      ground (arith, listed-add x (normalize x) b, text_beq_iff (normalize x) (normalize x)),
      cov,
    )

-- After a removal a domain is blocked exactly when another listed name covers it.
pub contains-remove :
    (x d : Text) (b : Blacklist)
    → (contains (remove x b) d ≡ true)
      ↔ ((p : Text) × (listed b p ≡ true) × (p ≢ normalize x) × Covers p (normalize d))
contains-remove x d b = (to, from)
  where
    to :
        contains (remove x b) d ≡ true
        → (p : Text) × (listed b p ≡ true) × (p ≢ normalize x) × Covers p (normalize d)
    to h =
        let (p, on, cov) = (contains_iff (remove x b) d).0 h in
        (
          p,
          ground (arith, listed-remove x p b),
          ground (arith, listed-remove x p b, text_beq_iff (normalize x) p),
          cov,
        )

    from :
        (p : Text) × (listed b p ≡ true) × (p ≢ normalize x) × Covers p (normalize d)
        → contains (remove x b) d ≡ true
    from (p, on, ne, cov) =
        (contains_iff (remove x b) d).1
          (p, ground (arith, listed-remove x p b, text_beq_iff (normalize x) p), cov)
