-- ===== src/Cache/Reads.antt =====
-- What Cache.Get returns after Set and after the evictor (internal/cache/cache.go).
use dns_filter.Prelude.{
  ap, ◌∙◌, ℕ, ◌+◌, ◌%◌, ◌≤◌, ◌<◌, ◌≡◌, refl, ◌≢◌, ◌⊎◌, inl, inr, true, not, List, Option, none,
  some, arith, Text, text_eq, text_beq_iff, to_lower, to_lower_idem, lookup, lookup-insert,
  lookup-keep, insert-Distinct, keep-Distinct, Distinct, Option-cases, Bool-cases, ltb, ltb→lt, ◌∙◌,
  if◌then◌else◌,
}
use dns_filter.Message.{Msg, DnsLib}
use dns_filter.Cache.{
  Cache, Entry, u64_mod, extract_ttl, has_answer, key, set, get, get_l2, l2_get, evict, has_expired,
  invalidate, is_invalid, count_hit, count_miss,
}

-- No key stands twice.
abbrev pub IsValid : Cache → Type 0
IsValid c = Distinct c.entries

abbrev pub Answers : Type 0
Answers = Text → Option (List ℕ)

module _ (lib : DnsLib) (stored : Answers) (c : Cache) (name : Text) (qtype now : ℕ) where
  -- the three ends of a read
  abbrev ByL1 : Type 0
  ByL1 =
      (e : Entry) × (lookup (key lib name qtype) c.entries ≡ some e)
      × (now < e.expires_at)
      × (get lib stored now name qtype c ≡ (count_hit c, some e.msg))

  abbrev ByL2 : Type 0
  ByL2 =
      (m : Msg) × (l2_get lib stored name qtype c.l2 ≡ some m)
      × (get lib stored now name qtype c ≡ (count_hit (set lib now name qtype m c), some m))

  abbrev Missed : Type 0
  Missed = get lib stored now name qtype c ≡ (count_miss c, none)

  of_l2 : get lib stored now name qtype c ≡ get_l2 lib stored now name qtype c → ByL2 ⊎ Missed
  unfolding get_l2
  of_l2 h = elim (Option-cases (l2_get lib stored name qtype c.l2)) [
    | inl e ↦ inr (h ∙ rw (e, get_l2))
    | inr (m, e) ↦ inl (m, e, h ∙ rw (e, get_l2))
  ]

  get_cases : ByL1 ⊎ ByL2 ⊎ Missed
  unfolding get
  get_cases = elim (Option-cases (lookup (key lib name qtype) c.entries)) [
    | inl e ↦ inr (of_l2 (rw (e, get)))
    | inr (x, e) ↦ elim (Bool-cases (ltb now x.expires_at)) [
      | inl on ↦ inl (x, e, ltb→lt now x.expires_at on, rw (e, get) (rw on))
      | inr off ↦ inr (of_l2 (rw (e, get) (rw off)))
    ]
  ]

set_counters :
    (lib : DnsLib) (now : ℕ) (name : Text) (qtype : ℕ) (m : Msg) (c : Cache)
    → ((set lib now name qtype m c).hits ≡ c.hits)
      × ((set lib now name qtype m c).misses ≡ c.misses)
unfolding set
set_counters lib now name qtype m c = ground arith

key-to_lower :
    (lib : DnsLib) (name : Text) (qtype : ℕ) → key lib (to_lower name) qtype ≡ key lib name qtype
unfolding key
key-to_lower lib name qtype = rw (to_lower_idem name)

set-IsValid :
    (lib : DnsLib) (now : ℕ) (name : Text) (qtype : ℕ) (m : Msg) (c : Cache)
    → IsValid c
    → IsValid (set lib now name qtype m c)
unfolding set
set-IsValid lib now name qtype m c d = ground (
  arith,
  insert-Distinct (key lib name qtype) (record { msg = m; expires_at = now + extract_ttl c m })
      c.entries d,
)

module _ (lib : DnsLib) where
  pub get-set_lem :
      (stored : Answers) (c : Cache) (name asked : Text) (qtype asked_type : ℕ) (msg : Msg)
      (set_at now : ℕ)
      → has_answer msg ≡ true
      → key lib asked asked_type ≡ key lib name qtype
      → let c' = set lib set_at name qtype msg c in
        (now < set_at + extract_ttl c msg
          → get lib stored now asked asked_type c' ≡ (count_hit c', some msg))
        × (c.l2 ≡ none
            → set_at + extract_ttl c msg ≤ now
            → (get lib stored now asked asked_type c').1 ≡ none)
  unfolding get set
  get-set_lem stored c name asked qtype asked_type msg set_at now full same =
      let k = key lib name qtype in
      let at_key =
        lookup-insert k k (record { msg = msg; expires_at = set_at + extract_ttl c msg })
          c.entries in
      (
        λ h. ground (arith, full, same, at_key, text_beq_iff k k),
        λ no_l2 h. ground (arith, full, same, at_key, no_l2, text_beq_iff k k),
      )

  -- With no second level, an answer that was stored is returned for every name and type with its
  -- key until its time to live is over, and from then on it is a miss.
  pub get-set :
      (stored : Answers) (c : Cache) (name asked : Text) (qtype asked_type : ℕ) (msg : Msg)
      (set_at now : ℕ)
      → has_answer msg ≡ true
      → key lib asked asked_type ≡ key lib name qtype
      → c.l2 ≡ none
      → (get lib stored now asked asked_type (set lib set_at name qtype msg c)).1
        ≡ (if ltb now (set_at + extract_ttl c msg) then some msg else none)
  get-set stored c name asked qtype asked_type msg set_at now full same no_l2 =
      let (fresh, over) =
        get-set_lem stored c name asked qtype asked_type msg set_at now full same in
      elim (Bool-cases (ltb now (set_at + extract_ttl c msg))) [
        | inl e ↦ ap (λ x. x.1) (fresh (ground (arith, e))) ∙ ground (arith, e)
        | inr e ↦ over no_l2 (ground (arith, e)) ∙ ground (arith, e)
      ]

  -- Storing an answer changes no read of another key.
  pub get-set_ne :
      (stored : Answers) (c : Cache) (name other : Text) (qtype other_type : ℕ) (msg : Msg)
      (set_at now : ℕ)
      → c.l2 ≡ none
      → key lib name qtype ≢ key lib other other_type
      → (get lib stored now other other_type (set lib set_at name qtype msg c)).1
        ≡ (get lib stored now other other_type c).1
  unfolding get set
  get-set_ne stored c name other qtype other_type msg set_at now no_l2 ne =
      let at_key =
        lookup-insert (key lib name qtype) (key lib other other_type)
          (record { msg = msg; expires_at = set_at + extract_ttl c msg }) c.entries in
      ground
        (arith, at_key, no_l2, text_beq_iff (key lib name qtype) (key lib other other_type), ne)

  -- Every read counts once: a hit where it returns an answer, and a miss where it does not.
  pub get-counts :
      (stored : Answers) (c : Cache) (name : Text) (qtype now : ℕ)
      → let (c', found) = get lib stored now name qtype c in
        (((m : Msg) × (found ≡ some m))
          × (c'.hits ≡ (c.hits + 1) % u64_mod)
          × (c'.misses ≡ c.misses))
        ⊎ ((found ≡ none) × (c'.hits ≡ c.hits) × (c'.misses ≡ (c.misses + 1) % u64_mod))
  get-counts stored c name qtype now = elim (get_cases lib stored c name qtype now) [
    | inl (e, found, fresh, r) ↦ rw r (inl ((e.msg, refl), refl, refl))
    | inr (inl (m, found, r)) ↦
        let (hits, misses) = set_counters lib now name qtype m c in
        rw r (inl ((m, refl), rw hits, misses))
    | inr (inr r) ↦ rw r (inr (refl, refl, refl))
  ]

  -- An answer comes from an entry that has not run out, or from the second level.
  pub get-IsFresh :
      (stored : Answers) (c : Cache) (name : Text) (qtype now : ℕ) (m : Msg)
      → (get lib stored now name qtype c).1 ≡ some m
      → ((e : Entry) × (lookup (key lib name qtype) c.entries ≡ some e)
          × (now < e.expires_at)
          × (e.msg ≡ m))
        ⊎ (l2_get lib stored name qtype c.l2 ≡ some m)
  get-IsFresh stored c name qtype now m h = elim (get_cases lib stored c name qtype now) [
    | inl (e, found, fresh, r) ↦ inl (e, found, fresh, ground (arith, r, h))
    | inr (inl (m', found, r)) ↦ inr (ground (arith, r, h, found))
    | inr (inr r) ↦ ground (arith, r, h)
  ]

  -- The case of a name does not count.
  pub get-to_lower :
      (stored : Answers) (c : Cache) (name : Text) (qtype now : ℕ)
      → c.l2 ≡ none
      → get lib stored now (to_lower name) qtype c ≡ get lib stored now name qtype c
  unfolding get
  get-to_lower stored c name qtype now no_l2 = ground (arith, key-to_lower lib name qtype, no_l2)

  -- On a cache with no key twice the evictor is never seen: from its time on, every read returns
  -- what it would have without.
  pub get-evict :
      (stored : Answers) (c : Cache) (name : Text) (qtype now later : ℕ)
      → IsValid c
      → now ≤ later
      → (get lib stored later name qtype (evict now c)).1 ≡ (get lib stored later name qtype c).1
  unfolding get evict
  get-evict stored c name qtype now later d h =
      ground (arith, lookup-keep (λ e. not (has_expired now e)) (key lib name qtype) c.entries d)

  -- Storing, reading, invalidating and evicting each leave a cache with no key twice if they find
  -- one.
  pub operations-IsValid :
      (stored : Answers) (c : Cache) (name : Text) (qtype now : ℕ) (msg : Msg)
      → IsValid c
      → IsValid (set lib now name qtype msg c)
        × IsValid (get lib stored now name qtype c).0
        × IsValid (invalidate lib name c).0
        × IsValid (evict now c)
  unfolding invalidate evict
  operations-IsValid stored c name qtype now msg d = (
    set-IsValid lib now name qtype msg c d,
    get-IsValid (get_cases lib stored c name qtype now),
    keep-Distinct (λ e. not (is_invalid lib name e)) c.entries d,
    keep-Distinct (λ e. not (has_expired now e)) c.entries d,
  )
    where
      get-IsValid :
          ByL1 lib stored c name qtype now
            ⊎ ByL2 lib stored c name qtype now
            ⊎ Missed lib stored c name qtype now
          → IsValid (get lib stored now name qtype c).0
      get-IsValid (inl (e, found, fresh, r)) = rw r d
      get-IsValid (inr (inl (m, found, r))) = rw r (set-IsValid lib now name qtype m c d)
      get-IsValid (inr (inr r)) = rw r d
