-- ===== src/Startup/SortedRows.antt =====
-- The first range that holds an address, among rows sorted as in cmd/dnsfilter/main.go.
use dns_filter.Prelude.{
  ◌≤◌, ◌≡◌, ◌⊎◌, refl, inl, inr, ap, ◌∙◌, Bool, true, false, List, [], ◌∷◌, ◌++◌, append-nil,
  append_assoc, Option, none, some, Text, In, Bool-cases, arith, if◌then◌else◌,
}
use dns_filter.Identity.{Ip, ip_eq, IpNet, IpRange, Resolver, in_net, find_range, add_range}
use dns_filter.Api.Handlers.{auth_mode_of}
use dns_filter.Startup.{DbRange, IsSorted, IsBelow, more_specific, add_parsed, add_ranges}

module _ (parse_cidr : Text → Option IpNet) where
  abbrev pub AllParse : List DbRange → Type 0
  AllParse rows = (r : DbRange) → In r rows → (net : IpNet) × (parse_cidr r.cidr ≡ some net)

  abbrev pub range_of : IpNet → DbRange → IpRange
  range_of net r = record {
    network = net;
    group_id = r.group_id;
    auth_mode = auth_mode_of r.auth_mode;
  }

  abbrev parsed_range : Option IpNet → DbRange → List IpRange
  parsed_range none r = []
  parsed_range (some net) r = range_of net r ∷ []

  pub ranges_of : List DbRange → List IpRange
  ranges_of [] = []
  ranges_of (r ∷ rs) = parsed_range (parse_cidr r.cidr) r ++ ranges_of rs

  add_parsed_lem :
      (o : Option IpNet) (r : DbRange) (res : Resolver)
      → add_parsed parse_cidr o r res ≡ record res { ranges = res.ranges ++ parsed_range o r }
  unfolding add_range
  add_parsed_lem none r res = rw (append-nil res.ranges)
  add_parsed_lem (some net) r res = refl

  pub add_ranges_lem :
      (rs : List DbRange) (res : Resolver)
      → add_ranges parse_cidr rs res ≡ record res { ranges = res.ranges ++ ranges_of rs }
  unfolding add_ranges ranges_of
  add_ranges_lem [] res = rw (append-nil res.ranges)
  add_ranges_lem (r ∷ rs) res =
      ap (add_ranges parse_cidr rs) (add_parsed_lem (parse_cidr r.cidr) r res)
      ∙ add_ranges_lem rs (record res { ranges = res.ranges ++ parsed_range (parse_cidr r.cidr) r })
      ∙ ap (λ l. record res { ranges = l })
          (append_assoc res.ranges (parsed_range (parse_cidr r.cidr) r) (ranges_of rs))

  -- a row whose network holds the address
  abbrev pub Holds : List DbRange → Ip → DbRange → IpNet → Type 0
  Holds rows ip r net = In r rows × (parse_cidr r.cidr ≡ some net) × (in_net net ip ≡ true)

  -- no row does
  abbrev pub NoneHolds : List DbRange → Ip → Type 0
  NoneHolds rows ip = (r : DbRange) (net : IpNet) → Holds rows ip r net → ⊥

  -- one does, and no other that does has a longer prefix
  abbrev pub IsLongest : List DbRange → Ip → DbRange → IpNet → Type 0
  IsLongest rows ip r net =
      Holds rows ip r net
      × ((r' : DbRange) (net' : IpNet) → Holds rows ip r' net' → net'.prefix ≤ net.prefix)

  abbrev pub Found : List DbRange → Ip → Type 0
  Found rows ip =
      ((find_range (ranges_of rows) ip ≡ none) × NoneHolds rows ip)
      ⊎ ((r : DbRange) × (net : IpNet) × (find_range (ranges_of rows) ip ≡ some (range_of net r))
          × IsLongest rows ip r net)

  same_net :
      (a r : DbRange) (m n : IpNet)
      → r ≡ a
      → parse_cidr a.cidr ≡ some m
      → parse_cidr r.cidr ≡ some n
      → n ≡ m
  same_net a r m n same e f = cc (ap (λ x. parse_cidr x.cidr) same, e, f)

  find_range-cons :
      (a : DbRange) (rs : List DbRange) (ip : Ip) (net : IpNet)
      → parse_cidr a.cidr ≡ some net
      → find_range (ranges_of (a ∷ rs)) ip
        ≡ (if in_net net ip then some (range_of net a) else find_range (ranges_of rs) ip)
  unfolding ranges_of find_range
  find_range-cons a rs ip net parsed = rw parsed

  below-prefix :
      (a b : DbRange) (m n : IpNet)
      → parse_cidr a.cidr ≡ some m
      → parse_cidr b.cidr ≡ some n
      → more_specific parse_cidr b a ≡ false
      → n.prefix ≤ m.prefix
  unfolding more_specific
  below-prefix a b m n pa pb h = ground (arith, rw (pb, pa) at h)

  IsBelow-In :
      {A : Type 0} (less : A → A → Bool) (a b : A) (xs : List A)
      → IsBelow less a xs
      → In b xs
      → less b a ≡ false
  IsBelow-In less a b [] h m = absurd m
  IsBelow-In less a b (x ∷ xs) (e, h) (inl same) = ap (λ y. less y a) same ∙ e
  IsBelow-In less a b (x ∷ xs) (e, h) (inr m) = IsBelow-In less a b xs h m

  Found-first :
      (a : DbRange) (rs : List DbRange) (ip : Ip) (net : IpNet)
      → parse_cidr a.cidr ≡ some net
      → in_net net ip ≡ true
      → IsBelow (more_specific parse_cidr) a rs
      → Found (a ∷ rs) ip
  Found-first a rs ip net parsed inside below = inr (
    a,
    net,
    rw (find_range-cons a rs ip net parsed, inside),
    (
      (inl refl, parsed, inside),
      λ r net' (m, e, _). elim m [
        | inl same ↦ omega (arith, ap (λ n. n.prefix) (same_net a r net net' same parsed e))
        | inr later ↦
            below-prefix a r net net' parsed e
              (IsBelow-In (more_specific parse_cidr) a r rs below later)
      ],
    ),
  )

  Found-later :
      (a : DbRange) (rs : List DbRange) (ip : Ip) (net : IpNet)
      → parse_cidr a.cidr ≡ some net
      → in_net net ip ≡ false
      → Found rs ip
      → Found (a ∷ rs) ip
  Found-later a rs ip net parsed outside f = elim f [
    | inl (missed, nobody) ↦ inl (
      rw (find_range-cons a rs ip net parsed, outside) missed,
      λ r net' h. nobody r net' (holds_later r net' h),
    )
    | inr (r, n, hit, ((m, e, inside), longest)) ↦ inr (
      r,
      n,
      rw (find_range-cons a rs ip net parsed, outside) hit,
      ((inr m, e, inside), λ r' net' h. longest r' net' (holds_later r' net' h)),
    )
  ]
    where
      holds_later : (r : DbRange) (net' : IpNet) → Holds (a ∷ rs) ip r net' → Holds rs ip r net'
      holds_later r net' (inl same, e, inside) = absurd (
          ground
            (arith, outside, ap (λ n. in_net n ip) (same_net a r net net' same parsed e), inside))
      holds_later r net' (inr m, e, inside) = (m, e, inside)

  pub sorted-Found :
      (rows : List DbRange) (ip : Ip)
      → IsSorted (more_specific parse_cidr) rows
      → AllParse rows
      → Found rows ip
  unfolding ranges_of find_range
  sorted-Found [] ip s p = inl (refl, λ r net h. h.0)
  sorted-Found (a ∷ rs) ip (below, s) p =
      let (net, parsed) = p a (inl refl) in
      elim (Bool-cases (in_net net ip)) [
        | inl inside ↦ Found-first a rs ip net parsed inside below
        | inr outside ↦
            Found-later a rs ip net parsed outside (sorted-Found rs ip s (λ r m. p r (inr m)))
      ]
