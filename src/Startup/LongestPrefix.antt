-- ===== src/Startup/LongestPrefix.antt =====
-- The ranges that cmd/dnsfilter/main.go sorts make the resolver choose by the longest prefix.
use dns_filter.Prelude.{
  ℕ, ◌≡◌, ◌↔◌, ◌⊎◌, inl, inr, ap, ◌∙◌, List, Option, none, some, Text, lookup, Option-cases,
}
use dns_filter.Identity.{
  Ip, ip_eq, IpNet, IpRange, Identity, of_policy, new_resolver, find_range, resolve, resolve_range,
  auth_none,
}
use dns_filter.Api.Handlers.{auth_mode_of}
use dns_filter.Startup.SortedRows.{
  AllParse, ranges_of, add_ranges_lem, Holds, NoneHolds, IsLongest, sorted-Found,
}
use dns_filter.Startup.{DbRange, Sort, IsSort, IsByKey, more_specific, load_ranges}

module _ (parse_cidr : Text → Option IpNet) where
  prefix_of : Option IpNet → ℕ
  prefix_of none = 0
  prefix_of (some net) = net.prefix

  more_specific-IsByKey :
      (rows : List DbRange) → AllParse parse_cidr rows → IsByKey (more_specific parse_cidr) rows
  unfolding more_specific prefix_of
  more_specific-IsByKey rows p = (
    λ r. prefix_of (parse_cidr r.cidr),
    λ a b ma mb. let (m, ea) = p a ma in let (n, eb) = p b mb in rw (ea, eb),
  )

  Holds-sorted :
      (lib : Sort) (rows : List DbRange) (ip : Ip) (r : DbRange) (net : IpNet)
      → IsSort lib
      → Holds parse_cidr (lib.slice (more_specific parse_cidr) rows) ip r net
        ↔ Holds parse_cidr rows ip r net
  Holds-sorted lib rows ip r net law =
      let same = law.same_elements (more_specific parse_cidr) rows r in
      (λ (m, e, i). (same.0 m, e, i), λ (m, e, i). (same.1 m, e, i))

  load_ranges_lem :
      (lib : Sort) (rows : List DbRange) (group : ℕ)
      → load_ranges parse_cidr lib rows (new_resolver group) ≡ record (new_resolver group) {
        ranges = ranges_of parse_cidr (lib.slice (more_specific parse_cidr) rows);
      }
  unfolding load_ranges new_resolver
  load_ranges_lem lib rows group =
      add_ranges_lem parse_cidr (lib.slice (more_specific parse_cidr) rows) (new_resolver group)

  abbrev policy_of : ℕ → Option IpRange → Identity
  policy_of group none = of_policy group auth_none
  policy_of group (some r) = of_policy r.group_id r.auth_mode

  resolve-started :
      (ranges : List IpRange) (group now : ℕ) (ip : Ip)
      → resolve (record (new_resolver group) { ranges = ranges }) now ip
        ≡ policy_of group (find_range ranges ip)
  unfolding new_resolver resolve resolve_range lookup
  resolve-started ranges group now ip = elim (Option-cases (find_range ranges ip)) [
    | inl e ↦ rw (resolve_range, e)
    | inr (r, e) ↦ rw (resolve_range, e)
  ]

  resolve-load_ranges :
      (lib : Sort) (rows : List DbRange) (group now : ℕ) (ip : Ip)
      → resolve (load_ranges parse_cidr lib rows (new_resolver group)) now ip
        ≡ policy_of group
            (find_range (ranges_of parse_cidr (lib.slice (more_specific parse_cidr) rows)) ip)
  resolve-load_ranges lib rows group now ip =
      ap (λ r. resolve r now ip) (load_ranges_lem lib rows group)
      ∙ resolve-started (ranges_of parse_cidr (lib.slice (more_specific parse_cidr) rows)) group now
          ip

  -- With a sort that keeps its documented law, and where every CIDR of the database parses, the
  -- resolver that the program starts with puts a client into the default group if no range holds
  -- its address, and otherwise gives it the group and the mode of a range that holds it and has the
  -- longest prefix of all that do.
  pub load_ranges-resolve :
      (lib : Sort) (rows : List DbRange) (group now : ℕ) (ip : Ip)
      → IsSort lib
      → AllParse parse_cidr rows
      → let answer = resolve (load_ranges parse_cidr lib rows (new_resolver group)) now ip in
        (NoneHolds parse_cidr rows ip × (answer ≡ of_policy group auth_none))
        ⊎ ((r : DbRange) × (net : IpNet) × IsLongest parse_cidr rows ip r net
            × (answer ≡ of_policy r.group_id (auth_mode_of r.auth_mode)))
  load_ranges-resolve lib rows group now ip law p =
      let sorted_rows = lib.slice (more_specific parse_cidr) rows in
      let parse_sorted : AllParse parse_cidr sorted_rows =
        λ r m. p r ((law.same_elements (more_specific parse_cidr) rows r).0 m) in
      let in_order = law.sorted (more_specific parse_cidr) rows (more_specific-IsByKey rows p) in
      elim (sorted-Found parse_cidr sorted_rows ip in_order parse_sorted) [
        | inl (missed, nobody) ↦ inl (
          λ r net h. nobody r net ((Holds-sorted lib rows ip r net law).1 h),
          resolve-load_ranges lib rows group now ip ∙ ap (policy_of group) missed,
        )
        | inr (r, net, hit, (held, longest)) ↦ inr (
          r,
          net,
          (
            (Holds-sorted lib rows ip r net law).0 held,
            λ r' net' h. longest r' net' ((Holds-sorted lib rows ip r' net' law).1 h),
          ),
          resolve-load_ranges lib rows group now ip ∙ ap (policy_of group) hit,
        )
      ]
