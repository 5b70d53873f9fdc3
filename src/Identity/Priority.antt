-- ===== src/Identity/Priority.antt =====
-- The priorities of Resolver.Resolve (internal/identity/resolver.go).
use dns_filter.Prelude.{
  ℕ, ◌<◌, ◌≡◌, refl, ap, ◌⊎◌, inl, inr, true, false, List, [], ◌∷◌, ◌++◌, none, some, arith, ltb,
  ltb→lt, ◌∙◌, lookup, Option-cases, Bool-cases, All,
}
use dns_filter.Identity.{
  Ip, ip_eq, in_net, Identity, IpRange, Session, Resolver, find_range, of_session, of_policy,
  resolve_range, resolve, get_range_group_id,
}

-- The first of the ranges that holds the address.
pub record IsFirst (ip : Ip) (ranges : List IpRange) (range : IpRange) : Type 0 where
  pub earlier : List IpRange
  pub later : List IpRange
  pub places : ranges ≡ earlier ++ (range ∷ later)
  pub holds : in_net range.network ip ≡ true
  pub passed_over : All (λ r. in_net r.network ip ≡ false) earlier

find_range-IsFirst :
    (ip : Ip) (ranges : List IpRange) (range : IpRange)
    → find_range ranges ip ≡ some range
    → IsFirst ip ranges range
unfolding find_range
find_range-IsFirst ip [] range h = cc
find_range-IsFirst ip (r ∷ rs) range h = elim (Bool-cases (in_net r.network ip)) [
  | inl here ↦ record {
    earlier = [];
    later = rs;
    places = ground (arith, h, here);
    holds = ground (arith, h, here);
    passed_over = tt;
  }
  | inr off ↦
      let more = find_range-IsFirst ip rs range (ground (arith, h, off)) in
      record {
        earlier = r ∷ more.earlier;
        later = more.later;
        places = ap (◌∷◌ r) more.places;
        holds = more.holds;
        passed_over = (off, more.passed_over);
      }
]

find_range-none :
    (ip : Ip) (ranges : List IpRange)
    → find_range ranges ip ≡ none
    → All (λ r. in_net r.network ip ≡ false) ranges
unfolding find_range
find_range-none ip [] h = tt
find_range-none ip (r ∷ rs) h = (ground arith, find_range-none ip rs (ground arith))

find_range-outside :
    (ip : Ip) (ranges : List IpRange)
    → All (λ r. in_net r.network ip ≡ false) ranges
    → find_range ranges ip ≡ none
unfolding find_range
find_range-outside ip [] h = refl
find_range-outside ip (r ∷ rs) (off, h) = ground (arith, find_range-outside ip rs h)

-- `r` has a session for the address that is still running.
abbrev pub IsActive : Resolver → ℕ → Ip → Session → Type 0
IsActive r now ip s = (lookup ip r.sessions ≡ some s) × (now < s.expires_at)

-- What the priorities of the source's comment say of a result.
abbrev pub ByPriority : Resolver → ℕ → Ip → Identity → Type 0
ByPriority r now ip i =
    ((s : Session) × IsActive r now ip s × (i ≡ of_session s))
    ⊎ (((s : Session) → ¬ IsActive r now ip s)
        × (((range : IpRange) × IsFirst ip r.ranges range
              × (i ≡ of_policy range.group_id range.auth_mode))
            ⊎ (All (λ r. in_net r.network ip ≡ false) r.ranges
                × (i ≡ of_policy r.default_group_id r.default_auth))))

-- the group of the first range that holds the address, or the default group where none does
abbrev pub IsRangeGroup : Resolver → Ip → ℕ → Type 0
IsRangeGroup r ip group =
    ((range : IpRange) × IsFirst ip r.ranges range × (group ≡ range.group_id))
    ⊎ (All (λ r. in_net r.network ip ≡ false) r.ranges × (group ≡ r.default_group_id))

pub get_range_group_id-IsRangeGroup :
    (r : Resolver) (ip : Ip) → IsRangeGroup r ip (get_range_group_id r ip)
unfolding get_range_group_id
get_range_group_id-IsRangeGroup r ip = elim (Option-cases (find_range r.ranges ip)) [
  | inl e ↦ inr (find_range-none ip r.ranges e, rw (e, get_range_group_id) refl)
  | inr (range, e) ↦
      inl (range, find_range-IsFirst ip r.ranges range e, rw (e, get_range_group_id) refl)
]

resolve_range-ByRange :
    (r : Resolver) (ip : Ip)
    → ((range : IpRange) × IsFirst ip r.ranges range
        × (resolve_range r ip ≡ of_policy range.group_id range.auth_mode))
      ⊎ (All (λ r. in_net r.network ip ≡ false) r.ranges
          × (resolve_range r ip ≡ of_policy r.default_group_id r.default_auth))
unfolding resolve_range
resolve_range-ByRange r ip = elim (Option-cases (find_range r.ranges ip)) [
  | inl e ↦ inr (find_range-none ip r.ranges e, rw (e, resolve_range))
  | inr (range, e) ↦ inl (range, find_range-IsFirst ip r.ranges range e, rw (e, resolve_range))
]

pub resolve-active :
    (r : Resolver) (now : ℕ) (ip : Ip) (s : Session)
    → IsActive r now ip s
    → resolve r now ip ≡ of_session s
unfolding resolve
resolve-active r now ip s (e, h) = rw (e, resolve) (ground arith)

pub resolve-inactive :
    (r : Resolver) (now : ℕ) (ip : Ip)
    → ((s : Session) → ¬ IsActive r now ip s)
    → resolve r now ip ≡ resolve_range r ip
unfolding resolve
resolve-inactive r now ip h = elim (Option-cases (lookup ip r.sessions)) [
  | inl e ↦ rw (e, resolve)
  | inr (s, e) ↦ elim (Bool-cases (ltb now s.expires_at)) [
    | inl on ↦ absurd (h s (e, ltb→lt now s.expires_at on))
    | inr off ↦ rw (e, resolve) (rw off)
  ]
]

pub session_cases :
    (r : Resolver) (now : ℕ) (ip : Ip)
    → ((s : Session) × IsActive r now ip s) ⊎ ((s : Session) → ¬ IsActive r now ip s)
session_cases r now ip = elim (Option-cases (lookup ip r.sessions)) [
  | inl e ↦ inr (λ s h. ground (arith, e, h.0))
  | inr (s, e) ↦ elim (Bool-cases (ltb now s.expires_at)) [
    | inl on ↦ inl (s, (e, ltb→lt now s.expires_at on))
    | inr off ↦ inr (λ t h. ground (arith, e, h.0, h.1, off))
  ]
]

-- An address resolves to its running session, with no login; without one, to the first range
-- that holds it; and without one of these, to the default policy.
pub resolve-ByPriority : (r : Resolver) (now : ℕ) (ip : Ip) → ByPriority r now ip (resolve r now ip)
resolve-ByPriority r now ip = elim (session_cases r now ip) [
  | inl (s, on) ↦ inl (s, on, resolve-active r now ip s on)
  | inr off ↦ elim (resolve_range-ByRange r ip) [
    | inl (range, first, e) ↦ inr (off, inl (range, first, resolve-inactive r now ip off ∙ e))
    | inr (outside, e) ↦ inr (off, inr (outside, resolve-inactive r now ip off ∙ e))
  ]
]

-- The group that a login takes for an address is the group that the address has without a
-- session; where no range holds it this is the default group, and not 0.
pub get_range_group_id-resolve_range :
    (r : Resolver) (ip : Ip)
    → (get_range_group_id r ip ≡ (resolve_range r ip).group_id)
      × (All (λ x. in_net x.network ip ≡ false) r.ranges
          → get_range_group_id r ip ≡ r.default_group_id)
unfolding get_range_group_id resolve_range
get_range_group_id-resolve_range r ip =
    (ground arith, λ outside. ground (arith, find_range-outside ip r.ranges outside))
