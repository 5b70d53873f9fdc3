-- ===== src/Filter/Engine/Decision.antt =====
-- When Engine.EvaluateForGroup blocks (internal/filter/engine.go).
use dns_filter.Prelude.{
  ℕ, ◌<◌, ◌≡◌, refl, ◌↔◌, ◌⊎◌, inl, inr, true, false, Option, none, some, arith, Text, to_lower,
  Bool-cases, Option-cases,
}
use dns_filter.Filter.Domain.{normalize}
use dns_filter.Filter.Domain.Normal.{normalize-to_lower}
use dns_filter.Filter.Blacklist.{Blacklist, contains}
use dns_filter.Filter.Engine.{
  allow, block, whitelisted, blacklisted, category, Result, Engine, on_list, category_of,
  blocked_for, allowed, check_policy, evaluate_for_group,
}

-- What the policy forbids a group: a name whose category is blocked for it.
abbrev pub Forbids : Engine → ℕ → Text → ℕ → Type 0
Forbids e group n cat = (category_of e n ≡ some cat) × (blocked_for e group cat ≡ true)

check_policy-block_iff :
    (e : Engine) (d : Text) (group : ℕ)
    → ((check_policy e d group).action ≡ block) ↔ ((cat : ℕ) × Forbids e group (normalize d) cat)
unfolding check_policy
check_policy-block_iff e d group = elim (Option-cases (category_of e (normalize d))) [
  | inl none' ↦ (λ h. ground (arith, none', h), λ k. ground (arith, none', k.1))
  | inr (cat, has) ↦
      (λ h. (cat, (has, ground (arith, has, h))), λ (c, f). ground (arith, has, f.0, f.1))
]

-- A domain is blocked exactly when the whitelist does not hold it and either the blacklist does
-- or, for a group with a positive number, its category is blocked for the group.
pub evaluate_for_group-block_iff :
    (e : Engine) (d : Text) (group : ℕ)
    → ((evaluate_for_group e d group).action ≡ block) ↔ (
        (on_list e.whitelist d ≡ false)
        × ((on_list e.blacklist d ≡ true)
            ⊎ ((0 < group) × ((cat : ℕ) × Forbids e group (normalize d) cat))))
unfolding evaluate_for_group
evaluate_for_group-block_iff e d group = (
  λ h. (ground (arith, h), decided h),
  λ h. ground (arith, h, (check_policy-block_iff e d group).1),
)
  where
    decided :
        (evaluate_for_group e d group).action ≡ block
        → (on_list e.blacklist d ≡ true)
          ⊎ ((0 < group) × ((cat : ℕ) × Forbids e group (normalize d) cat))
    decided h = elim (Bool-cases (on_list e.blacklist d)) [
      | inl on ↦ inl on
      | inr off ↦
          inr
            (ground (arith, h, off), (check_policy-block_iff e d group).0 (ground (arith, h, off)))
    ]

-- The reason and the category of every result.
abbrev pub Explains : Engine → Text → ℕ → Result → Type 0
Explains e d group r =
    ((r ≡ record { action = allow; reason = whitelisted; category_id = 0 })
      × (on_list e.whitelist d ≡ true))
    ⊎ ((r ≡ record { action = block; reason = blacklisted; category_id = 0 })
        × (on_list e.blacklist d ≡ true))
    ⊎ ((r ≡ record { action = block; reason = category; category_id = r.category_id })
        × (0 < group)
        × Forbids e group (normalize d) r.category_id)
    ⊎ (r ≡ allowed)

evaluate_for_group-Explains :
    (e : Engine) (d : Text) (group : ℕ) → Explains e d group (evaluate_for_group e d group)
unfolding evaluate_for_group
evaluate_for_group-Explains e d group = ground arith

check_policy-to_lower :
    (e : Engine) (d : Text) (group : ℕ) → check_policy e (to_lower d) group ≡ check_policy e d group
unfolding check_policy
check_policy-to_lower e d group = rw (normalize-to_lower d, check_policy)

contains-to_lower : (b : Option Blacklist) (d : Text) → on_list b (to_lower d) ≡ on_list b d
unfolding contains
contains-to_lower none d = refl
contains-to_lower (some b) d = rw (normalize-to_lower d)

-- The decision does not depend on the case of the domain.
pub evaluate_for_group-to_lower :
    (e : Engine) (d : Text) (group : ℕ)
    → evaluate_for_group e (to_lower d) group ≡ evaluate_for_group e d group
unfolding evaluate_for_group
evaluate_for_group-to_lower e d group = rw (
  contains-to_lower e.whitelist d,
  contains-to_lower e.blacklist d,
  check_policy-to_lower e d group,
)
