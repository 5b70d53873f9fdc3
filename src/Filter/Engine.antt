-- ===== src/Filter/Engine.antt =====
-- internal/filter/engine.go: the type Engine.
pub mod Decision
pub mod Categories
use dns_filter.Prelude.{
  ℕ, zero, suc, ◌+◌, Bool, true, false, List, [], ◌∷◌, ◌++◌, Option, none, some, ◌==◌,
  if◌then◌else◌, Text, text_eq, nat_eq, Map, lookup, insert, ltb, nat_beq, cons_head, is_empty,
  keep, not,
}
use dns_filter.Filter.Domain.{dot, normalize}
use dns_filter.Filter.Blacklist.{Blacklist, contains, tail_parts}

pub data Action : Type 0 where
  allow block : Action

pub data Reason : Type 0 where
  no_reason whitelisted blacklisted category : Reason

pub record Result : Type 0 where
  pub action : Action
  pub reason : Reason
  pub category_id : ℕ

-- A nil list is `none`.
pub record Engine : Type 0 where
  pub blacklist : Option Blacklist
  pub whitelist : Option Blacklist
  pub domain_categories : Map Text ℕ
  pub group_policies : Map ℕ (Map ℕ Bool)

-- NewEngine
unfoldable pub new_engine : Option Blacklist → Option Blacklist → Engine
new_engine black white = record {
  blacklist = black;
  whitelist = white;
  domain_categories = [];
  group_policies = [];
}

load_domains : ℕ → List Text → Map Text ℕ → Map Text ℕ
load_domains cat [] m = m
load_domains cat (d ∷ ds) m = load_domains cat ds (insert (normalize d) cat m)

load_all : Map ℕ (List Text) → Map Text ℕ → Map Text ℕ
load_all [] m = m
load_all ((cat, ds) ∷ cats) m = load_all cats (load_domains cat ds m)

-- Engine.LoadCategories; the map is ranged over in the order of the list
unfoldable pub load_categories : Map ℕ (List Text) → Engine → Engine
unfolding load_domains load_all
load_categories cats e = record e { domain_categories = load_all cats [] }

-- Engine.LoadPolicies
unfoldable pub load_policies : Map ℕ (Map ℕ Bool) → Engine → Engine
load_policies policies e = record e { group_policies = policies }

-- `e.whitelist != nil && e.whitelist.Contains(domain)`
abbrev pub on_list : Option Blacklist → Text → Bool
on_list none domain = false
on_list (some b) domain = contains b domain

-- splitDomain: the loop, with the label that is being read; empty labels are dropped
unfoldable pub split_labels : Text → Text → List Text
split_labels current [] = if is_empty current then [] else current ∷ []
split_labels current (c ∷ s) =
    let closed = split_labels [] s in
    let longer = split_labels (current ++ (c ∷ [])) s in
    if nat_beq c b'.' then (if is_empty current then closed else current ∷ closed) else longer

unfoldable pub split_domain : Text → List Text
unfolding split_labels
split_domain domain = split_labels [] domain

join_labels : List Text → Text
join_labels [] = []
join_labels (p ∷ []) = p
join_labels (p ∷ q ∷ ps) = p ++ (dot ++ join_labels (q ∷ ps))

-- joinDomain
unfoldable pub join_domain : List Text → Text
unfolding join_labels
join_domain parts = join_labels parts ++ dot

-- the loop of findParentCategory; the round of `i` has `parts[i:]`, and the last is not tried
unfoldable pub parent_category : Map Text ℕ → List Text → Option ℕ
parent_category cats [] = none
parent_category cats (p ∷ []) = none
parent_category cats (p ∷ q ∷ rest) = elim (lookup (join_domain (p ∷ q ∷ rest)) cats) [
  | none ↦ parent_category cats (q ∷ rest)
  | some cat ↦ some cat
]

-- Engine.findParentCategory
unfoldable pub find_parent_category : Engine → Text → Option ℕ
unfolding parent_category
find_parent_category e domain =
    parent_category e.domain_categories (tail_parts (split_domain domain))

-- the category of a normal name: its own, or that of the nearest parent that has one
unfoldable pub category_of : Engine → Text → Option ℕ
category_of e n = elim (lookup n e.domain_categories) [
  | none ↦ find_parent_category e n
  | some cat ↦ some cat
]

-- `blockedCats != nil && blockedCats[catID]`
unfoldable pub blocked_for : Engine → ℕ → ℕ → Bool
blocked_for e group cat = elim (lookup group e.group_policies) [
  | none ↦ false
  | some blocked ↦ elim (lookup cat blocked) [ none ↦ false | some v ↦ v ]
]

abbrev pub allowed : Result
allowed = record { action = allow; reason = no_reason; category_id = 0 }

unfoldable pub check_policy : Engine → Text → ℕ → Result
check_policy e domain group = elim (category_of e (normalize domain)) [
  | none ↦ allowed
  | some cat ↦
      if blocked_for e group cat
      then record { action = block; reason = category; category_id = cat }
      else allowed
]

-- Engine.EvaluateForGroup
unfoldable pub evaluate_for_group : Engine → Text → ℕ → Result
unfolding check_policy
evaluate_for_group e domain group =
    if on_list e.whitelist domain
    then record { action = allow; reason = whitelisted; category_id = 0 }
    else if on_list e.blacklist domain
    then record { action = block; reason = blacklisted; category_id = 0 }
    else if ltb 0 group
    then check_policy e domain group
    else allowed

-- Engine.Evaluate
unfoldable pub evaluate : Engine → Text → Result
evaluate e domain = evaluate_for_group e domain 0
