-- ===== src/Database/Loads/Policies.antt =====
-- What LoadGroupPolicies and LoadCategoryDomains give (internal/store/policies.go).
use dns_filter.Prelude.{
  ℕ, ◌≡◌, ◌↔◌, ◌⊎◌, inl, inr, Bool, true, false, List, [], ◌∷◌, ◌++◌, none, some, Text, Map, lookup,
  insert, nat_eq, nat_beq_iff, arith, lookup-insert, sym, append-nil, append_assoc, nat_beq,
  if◌then◌else◌,
}
use dns_filter.Database.Tables.Rows.{Holds}
use dns_filter.Database.Loads.{
  scan_good, Rows, or_nil, put_policy, put_policies, put_domain, put_domains, load_category_domains,
}

abbrev pub blocks : Map ℕ (Map ℕ Bool) → ℕ → ℕ → Bool
blocks m group cat = elim (lookup cat (or_nil (lookup group m))) [ none ↦ false | some v ↦ v ]

blocks-put_policy :
    (g c group cat : ℕ) (m : Map ℕ (Map ℕ Bool))
    → (blocks (put_policy (g, c) m) group cat ≡ true)
      ↔ (((group ≡ g) × (cat ≡ c)) ⊎ (blocks m group cat ≡ true))
blocks-put_policy g c group cat m =
    let outer = lookup-insert g group (insert c true (or_nil (lookup g m))) m in
    let inner = lookup-insert c cat true (or_nil (lookup g m)) in
    ground (arith, outer, inner, nat_beq_iff g group, nat_beq_iff c cat)

pub put_policies_iff :
    (rows : List (Text ⊎ ℕ × ℕ)) (m : Map ℕ (Map ℕ Bool)) (group cat : ℕ)
    → (blocks (put_policies rows m) group cat ≡ true)
      ↔ (Holds group cat (scan_good rows) ⊎ (blocks m group cat ≡ true))
unfolding put_policies scan_good
put_policies_iff [] m group cat = ground arith
put_policies_iff (inl e ∷ rows) m group cat = put_policies_iff rows m group cat
put_policies_iff (inr (g, c) ∷ rows) m group cat = ground (
  arith,
  put_policies_iff rows (put_policy (g, c) m) group cat,
  blocks-put_policy g c group cat m,
)

-- the items of the rows of one owner, in order
abbrev pub items_of : ℕ → List (ℕ × Text) → List Text
items_of owner [] = []
items_of owner ((own, item) ∷ rows) =
    if nat_beq own owner then item ∷ items_of owner rows else items_of owner rows

put_domains_lem :
    (rows : List (Text ⊎ ℕ × Text)) (m : Map ℕ (List Text)) (cat : ℕ)
    → or_nil (lookup cat (put_domains rows m))
      ≡ or_nil (lookup cat m) ++ items_of cat (scan_good rows)
unfolding put_domains scan_good
put_domains_lem [] m cat = sym (append-nil (or_nil (lookup cat m)))
put_domains_lem (inl e ∷ rows) m cat = put_domains_lem rows m cat
put_domains_lem (inr (c, d) ∷ rows) m cat =
    let later = put_domains_lem rows (put_domain (c, d) m) cat in
    let outer = lookup-insert c cat (or_nil (lookup c m) ++ (d ∷ [])) m in
    let moved = append_assoc (or_nil (lookup cat m)) (d ∷ []) (items_of cat (scan_good rows)) in
    ground (arith, later, outer, moved, nat_beq_iff c cat)

-- LoadCategoryDomains gives every category the domains of its rows that scan, in their order.
pub load_category_domains-items_of :
    (rows : Rows (ℕ × Text)) (m : Map ℕ (List Text)) (cat : ℕ)
    → load_category_domains (inr rows) ≡ inr m
    → or_nil (lookup cat m) ≡ items_of cat (scan_good rows.scanned)
unfolding load_category_domains lookup
load_category_domains-items_of rows m cat h =
    let same : put_domains rows.scanned [] ≡ m = cc in
    rw (← same) (put_domains_lem rows.scanned [] cat)
