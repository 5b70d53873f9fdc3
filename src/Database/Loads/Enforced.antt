-- ===== src/Database/Loads/Enforced.antt =====
-- From SetGroupPolicy (internal/store/policies.go) by LoadGroupPolicies to the engine
-- (internal/filter/engine.go).
use dns_filter.Prelude.{
  ℕ, ◌≡◌, ◌≢◌, refl, ◌↔◌, ◌⊎◌, inl, inr, Bool, true, List, [], Option-cases, Text, Map, lookup,
  nat_eq, arith, In,
}
use dns_filter.Filter.Engine.{Engine, load_policies, blocked_for}
use dns_filter.Database.Tables.Rows.{Holds, replaced-Holds}
use dns_filter.Database.Transactions.{Sql, View}
use dns_filter.Database.Loads.{scan_good, Rows, put_policies, load_group_policies}
use dns_filter.Database.Loads.Policies.{blocks, put_policies_iff}
use dns_filter.Database.Replacing.{set_group_policy}
use dns_filter.Database.Replacing.Done.{replaced_policies, set_group_policy-IsAtomic}

blocked_for-blocks :
    (m : Map ℕ (Map ℕ Bool)) (e : Engine) (group cat : ℕ)
    → blocked_for (load_policies m e) group cat ≡ blocks m group cat
unfolding blocked_for load_policies lookup
blocked_for-blocks m e group cat = elim (Option-cases (lookup group m)) [
  | inl missing ↦ rw (missing, blocks) refl
  | inr (held, found) ↦ rw (found, blocks) refl
]

-- what is loaded from the rows
loaded_iff :
    (rows : List (Text ⊎ ℕ × ℕ)) (own cat : ℕ)
    → (blocks (put_policies rows []) own cat ≡ true) ↔ Holds own cat (scan_good rows)
unfolding lookup
loaded_iff rows own cat = ground (arith, put_policies_iff rows [] own cat)

pub load_group_policies-blocked_for :
    (rows : Rows (ℕ × ℕ)) (m : Map ℕ (Map ℕ Bool)) (e : Engine) (own cat : ℕ)
    → load_group_policies (inr rows) ≡ inr m
    → (blocked_for (load_policies m e) own cat ≡ true) ↔ Holds own cat (scan_good rows.scanned)
unfolding load_group_policies
load_group_policies-blocked_for rows m e own cat loaded =
    let same : put_policies rows.scanned [] ≡ m = cc in
    rw (blocked_for-blocks m e own cat, ← same) (loaded_iff rows.scanned own cat)

module _ {Db : Type 0} {sql : Sql Db} (view : View sql) where
  -- Over transactions as PostgreSQL documents them: once SetGroupPolicy has returned without an error
  -- and the policies are loaded by a query that gives the rows of the database, the engine blocks for
  -- the group exactly the categories that were given, and for every other group those that were
  -- stored before.
  pub set_group_policy-blocked_for :
      (group own cat : ℕ) (cats : List ℕ) (db after : Db) (rows : Rows (ℕ × ℕ)) (e : Engine)
      (m : Map ℕ (Map ℕ Bool))
      → set_group_policy sql group cats db ≡ (after, inr tt)
      → ((g c : ℕ) → Holds g c (scan_good rows.scanned) ↔ Holds g c (view.stored after).policies)
      → load_group_policies (inr rows) ≡ inr m
      → (blocked_for (load_policies m e) own cat ≡ true) ↔ (
          ((own ≡ group) × In cat cats) ⊎ ((own ≢ group) × Holds own cat (view.stored db).policies))
  set_group_policy-blocked_for group own cat cats db after rows e m done reads loaded =
      let atomic = set_group_policy-IsAtomic view group cats db in
      let saved : view.stored after ≡ replaced_policies group cats (view.stored db) =
        (rw done at atomic).1 in
      let found = reads own cat in
      let replaced = replaced-Holds group own cats cat (view.stored db).policies in
      let enforced = load_group_policies-blocked_for rows m e own cat loaded in
      ground (arith, enforced, rw saved at found, replaced)
