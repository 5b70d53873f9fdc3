-- ===== src/Examples/Stored.antt =====
-- Policies, entries and administrators (internal/store).
use dns_filter.Prelude.{
  ℕ, ◌+◌, ◌≡◌, ◌≢◌, ◌↔◌, ◌⊎◌, refl, ap, inl, inr, Bool, true, false, List, [], ◌∷◌, ◌++◌, map,
  Option, none, some, Text, codes, length, arith, Map, lookup, In, nat_eq, text_eq, text_beq,
  text_beq_iff, sym, split, if◌then◌else◌,
}
use dns_filter.Filter.Engine.{Engine, new_engine, load_policies, blocked_for}
use dns_filter.Database.Tables.{
  AdminRow, ListRow, Tables, Statement, run, insert_entry, delete_entries,
}
use dns_filter.Database.Tables.Rows.{Holds}
use dns_filter.Database.Transactions.{Sql, View}
use dns_filter.Database.Transactions.Atomic.{IsAtomic}
use dns_filter.Database.Loads.{scan_good, Rows, load_group_policies}
use dns_filter.Database.Loads.Enforced.{set_group_policy-blocked_for}
use dns_filter.Database.Replacing.{set_group_policy, insert_blocklist_entries}
use dns_filter.Database.Replacing.Done.{added_domains, insert_blocklist_entries-IsAtomic}
use dns_filter.Database.Pool.{
  Bcrypt, AdminUser, create_admin_user, delete_admin_user, authenticate_admin, delete_group,
}
use dns_filter.Database.Pool.Admins.{
  create_admin_user-authenticate_admin, delete_admin_user-authenticate_admin,
}
use dns_filter.Examples.Memory.{
  memory_pool, memory_pool_view, memory, memory_view, row, tables, exec_on, takes,
}

-- policies

abbrev group : ℕ
group = 3

abbrev social : ℕ
social = 7

abbrev policy_rows : Rows (ℕ × ℕ)
policy_rows = record { scanned = inr (3, 9) ∷ inr (4, 7) ∷ []; err = none }

abbrev saved : Tables
saved = record tables { policies = (3, 9) ∷ (4, 7) ∷ [] }

saves : set_group_policy memory 3 (9 ∷ []) tables ≡ (saved, inr tt)
unfolding set_group_policy dns_filter.Database.Transactions.transact
    dns_filter.Database.Transactions.exec_or_return exec_on
    dns_filter.Database.Transactions.exec_each dns_filter.Examples.Memory.commit_on run
    dns_filter.Database.Tables.insert_row dns_filter.Database.Tables.has_row
    dns_filter.Database.Tables.clear_rows
saves = refl

abbrev loaded_policies : Map ℕ (Map ℕ Bool)
loaded_policies = (3, (9, true) ∷ []) ∷ (4, (7, true) ∷ []) ∷ []

loads : load_group_policies (inr policy_rows) ≡ inr loaded_policies
unfolding load_group_policies dns_filter.Database.Loads.put_policies dns_filter.Prelude.insert
    lookup
loads = refl

reads : (g c : ℕ) → Holds g c (scan_good policy_rows.scanned) ↔ Holds g c saved.policies
unfolding scan_good
reads g c = (λ h. h, λ h. h)

abbrev engine : Engine
engine = new_engine none none

set_group_policy-blocked_for_example :
    (blocked_for (load_policies loaded_policies engine) group social ≡ true) ↔ (
      ((group ≡ group) × In social (9 ∷ []))
      ⊎ ((group ≢ group) × Holds group social tables.policies))
set_group_policy-blocked_for_example =
    set_group_policy-blocked_for memory_view group group social (9 ∷ []) tables saved policy_rows
      engine loaded_policies saves reads loads

-- a list of one domain that gets another

insert_blocklist_entries-IsAtomic_example :
    IsAtomic memory_view 1
      (added_domains 1 (codes "x.com" ∷ []))
      tables
      (insert_blocklist_entries memory 1 (codes "x.com" ∷ []) tables)
insert_blocklist_entries-IsAtomic_example =
    insert_blocklist_entries-IsAtomic memory_view 1 (codes "x.com") [] tables

recounted :
    (insert_blocklist_entries memory 1 (codes "x.com" ∷ []) tables).0.blocklists
    ≡ row 1 (codes "ads") (codes "a/ads") ∷ row 2 (codes "bad") (codes "a/bad") ∷ []
unfolding insert_blocklist_entries dns_filter.Database.Transactions.transact
    dns_filter.Database.Replacing.insert_each dns_filter.Database.Transactions.exec_or_return
    exec_on dns_filter.Examples.Memory.commit_on run
recounted = refl

-- administrators

-- a hash that shows the password
abbrev clear_bcrypt : Bcrypt
clear_bcrypt = record { generate = λ p. inr p; compare = λ hash p. text_beq hash p }

matches :
    (hash : Text)
    → clear_bcrypt.generate (codes "pw") ≡ inr hash
    → clear_bcrypt.compare hash (codes "pw") ≡ true
matches hash e = let same : codes "pw" ≡ hash = cc in (text_beq_iff hash (codes "pw")).1 (sym same)

abbrev ana : ℕ → Bool → AdminRow
ana id on = record { id = id; username = codes "ana"; password = codes "pw"; role = 1; active = on }

abbrev with_ana : ℕ → Bool → Tables
with_ana id on = record tables { admin_users = ana id on ∷ [] }

creates :
    create_admin_user memory_pool clear_bcrypt (codes "ana") (codes "pw") 1 tables
    ≡ (with_ana 9 true, inr 9)
unfolding create_admin_user run
creates = refl

answers : memory_pool.active_admin (codes "ana") (with_ana 9 true) ≡ inr (ana 9 true)
unfolding dns_filter.Examples.Memory.no_row_or dns_filter.Database.Pool.find_admin text_beq
answers = refl

create_admin_user-authenticate_admin_example :
    authenticate_admin memory_pool clear_bcrypt (codes "ana") (codes "pw") (with_ana 9 true)
    ≡ inr (record { id = 9; username = codes "ana"; role = 1; active = true })
create_admin_user-authenticate_admin_example =
    create_admin_user-authenticate_admin memory_pool_view clear_bcrypt (codes "ana") (codes "pw") 1
      9 tables (with_ana 9 true) (ana 9 true) matches creates answers

abbrev two_admins : Tables
two_admins = record tables {
  admin_users = ana 1 true ∷ record (ana 2 true) { username = codes "bia" } ∷ [];
}

abbrev one_deleted : Tables
one_deleted = record tables {
  admin_users = ana 1 false ∷ record (ana 2 true) { username = codes "bia" } ∷ [];
}

deletes : delete_admin_user memory_pool 1 two_admins ≡ (one_deleted, none)
unfolding delete_admin_user run
deletes = refl

abbrev bia : AdminUser
bia = record { id = 2; username = codes "bia"; role = 1; active = true }

logs_in :
    authenticate_admin memory_pool clear_bcrypt (codes "bia") (codes "pw") one_deleted ≡ inr bia
unfolding authenticate_admin dns_filter.Examples.Memory.no_row_or
    dns_filter.Database.Pool.find_admin text_beq
logs_in = refl

delete_admin_user-authenticate_admin_example : bia.id ≢ 1
delete_admin_user-authenticate_admin_example =
    delete_admin_user-authenticate_admin memory_pool_view clear_bcrypt 1 (codes "bia") (codes "pw")
      two_admins one_deleted bia deletes logs_in
