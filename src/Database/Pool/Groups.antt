-- ===== src/Database/Pool/Groups.antt =====
-- What is left of a deleted group (internal/store/groups.go).
use dns_filter.Prelude.{ℕ, ◌≡◌, ◌≢◌, ◌↔◌, inr, Bool, true, none, Map, codes, arith}
use dns_filter.Filter.Engine.{Engine, load_policies, blocked_for}
use dns_filter.Database.Tables.{run, delete_group_row}
use dns_filter.Database.Tables.Rows.{Holds, clear_rows-Holds}
use dns_filter.Database.Loads.{scan_good, Rows, load_group_policies}
use dns_filter.Database.Loads.Enforced.{load_group_policies-blocked_for}
use dns_filter.Database.Pool.{Pool, PoolView, delete_group}
use dns_filter.Database.Pool.Admins.{or_err-done}

module _ {Db : Type 0} {pool : Pool Db} (view : PoolView pool) where
  -- Once a group is deleted without an error and the policies are loaded by a query that gives the
  -- rows of the database, the engine blocks nothing for the group any more, and for every other group
  -- what was stored before.
  pub delete_group-blocked_for :
      (id own cat : ℕ) (db after : Db) (rows : Rows (ℕ × ℕ)) (e : Engine) (m : Map ℕ (Map ℕ Bool))
      → delete_group pool id db ≡ (after, none)
      → ((g c : ℕ) → Holds g c (scan_good rows.scanned) ↔ Holds g c (view.stored after).policies)
      → load_group_policies (inr rows) ≡ inr m
      → (blocked_for (load_policies m e) own cat ≡ true)
        ↔ ((own ≢ id) × Holds own cat (view.stored db).policies)
  unfolding delete_group run
  delete_group-blocked_for id own cat db after rows e m deleted reads loaded =
      let (done, left) =
        or_err-done pool (codes "store: delete group: ") (pool.exec (delete_group_row id) db) after
          deleted in
      let stored : view.stored after ≡ run (delete_group_row id) (view.stored db) =
        rw (← left) (view.exec_done (delete_group_row id) db done) in
      let found = reads own cat in
      let enforced = load_group_policies-blocked_for rows m e own cat loaded in
      let cleared = clear_rows-Holds id own cat (view.stored db).policies in
      ground (arith, enforced, rw stored at found, cleared)
