-- ===== src/Examples/Memory.antt =====
-- A database that keeps its tables in memory and takes domains of eight characters at most
-- (internal/store).
use dns_filter.Prelude.{
  ℕ, ◌≡◌, ◌≢◌, ◌⊎◌, refl, ap, inl, inr, Bool, true, [], ◌∷◌, Option, none, some, Text, codes, leb,
  length, arith, if◌then◌else◌, nat_eq, text_eq,
}
use dns_filter.Database.Tables.{AdminRow, ListRow, Tables, Statement, run, insert_entry}
use dns_filter.Database.Pool.{Pool, PoolView, find_admin}
use dns_filter.Database.Transactions.{Sql, View}

abbrev pub Tx : Type 0
Tx = Option Tables

unfoldable pub takes : Statement → Bool
takes (insert_entry id domain) = leb (length domain) 8
takes other = true

unfoldable pub exec_on : Statement → Tx → Option Text × Tx
unfolding takes
exec_on s none = (some (codes "aborted"), none)
exec_on s (some t) =
    if takes s then (none, some (run s t)) else (some (codes "value too long"), none)

unfoldable pub commit_on : Tx → Tables → Option Text × Tables
commit_on none db = (some (codes "aborted"), db)
commit_on (some t) db = (none, t)

abbrev pub memory : Sql Tables
memory = record {
  Tx = Tx;
  begin = λ db. inr (some db);
  exec = exec_on;
  commit = commit_on;
  rollback = λ tx db. db;
}

pub begun_seen :
    (db : Tables) (tx : Tx) → ◌≡◌ {A = Text ⊎ Tx} (inr (some db)) (inr tx) → tx ≡ some db
begun_seen db tx began = cc

pub exec_on_done :
    (s : Statement) (tx : Tx) (t : Tables)
    → tx ≡ some t
    → (exec_on s tx).0 ≡ none
    → (exec_on s tx).1 ≡ some (run s t)
unfolding exec_on
exec_on_done s none t same done = cc
exec_on_done s (some u) t same done = ground arith

pub exec_on_failed : (s : Statement) (tx : Tx) → (exec_on s tx).0 ≢ none → (exec_on s tx).1 ≡ none
unfolding exec_on
exec_on_failed s none failed = refl
exec_on_failed s (some u) failed = ground arith

pub exec_on_aborted : (s : Statement) (tx : Tx) → tx ≡ none → (exec_on s tx).0 ≢ none
unfolding exec_on
exec_on_aborted s none same e = cc
exec_on_aborted s (some u) same e = cc

pub commit_on_done :
    (tx : Tx) (db t : Tables) → tx ≡ some t → (commit_on tx db).0 ≡ none → (commit_on tx db).1 ≡ t
unfolding commit_on
commit_on_done none db t same done = cc
commit_on_done (some u) db t same done = cc

pub commit_on_failed :
    (tx : Tx) (db t : Tables) → tx ≡ some t → ((commit_on tx db).1 ≡ db) ⊎ ((commit_on tx db).1 ≡ t)
unfolding commit_on
commit_on_failed none db t same = inl refl
commit_on_failed (some u) db t same = inr (cc)

pub commit_on_aborted :
    (tx : Tx) (db : Tables) → tx ≡ none → ((commit_on tx db).0 ≢ none) × ((commit_on tx db).1 ≡ db)
unfolding commit_on
commit_on_aborted none db same = (λ e. cc, refl)
commit_on_aborted (some u) db same = cc

abbrev pub memory_view : View memory
memory_view = record {
  stored = λ db. db;
  seen = λ tx. tx;
  begin_seen = begun_seen;
  exec_done = exec_on_done;
  exec_failed = exec_on_failed;
  exec_aborted = exec_on_aborted;
  commit_done = commit_on_done;
  commit_failed = commit_on_failed;
  commit_aborted = commit_on_aborted;
  rolled_back = λ tx db. refl;
}

abbrev pub row : ℕ → Text → Text → ListRow
row id name url = record {
  id = id;
  name = name;
  source_url = some url;
  list_type = 0;
  active = true;
  domain_count = 1;
}

abbrev pub tables : Tables
tables = record {
  blocklists = row 1 (codes "ads") (codes "a/ads") ∷ row 2 (codes "bad") (codes "a/bad") ∷ [];
  entries = (1, codes "old.com") ∷ (2, codes "kept.com") ∷ [];
  list_categories = [];
  policies = (3, 7) ∷ (4, 7) ∷ [];
  groups = [];
  ip_ranges = [];
  admin_users = [];
}

unfoldable pub no_row_or : Option AdminRow → Text ⊎ AdminRow
no_row_or none = inl (codes "no rows in result set")
no_row_or (some row) = inr row

-- statements that run alone; every new row gets the id 9
abbrev pub memory_pool : Pool Tables
memory_pool = record {
  exec = λ s db. (none, run s db);
  insert = λ s db. (inr 9, run (s 9) db);
  active_admin = λ username db. no_row_or (find_admin username db.admin_users);
}

pub given_id :
    (s : ℕ → Statement) (db : Tables) (id : ℕ)
    → ◌≡◌ {A = Text ⊎ ℕ} (inr 9) (inr id)
    → run (s 9) db ≡ run (s id) db
given_id s db id e = let same : ◌≡◌ {A = ℕ} 9 id = cc in ap (λ n. run (s n) db) same

no_row_or-found : (o : Option AdminRow) (row : AdminRow) → no_row_or o ≡ inr row → o ≡ some row
unfolding no_row_or
no_row_or-found none row e = cc
no_row_or-found (some r) row e = cc

pub admin_answered :
    (username : Text) (db : Tables) (row : AdminRow)
    → no_row_or (find_admin username db.admin_users) ≡ inr row
    → find_admin username db.admin_users ≡ some row
admin_answered username db row e = no_row_or-found (find_admin username db.admin_users) row e

abbrev pub memory_pool_view : PoolView memory_pool
memory_pool_view = record {
  stored = λ db. db;
  exec_done = λ s db done. refl;
  insert_done = given_id;
  admin_found = admin_answered;
}
