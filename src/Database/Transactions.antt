-- ===== src/Database/Transactions.antt =====
-- Transactions over PostgreSQL, as internal/store and internal/filter/updater.go run them.
pub mod Atomic
use dns_filter.Prelude.{◌⊎◌, inl, inr, List, [], ◌∷◌, ◌++◌, Option, none, some, Text, ◌≡◌, ◌≢◌}
use dns_filter.Database.Tables.{Statement, Tables, run}

-- pgx: Begin, Tx.Exec, Tx.Commit and Tx.Rollback; an error as its text. After a commit the deferred
-- Rollback does nothing.
pub record Sql (Db : Type 0) : Type 1 where
  pub Tx : Type 0
  pub begin : Db → Text ⊎ Tx
  pub exec : Statement → Tx → Option Text × Tx
  pub commit : Tx → Db → Option Text × Db
  pub rollback : Tx → Db → Db

-- What PostgreSQL documents, for one transaction at a time: the tables that a database holds, and
-- those that a transaction sees, none once one of its statements has failed.
pub record View {Db : Type 0} (sql : Sql Db) : Type 0 where
  pub stored : Db → Tables
  pub seen : sql.Tx → Option Tables
  pub begin_seen : (db : Db) (tx : sql.Tx) → sql.begin db ≡ inr tx → seen tx ≡ some (stored db)
  pub exec_done :
      (s : Statement) (tx : sql.Tx) (t : Tables)
      → seen tx ≡ some t
      → (sql.exec s tx).0 ≡ none
      → seen (sql.exec s tx).1 ≡ some (run s t)
  pub exec_failed :
      (s : Statement) (tx : sql.Tx) → (sql.exec s tx).0 ≢ none → seen (sql.exec s tx).1 ≡ none
  pub exec_aborted : (s : Statement) (tx : sql.Tx) → seen tx ≡ none → (sql.exec s tx).0 ≢ none
  pub commit_done :
      (tx : sql.Tx) (db : Db) (t : Tables)
      → seen tx ≡ some t
      → (sql.commit tx db).0 ≡ none
      → stored (sql.commit tx db).1 ≡ t
  -- an error of a commit does not say whether the server has carried it out
  pub commit_failed :
      (tx : sql.Tx) (db : Db) (t : Tables)
      → seen tx ≡ some t
      → (stored (sql.commit tx db).1 ≡ stored db) ⊎ (stored (sql.commit tx db).1 ≡ t)
  pub commit_aborted :
      (tx : sql.Tx) (db : Db)
      → seen tx ≡ none
      → ((sql.commit tx db).0 ≢ none) × (stored (sql.commit tx db).1 ≡ stored db)
  pub rolled_back : (tx : sql.Tx) (db : Db) → stored (sql.rollback tx db) ≡ stored db

-- the body of a function between Begin and Commit, with its early returns
abbrev pub Action : Type 0 → Type 0 → Type 0
Action Tx A = Tx → (Text ⊎ A) × Tx

module _ {Tx A : Type 0} where
  abbrev pub pure : A → Action Tx A
  pure a tx = (inr a, tx)

  abbrev pub bound : {B : Type 0} → (A → Action Tx B) → (Text ⊎ A) × Tx → (Text ⊎ B) × Tx
  bound f (inl e, tx) = (inl e, tx)
  bound f (inr a, tx) = f a tx

infixl 5 ◌>>=◌ ◌>>◌
abbrev pub ◌>>=◌ : {Tx A B : Type 0} → Action Tx A → (A → Action Tx B) → Action Tx B
◌>>=◌ m f tx = bound f (m tx)

abbrev pub ◌>>◌ : {Tx A B : Type 0} → Action Tx A → Action Tx B → Action Tx B
m >> k = m >>= λ _. k

module _ {Db : Type 0} (sql : Sql Db) where
  abbrev pub reported : Text → Option Text × sql.Tx → (Text ⊎ Unit {0}) × sql.Tx
  reported prefix (none, tx) = (inr tt, tx)
  reported prefix (some e, tx) = (inl (prefix ++ e), tx)

  -- `_, err = tx.Exec(…); if err != nil { return fmt.Errorf(prefix, err) }`
  unfoldable pub exec_or_return : Text → Statement → Action sql.Tx (Unit {0})
  exec_or_return prefix s tx = reported prefix (sql.exec s tx)

  module _ {A : Type 0} where
    abbrev pub committed : Text → A → Option Text × Db → Db × (Text ⊎ A)
    committed on_commit a (none, db) = (db, inr a)
    committed on_commit a (some e, db) = (db, inl (on_commit ++ e))

    abbrev pub ended : Text → Db → (Text ⊎ A) × sql.Tx → Db × (Text ⊎ A)
    ended on_commit db (inl e, tx) = (sql.rollback tx db, inl e)
    ended on_commit db (inr a, tx) = committed on_commit a (sql.commit tx db)

    abbrev pub begun : Text → Text → Action sql.Tx A → Db → Text ⊎ sql.Tx → Db × (Text ⊎ A)
    begun on_begin on_commit body db (inl e) = (db, inl (on_begin ++ e))
    begun on_begin on_commit body db (inr tx) = ended on_commit db (body tx)

    -- Begin, the body, and Commit, or the deferred Rollback after an early return; the first two
    -- texts stand before the errors of Begin and of Commit
    unfoldable pub transact : Text → Text → Action sql.Tx A → Db → Db × (Text ⊎ A)
    transact on_begin on_commit body db = begun on_begin on_commit body db (sql.begin db)

  -- the loop of such statements
  unfoldable pub exec_each : Text → List Statement → Action sql.Tx (Unit {0})
  exec_each prefix [] = pure tt
  exec_each prefix (s ∷ ss) = exec_or_return prefix s >> exec_each prefix ss
