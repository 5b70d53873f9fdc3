-- ===== src/Database/Transactions/Atomic.antt =====
-- A transaction is carried out or leaves the tables alone (internal/store).
use dns_filter.Prelude.{◌⊎◌, inl, inr, List, [], ◌∷◌, Option, none, some, Text, ◌≡◌, refl}
use dns_filter.Database.Tables.{Statement, Tables, run}
use dns_filter.Database.Transactions.{
  Sql, View, Action, transact, begun, ended, committed, bound, ◌>>=◌, ◌>>◌, reported,
  exec_or_return, pure, exec_each,
}

unfoldable pub run_all : List Statement → Tables → Tables
run_all [] t = t
run_all (s ∷ ss) t = run_all ss (run s t)

module _ {Db : Type 0} {sql : Sql Db} (view : View sql) where
  module _ {A : Type 0} (value : A) (f : Tables → Tables) where
    -- where the result is no error, it is the value, and the transaction sees the tables changed
    abbrev pub Sees : Tables → (Text ⊎ A) × sql.Tx → Type 0
    Sees t (inl e, tx) = Unit
    Sees t (inr a, tx) = (a ≡ value) × (view.seen tx ≡ some (f t))

    abbrev pub Performs : Action sql.Tx A → Type 0
    Performs m = (tx : sql.Tx) (t : Tables) → view.seen tx ≡ some t → Sees t (m tx)

    -- With the value the tables have changed; with an error they are as they were, or it is the
    -- error of a commit that the server has carried out.
    abbrev pub IsAtomic : Tables → Db × (Text ⊎ A) → Type 0
    IsAtomic t (db, inl e) = (view.stored db ≡ t) ⊎ (view.stored db ≡ f t)
    IsAtomic t (db, inr a) = (a ≡ value) × (view.stored db ≡ f t)

    committed-IsAtomic :
        (on_commit : Text) (a : A) (tx : sql.Tx) (db : Db)
        → a ≡ value
        → view.seen tx ≡ some (f (view.stored db))
        → IsAtomic (view.stored db) (committed sql on_commit a (sql.commit tx db))
    committed-IsAtomic on_commit a tx db same sees =
        by_result (sql.commit tx db) (view.commit_done tx db (f (view.stored db)) sees)
          (view.commit_failed tx db (f (view.stored db)) sees)
      where
        by_result :
            (r : Option Text × Db)
            → (r.0 ≡ none → view.stored r.1 ≡ f (view.stored db))
            → (view.stored r.1 ≡ view.stored db) ⊎ (view.stored r.1 ≡ f (view.stored db))
            → IsAtomic (view.stored db) (committed sql on_commit a r)
        by_result (none, after) done unsure = (same, done refl)
        by_result (some e, after) done unsure = unsure

    ended-IsAtomic :
        (on_commit : Text) (db : Db) (r : (Text ⊎ A) × sql.Tx)
        → Sees (view.stored db) r
        → IsAtomic (view.stored db) (ended sql on_commit db r)
    ended-IsAtomic on_commit db (inl e, tx) h = inl (view.rolled_back tx db)
    ended-IsAtomic on_commit db (inr a, tx) (same, sees) =
        committed-IsAtomic on_commit a tx db same sees

    pub transact-IsAtomic :
        (on_begin on_commit : Text) (body : Action sql.Tx A) (db : Db)
        → Performs body
        → IsAtomic (view.stored db) (transact sql on_begin on_commit body db)
    unfolding transact
    transact-IsAtomic on_begin on_commit body db h =
        by_result (sql.begin db) (λ tx began. h tx (view.stored db) (view.begin_seen db tx began))
      where
        by_result :
            (r : Text ⊎ sql.Tx)
            → ((tx : sql.Tx) → r ≡ inr tx → Sees (view.stored db) (body tx))
            → IsAtomic (view.stored db) (begun sql on_begin on_commit body db r)
        by_result (inl e) k = inl refl
        by_result (inr tx) k = ended-IsAtomic on_commit db (body tx) (k tx refl)

  pub pure-Performs : {A : Type 0} (a : A) → Performs a (λ t. t) (pure a)
  pure-Performs a tx t h = (refl, h)

  pub >>=-Performs :
      {A B : Type 0} (m : Action sql.Tx A) (k : A → Action sql.Tx B) (a : A) (b : B)
      (f g : Tables → Tables)
      → Performs a f m
      → Performs b g (k a)
      → Performs b (λ t. g (f t)) (m >>= k)
  >>=-Performs {A} {B} m k a b f g hm hk tx t sees = by_result (m tx) (hm tx t sees)
    where
      by_result : (r : (Text ⊎ A) × sql.Tx) → Sees a f t r → Sees b (λ t. g (f t)) t (bound k r)
      by_result (inl e, after) h = tt
      by_result (inr x, after) (same, now) = rw same (hk after (f t) now)

  pub exec_or_return-Performs :
      (prefix : Text) (s : Statement) → Performs tt (run s) (exec_or_return sql prefix s)
  unfolding exec_or_return
  exec_or_return-Performs prefix s tx t sees =
      by_result (sql.exec s tx) (view.exec_done s tx t sees)
    where
      by_result :
          (r : Option Text × sql.Tx)
          → (r.0 ≡ none → view.seen r.1 ≡ some (run s t))
          → Sees tt (run s) t (reported sql prefix r)
      by_result (none, after) done = (refl, done refl)
      by_result (some e, after) done = tt

  pub exec_each-Performs :
      (prefix : Text) (ss : List Statement) → Performs tt (run_all ss) (exec_each sql prefix ss)
  unfolding exec_each run_all
  exec_each-Performs prefix [] = pure-Performs tt
  exec_each-Performs prefix (s ∷ ss) =
      >>=-Performs (exec_or_return sql prefix s) (λ _. exec_each sql prefix ss) tt tt (run s)
        (run_all ss) (exec_or_return-Performs prefix s) (exec_each-Performs prefix ss)

  IsAtomic-ext :
      {A : Type 0} (value : A) (f g : Tables → Tables) (t : Tables) (r : Db × (Text ⊎ A))
      → f t ≡ g t
      → IsAtomic value f t r
      → IsAtomic value g t r
  IsAtomic-ext value f g t (db, inl e) same h = rw (← same) h
  IsAtomic-ext value f g t (db, inr a) same h = rw (← same) h

  -- one statement, then a loop of others, which together make the change `g`
  pub replace-IsAtomic :
      (g : Tables → Tables) (on_begin on_commit p q : Text) (s : Statement) (ss : List Statement)
      (db : Db)
      → run_all ss (run s (view.stored db)) ≡ g (view.stored db)
      → IsAtomic tt g
          (view.stored db)
          (transact sql on_begin on_commit (exec_or_return sql p s >> exec_each sql q ss) db)
  replace-IsAtomic g on_begin on_commit p q s ss db same =
      let f = λ (t : Tables). run_all ss (run s t) in
      let body = exec_or_return sql p s >> exec_each sql q ss in
      IsAtomic-ext tt f g (view.stored db) (transact sql on_begin on_commit body db) same (
        transact-IsAtomic tt f on_begin on_commit body db (
          >>=-Performs (exec_or_return sql p s) (λ _. exec_each sql q ss) tt tt (run s) (run_all ss)
            (exec_or_return-Performs p s) (exec_each-Performs q ss)))

  pub either_stored :
      {A : Type 0} (value : A) (f : Tables → Tables) (t : Tables) (r : Db × (Text ⊎ A))
      → IsAtomic value f t r
      → (view.stored r.0 ≡ t) ⊎ (view.stored r.0 ≡ f t)
  either_stored value f t (db, inl e) h = h
  either_stored value f t (db, inr a) h = inr h.1
