-- ===== src/Api/Router/Effects.antt =====
-- What the routes below AdminOnly change outside the database (internal/api/handlers.go).
use dns_filter.Prelude.{
  ℕ, ◌≡◌, ◌⊎◌, refl, inl, inr, Bool, true, false, List, [], ◌∷◌, Option, none, some, Text, codes,
}
use dns_filter.Identity.{IpNet}
use dns_filter.Api.Numbers.{atoi, ℤ}
use dns_filter.Api.Requests
use dns_filter.Api.Requests.{AdminRoute, RangeBody, Query, Command}
use dns_filter.Api.Handlers
use dns_filter.Api.Handlers.{Libs, Handlers, Body, with_id, with_body, ask, execute}
use dns_filter.Api.Router.{admin_handler}

module _ (lib : Libs) where
  -- a handler that leaves all but the database as it was
  abbrev pub KeepsServer : Handlers.Handler lib → Handlers lib → Type 0
  KeepsServer next h = (next h).0 ≡ record h { db = (next h).0.db }

  -- a handler that leaves all but the database and the resolver
  abbrev pub KeepsLists : Handlers.Handler lib → Handlers lib → Type 0
  KeepsLists next h = (next h).0 ≡ record h { db = (next h).0.db; identity = (next h).0.identity }

  -- a handler that leaves all but the database and the two lists
  abbrev pub KeepsIdentity : Handlers.Handler lib → Handlers lib → Type 0
  KeepsIdentity next h =
      (next h).0
      ≡ record h { db = (next h).0.db; black = (next h).0.black; white = (next h).0.white }

  -- a handler that leaves all as it was
  abbrev pub KeepsAll : Handlers.Handler lib → Handlers lib → Type 0
  KeepsAll next h = (next h).0 ≡ h

  abbrev Keeps : Handlers.Handler lib → Type 0
  Keeps next = (h : Handlers lib) → KeepsServer next h

  execute-Keeps :
      (c : Command) (prefix : Text) (write : ℕ → Handlers.Reply lib)
      → Keeps (execute lib c prefix write)
  execute-Keeps c prefix write h = refl

  with_number-Keeps :
      (r : ℤ × Bool) (next : ℤ → Handlers.Handler lib)
      → ((n : ℤ) → Keeps (next n))
      → Keeps (Handlers.with_number lib r next)
  with_number-Keeps (n, true) next keeps h = keeps n h
  with_number-Keeps (n, false) next keeps h = refl

  with_id-Keeps :
      (id : Text) (next : ℤ → Handlers.Handler lib)
      → ((n : ℤ) → Keeps (next n))
      → Keeps (with_id lib id next)
  with_id-Keeps id next keeps h = with_number-Keeps (atoi id) next keeps h

  with_number-KeepsAll :
      (r : ℤ × Bool) (next : ℤ → Handlers.Handler lib) (h : Handlers lib)
      → ((n : ℤ) → KeepsAll (next n) h)
      → KeepsAll (Handlers.with_number lib r next) h
  with_number-KeepsAll (n, true) next h keeps = keeps n
  with_number-KeepsAll (n, false) next h keeps = refl

  with_body-Keeps :
      {B : Type 0} (b : Option B) (next : B → Handlers.Handler lib)
      → ((x : B) → Keeps (next x))
      → Keeps (with_body lib b next)
  with_body-Keeps none next keeps h = refl
  with_body-Keeps (some b) next keeps h = keeps b h

  edit-Keeps :
      {B : Type 0} (id : Text) (b : Option B) (c : ℤ → B → Command) (write : ℕ → Handlers.Reply lib)
      → Keeps
          (with_id lib id (λ n. with_body lib b (λ x. execute lib (c n x) (codes "Erro: ") write)))
  edit-Keeps id b c write =
      with_id-Keeps id _
        (λ n. with_body-Keeps b _ (λ x. execute-Keeps (c n x) (codes "Erro: ") write))

  create-Keeps :
      {B : Type 0} (b : Option B) (c : B → Command) (prefix : Text)
      → Keeps (with_body lib b (λ x. execute lib (c x) prefix (Handlers.write_created lib)))
  create-Keeps b c prefix =
      with_body-Keeps b _ (λ x. execute-Keeps (c x) prefix (Handlers.write_created lib))

  remove-Keeps :
      (id : Text) (c : ℤ → Command)
      → Keeps
          (with_id lib id (λ n. execute lib (c n) (codes "Erro: ") (Handlers.says lib "deleted")))
  remove-Keeps id c =
      with_id-Keeps id _ (λ n. execute-Keeps (c n) (codes "Erro: ") (Handlers.says lib "deleted"))

  reload_with-lists :
      (r : Text ⊎ (List Text × List Text)) (h : Handlers lib)
      → KeepsIdentity (Handlers.reload_with lib r) h × ((Handlers.reload_with lib r h).0.db ≡ h.db)
  reload_with-lists (inl err) h = (refl, refl)
  reload_with-lists (inr x) h = (refl, refl)

  reload_if-lists :
      (r : Text ⊎ (List Text × List Text)) (db : lib.store.Db) (h : Handlers lib)
      → let after = Handlers.reload_if lib r (record h { db = db }) in
        after ≡ record h { db = after.db; black = after.black; white = after.white }
  reload_if-lists (inl err) db h = refl
  reload_if-lists (inr x) db h = refl

  download_from-KeepsIdentity :
      (r : Text ⊎ List (ℕ × Text × Text)) (h : Handlers lib)
      → KeepsIdentity (Handlers.download_from lib r) h
  download_from-KeepsIdentity (inl err) h = refl
  download_from-KeepsIdentity (inr []) h = refl
  download_from-KeepsIdentity (inr (l ∷ ls)) h =
      let (db, results) = Handlers.download_all lib (l ∷ ls) h.db [] in
      reload_if-lists (lib.store.load_active_blocklist_entries db) db h

  created_range-lists :
      (net : IpNet) (b : RangeBody) (r : Text ⊎ ℕ) (db : lib.store.Db) (h : Handlers lib)
      → let after = (Handlers.created_range lib net b r (record h { db = db })).0 in
        after ≡ record h { db = after.db; identity = after.identity }
  created_range-lists net b (inl err) db h = refl
  created_range-lists net b (inr id) db h = refl

  create_range_in-KeepsLists :
      (net : Option IpNet) (b : RangeBody) (h : Handlers lib)
      → KeepsLists (Handlers.create_range_in lib net b) h
  create_range_in-KeepsLists none b h = refl
  create_range_in-KeepsLists (some net) b h =
      let (db, result) = lib.store.execute h.db (Requests.create_ip_range b) in
      created_range-lists net b result db h

  create_range-KeepsLists :
      (b : Option RangeBody) (h : Handlers lib) → KeepsLists (Handlers.create_range lib b) h
  unfolding Handlers.create_range
  create_range-KeepsLists none h = refl
  create_range-KeepsLists (some b) h = create_range_in-KeepsLists (lib.parse_cidr b.cidr) b h

  -- What a route may change: the creation of a range the database and the resolver, the reload the
  -- two lists, the download the database and the two lists, a route that only reads no part, and
  -- every other route the database.
  abbrev pub HasEffect : AdminRoute → Handlers.Handler lib → Handlers lib → Type 0
  HasEffect (AdminRoute.create_range b) next h = KeepsLists next h
  HasEffect AdminRoute.reload_lists next h = KeepsIdentity next h × ((next h).0.db ≡ h.db)
  HasEffect AdminRoute.download_lists next h = KeepsIdentity next h
  HasEffect AdminRoute.list_users next h = KeepsAll next h
  HasEffect AdminRoute.list_groups next h = KeepsAll next h
  HasEffect AdminRoute.list_categories next h = KeepsAll next h
  HasEffect (AdminRoute.get_group_policy id) next h = KeepsAll next h
  HasEffect AdminRoute.list_blocklists next h = KeepsAll next h
  HasEffect (AdminRoute.get_blocklist_categories id) next h = KeepsAll next h
  HasEffect AdminRoute.list_ranges next h = KeepsAll next h
  HasEffect route next h = KeepsServer next h

  -- Of the routes for administrators those that read change nothing, the creation of a range changes
  -- at most the database and the resolver, the reload at most the two lists that the filter uses, the
  -- download at most these and the database, and every other route, such as the update and the
  -- removal of a range and every edit of a list, at most the database, in the request itself: what
  -- the listener does on the notice of the database (Startup.Filtering) is not part of it.
  pub admin_handler-effects :
      (route : AdminRoute) (now : ℕ) (h : Handlers lib)
      → HasEffect route (admin_handler lib route now) h
  unfolding admin_handler Handlers.reload_lists Handlers.download_lists
  admin_handler-effects (AdminRoute.create_range b) now h = create_range-KeepsLists b h
  admin_handler-effects AdminRoute.reload_lists now h =
      reload_with-lists (lib.store.load_active_blocklist_entries h.db) h
  admin_handler-effects AdminRoute.download_lists now h =
      download_from-KeepsIdentity (lib.store.external_lists h.db) h
  admin_handler-effects AdminRoute.list_users now h = refl
  admin_handler-effects (AdminRoute.create_user b) now h =
      create-Keeps b _ (codes "Erro ao criar usuário: ") h
  admin_handler-effects (AdminRoute.update_user id b) now h = edit-Keeps id b _ _ h
  admin_handler-effects (AdminRoute.delete_user id) now h = remove-Keeps id _ h
  admin_handler-effects AdminRoute.list_groups now h = refl
  admin_handler-effects (AdminRoute.create_group b) now h =
      create-Keeps b _ (codes "Erro ao criar grupo: ") h
  admin_handler-effects (AdminRoute.update_group id b) now h = edit-Keeps id b _ _ h
  admin_handler-effects (AdminRoute.delete_group id) now h = remove-Keeps id _ h
  admin_handler-effects AdminRoute.list_categories now h = refl
  admin_handler-effects (AdminRoute.get_group_policy id) now h =
      with_number-KeepsAll (atoi id) _ h (λ n. refl)
  admin_handler-effects (AdminRoute.set_group_policy id b) now h = edit-Keeps id b _ _ h
  admin_handler-effects AdminRoute.list_blocklists now h = refl
  admin_handler-effects (AdminRoute.create_blocklist b) now h = create-Keeps b _ (codes "Erro: ") h
  admin_handler-effects (AdminRoute.update_blocklist id b) now h = edit-Keeps id b _ _ h
  admin_handler-effects (AdminRoute.delete_blocklist id) now h = remove-Keeps id _ h
  admin_handler-effects (AdminRoute.add_entries id b) now h = edit-Keeps id b _ _ h
  admin_handler-effects (AdminRoute.get_blocklist_categories id) now h =
      with_number-KeepsAll (atoi id) _ h (λ n. refl)
  admin_handler-effects (AdminRoute.set_blocklist_categories id b) now h = edit-Keeps id b _ _ h
  admin_handler-effects AdminRoute.list_ranges now h = refl
  admin_handler-effects (AdminRoute.update_range id b) now h = edit-Keeps id b _ _ h
  admin_handler-effects (AdminRoute.delete_range id) now h = remove-Keeps id _ h
