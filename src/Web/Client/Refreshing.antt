-- ===== src/Web/Client/Refreshing.antt =====
-- The requests of web/src/api/client.ts that fail and the refreshes that they start, in any order.
use dns_filter.Prelude.{
  ℕ, ◌≡◌, ◌⊎◌, inl, inr, true, false, not, ◌&&◌, List, [], ◌∷◌, ◌++◌, Option, none, some, Text,
  arith, nat_eq, Bool-cases, Option-cases,
}
use dns_filter.Web.Client.{
  Browser, Config, Outcome, usable, is_unauthorized, on_error, on_refreshed,
}

-- The browser, with the requests whose refresh is not answered yet.
pub record World : Type 0 where
  pub browser : Browser
  pub waiting : List Config

abbrev pub wait_for : Outcome → List Config → List Config
wait_for Outcome.rejected ws = ws
wait_for (Outcome.refreshes t c) ws = ws ++ (c ∷ [])
wait_for (Outcome.sends c) ws = ws

abbrev pub after_error : Browser × Outcome → List Config → World
after_error (b, o) ws = record { browser = b; waiting = wait_for o ws }

abbrev pub after_answer : Browser × Outcome → List Config → World
after_answer (b, o) ws = record { browser = b; waiting = ws }

pub data Step (w : World) : World → Type 0 where
  fails :
      (status : Option ℕ) (c : Config)
      → Step w (after_error (on_error status w.browser c) w.waiting)
  answers :
      (reply : Option Text) (c : Config) (ws : List Config)
      → w.waiting ≡ c ∷ ws
      → Step w (after_answer (on_refreshed reply w.browser c) ws)

pub data Reach (w : World) : World → Type 0 where
  here : Reach w w
  next : {u v : World} → Reach w u → Step u v → Reach w v

abbrev pub IsIdle : World → Type 0
IsIdle w = (w.waiting ≡ []) × (w.browser.is_refreshing ≡ false)

abbrev pub IsBusy : World → Type 0
IsBusy w = (c : Config) × (w.waiting ≡ c ∷ []) × (w.browser.is_refreshing ≡ true)

-- A refresh is waited for exactly while the flag is up, and never more than one.
abbrev pub IsSingle : World → Type 0
IsSingle w = IsIdle w ⊎ IsBusy w

ask_refresh_lem :
    (status : Option ℕ) (b : Browser) (c : Config) (ws : List Config)
    → (is_unauthorized status && not c.has_retried) ≡ true
    → b.is_refreshing ≡ false
    → ws ≡ []
    → IsSingle (after_error (on_error status b c) ws)
unfolding on_error
ask_refresh_lem status b c ws handled free none_waits = elim (Option-cases (usable b.token)) [
  | inl e ↦ ground (arith, handled, free, none_waits, e)
  | inr (t, e) ↦ ground (arith, handled, free, none_waits, e)
]

on_error-IsSingle :
    (status : Option ℕ) (c : Config) (w : World)
    → IsSingle w
    → IsSingle (after_error (on_error status w.browser c) w.waiting)
unfolding on_error
on_error-IsSingle status c w s = elim (Bool-cases (is_unauthorized status && not c.has_retried)) [
  | inl handled ↦ elim s [
    | inl (waits, free) ↦ ask_refresh_lem status w.browser c w.waiting handled free waits
    | inr (d, waits, busy) ↦ ground (arith, handled, waits, busy)
  ]
  | inr passed ↦ ground (arith, passed, s)
]

on_refreshed-IsSingle :
    (reply : Option Text) (c : Config) (ws : List Config) (w : World)
    → w.waiting ≡ c ∷ ws
    → IsSingle w
    → IsSingle (after_answer (on_refreshed reply w.browser c) ws)
unfolding on_refreshed
on_refreshed-IsSingle none c ws w e s = ground (arith, e, s)
on_refreshed-IsSingle (some t) c ws w e s = ground (arith, e, s)

Step-IsSingle : (u v : World) → Step u v → IsSingle u → IsSingle v
Step-IsSingle u _ (fails status c) s = on_error-IsSingle status c u s
Step-IsSingle u _ (answers reply c ws e) s = on_refreshed-IsSingle reply c ws u e s

-- From a client that waits for no refresh and has its flag down, whatever requests fail and
-- however the refreshes are answered, one refresh at most is under way, and one is exactly while
-- isRefreshing is set.
pub Reach-IsSingle : (u v : World) → Reach u v → IsIdle u → IsSingle v
Reach-IsSingle w _ here s = inl s
Reach-IsSingle w z (next {u} r st) s = Step-IsSingle u z st (Reach-IsSingle w u r s)

-- Where there is a token and two fresh requests fail with 401 before the first's refresh is
-- answered, and it succeeds, the second is rejected and the user sent to /login, although the new
-- token is stored.
pub second_unauthorized :
    (b : Browser) (c d : Config) (t t' : Text)
    → b.is_refreshing ≡ false
    → usable b.token ≡ some t
    → c.has_retried ≡ false
    → d.has_retried ≡ false
    → let (b1, first) = on_error (some 401) b c in
      let (b2, second) = on_error (some 401) b1 d in
      let (b3, last) = on_refreshed (some t') b2 (record c { has_retried = true }) in
      (second ≡ Outcome.rejected) × (b3.at_login ≡ true) × (b3.token ≡ some t')
unfolding on_error on_refreshed
second_unauthorized b c d t t' free has_token fresh_c fresh_d =
    ground (arith, free, has_token, fresh_c, fresh_d)
