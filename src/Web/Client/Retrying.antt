-- ===== src/Web/Client/Retrying.antt =====
-- A request of web/src/api/client.ts ends: the interceptors send it again at most once.
use dns_filter.Prelude.{
  ℕ, suc, ◌≡◌, refl, ap, ◌∙◌, inl, inr, true, false, not, ◌&&◌, Option, none, some, Text, arith,
  Bool-cases, Option-cases,
}
use dns_filter.Web.Client.{
  Browser, Config, Outcome, usable, bearer, is_unauthorized, on_request, authorize, on_error,
  ask_refresh, on_refreshed, Answer, success, failure, End, after_refresh, after_failure,
  after_answer, request,
}

abbrev Sender : Type 0
Sender = Browser → Config → Option End

-- A request that has been sent again is not refreshed, whatever its answer.
retried-on_error :
    (status : Option ℕ) (b : Browser) (c : Config)
    → c.has_retried ≡ true
    → on_error status b c ≡ (b, Outcome.rejected)
unfolding on_error
retried-on_error status b c retried = ground (arith, retried)

on_request-has_retried : (b : Browser) (c : Config) → (on_request b c).has_retried ≡ c.has_retried
unfolding on_request authorize
on_request-has_retried b c = elim (Option-cases (usable b.token)) [
  | inl e ↦ rw (authorize, e)
  | inr (t, e) ↦ rw (authorize, e)
]

-- the end of such a request
abbrev retried_end : Answer → Browser → End
retried_end success b = (b, true)
retried_end (failure status) b = (b, false)

retried-after_answer :
    (again : Sender) (renewed : Option Text) (b : Browser) (c : Config) (a : Answer)
    → c.has_retried ≡ true
    → after_answer again renewed b c a ≡ some (retried_end a b)
retried-after_answer again renewed b c success retried = refl
retried-after_answer again renewed b c (failure status) retried =
    rw (retried-on_error status b c retried)

retried-request :
    (fuel : ℕ) (server : ℕ → Answer) (renewed : Option Text) (b : Browser) (c : Config)
    → c.has_retried ≡ true
    → request (suc fuel) server renewed b c ≡ some (retried_end (server 0) b)
unfolding request
retried-request fuel server renewed b c retried =
    retried-after_answer (request fuel (λ n. server (suc n)) renewed) renewed b c (server 0) retried

-- a sender that ends every request that has been sent again, as `end` says
abbrev Ends : (Browser → End) → Sender → Type 0
Ends end again = (b : Browser) (c : Config) → c.has_retried ≡ true → again b c ≡ some (end b)

-- what follows the refresh of such a request
refreshed-Ends :
    (end : Browser → End) (renewed : Option Text) (b : Browser) (c : Config)
    → c.has_retried ≡ true
    → (e : End) × ((again : Sender)
        → Ends end again
        → after_refresh again (on_refreshed renewed b c) ≡ some e)
unfolding on_refreshed
refreshed-Ends end none b c retried = (_, λ again ends. refl)
refreshed-Ends end (some t) b c retried =
    let b' : Browser = record b { token = some t; is_refreshing = false } in
    let c' : Config = record c { authorization = some (bearer t) } in
    (end b', λ again ends. ends b' (on_request b' c') (on_request-has_retried b' c' ∙ retried))

asked-Ends :
    (end : Browser → End) (renewed : Option Text) (token : Option Text) (b : Browser) (c : Config)
    → (e : End) × ((again : Sender)
        → Ends end again
        → after_failure again renewed (ask_refresh token b c) ≡ some e)
unfolding ask_refresh
asked-Ends end renewed none b c = (_, λ again ends. refl)
asked-Ends end renewed (some t) b c = refreshed-Ends end renewed _ _ refl

on_error-asks :
    (status : Option ℕ) (b : Browser) (c : Config)
    → (is_unauthorized status && not c.has_retried) ≡ true
    → b.is_refreshing ≡ false
    → on_error status b c ≡ ask_refresh (usable b.token) b c
unfolding on_error
on_error-asks status b c handled free = simp (handled, free)

failed-Ends :
    (end : Browser → End) (renewed : Option Text) (status : Option ℕ) (b : Browser) (c : Config)
    → (e : End) × ((again : Sender)
        → Ends end again
        → after_failure again renewed (on_error status b c) ≡ some e)
unfolding on_error
failed-Ends end renewed status b c =
    elim (Bool-cases (is_unauthorized status && not c.has_retried)) [
      | inl handled ↦ elim (Bool-cases b.is_refreshing) [
        | inl busy ↦
            ((record b { token = none; at_login = true }, false), λ again ends. rw (handled, busy))
        | inr free ↦
            let (e, asked) = asked-Ends end renewed (usable b.token) b c in
            (
              e,
              λ again ends.
                  ap (after_failure again renewed) (on_error-asks status b c handled free)
                  ∙ asked again ends,
            )
      ]
      | inr passed ↦ ((b, false), λ again ends. rw passed)
    ]

answered-Ends :
    (end : Browser → End) (renewed : Option Text) (b : Browser) (c : Config) (a : Answer)
    → (e : End) × ((again : Sender) → Ends end again → after_answer again renewed b c a ≡ some e)
answered-Ends end renewed b c success = ((b, true), λ again ends. refl)
answered-Ends end renewed b c (failure status) = failed-Ends end renewed status b c

-- Whatever the server answers to the request and to the refresh, and where nothing else touches the
-- browser meanwhile, the request ends after being sent twice at most: with fuel for two sends it has
-- an outcome, and more fuel gives the same.
pub request-ends :
    (server : ℕ → Answer) (renewed : Option Text) (b : Browser) (c : Config)
    → (e : End) × ((fuel : ℕ) → request (suc (suc fuel)) server renewed b c ≡ some e)
unfolding request
request-ends server renewed b c =
    let (e, ends) = answered-Ends (retried_end (server 1)) renewed b c (server 0) in
    (
      e,
      λ fuel.
          ends (request (suc fuel) (λ n. server (suc n)) renewed)
            (λ b' c' retried. retried-request fuel (λ n. server (suc n)) renewed b' c' retried),
    )
