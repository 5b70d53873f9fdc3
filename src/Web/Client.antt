-- ===== src/Web/Client.antt =====
-- web/src/api/client.ts: the interceptors of the API client. The browser is what they share: the
-- token in localStorage, the flag isRefreshing, and whether the page was sent to /login.
pub mod Refreshing
pub mod Retrying
use dns_filter.Prelude.{
  ℕ, zero, suc, ◌≡◌, Bool, true, false, not, ◌&&◌, ◌||◌, List, [], ◌∷◌, ◌++◌, Option, none, some,
  Text, codes, is_empty, if◌then◌else◌, ◌==◌, nat_eq,
}

pub record Browser : Type 0 where
  pub token : Option Text
  pub is_refreshing : Bool
  pub at_login : Bool

-- A request's configuration, as far as the interceptors read it.
pub record Config : Type 0 where
  pub method : Text
  pub url : Text
  pub authorization : Option Text
  pub has_retried : Bool

-- What an interceptor of responses gives: the error again, the token that it asks to refresh, or
-- the request that it sends again.
pub data Outcome : Type 0 where
  rejected : Outcome
  refreshes : Text → Config → Outcome
  sends : Config → Outcome

-- `if (token)` for localStorage.getItem('token')
abbrev pub usable : Option Text → Option Text
usable none = none
usable (some t) = if is_empty t then none else some t

abbrev pub bearer : Text → Text
bearer t = codes "Bearer " ++ t

-- The interceptor of requests
authorize : Option Text → Config → Config
authorize none c = c
authorize (some t) c = record c { authorization = some (bearer t) }

unfoldable pub on_request : Browser → Config → Config
unfolding authorize
on_request b c = authorize (usable b.token) c

-- `localStorage.removeItem('token'); window.location.href = '/login'`
abbrev pub logged_out : Browser → Browser
logged_out b = record b { token = none; at_login = true }

-- The interceptor of errors up to `axios.post('/api/auth/refresh')`: with no token it throws
ask_refresh : Option Text → Browser → Config → Browser × Outcome
ask_refresh none b c = (record b { is_refreshing = false; token = none; at_login = true }, rejected)
ask_refresh (some t) b c =
    (record b { is_refreshing = true }, refreshes t (record c { has_retried = true }))

-- `error.response?.status === 401`
abbrev pub is_unauthorized : Option ℕ → Bool
is_unauthorized none = false
is_unauthorized (some status) = status == 401

unfoldable pub on_error : Option ℕ → Browser → Config → Browser × Outcome
unfolding ask_refresh
on_error status b c =
    if is_unauthorized status && not c.has_retried
    then (if b.is_refreshing then (logged_out b, rejected) else ask_refresh (usable b.token) b c)
    else (b, rejected)

-- The rest of it, on the new token of the answer; the request goes through the interceptor of
-- requests again.
unfoldable pub on_refreshed : Option Text → Browser → Config → Browser × Outcome
unfolding on_request authorize
on_refreshed none b c =
    (record b { is_refreshing = false; token = none; at_login = true }, rejected)
on_refreshed (some t) b c =
    let b' : Browser = record b { token = some t; is_refreshing = false } in
    (b', sends (on_request b' (record c { authorization = some (bearer t) })))

-- How the server answers a request: with success, or with an error and its status.
pub data Answer : Type 0 where
  success : Answer
  failure : Option ℕ → Answer

-- what a request of the pages ends in, and whether it succeeds
abbrev pub End : Type 0
End = Browser × Bool

-- what follows the two interceptors of an error, for the answer of the refresh; `again` sends
abbrev pub after_refresh : (Browser → Config → Option End) → Browser × Outcome → Option End
after_refresh again (b, rejected) = some (b, false)
after_refresh again (b, refreshes t c) = some (b, false)
after_refresh again (b, sends c) = again b c

abbrev pub after_failure :
    (Browser → Config → Option End) → Option Text → Browser × Outcome → Option End
after_failure again renewed (b, rejected) = some (b, false)
after_failure again renewed (b, refreshes t c) = after_refresh again (on_refreshed renewed b c)
after_failure again renewed (b, sends c) = again b c

abbrev pub after_answer :
    (Browser → Config → Option End) → Option Text → Browser → Config → Answer → Option End
after_answer again renewed b c success = some (b, true)
after_answer again renewed b c (failure status) = after_failure again renewed (on_error status b c)

-- `api(config)` for a configuration that has passed the interceptor of requests, with the interceptor
-- of its answer: the server gives its answers in order, and `renewed` to a refresh; none where the
-- fuel is used up
unfoldable pub request : ℕ → (ℕ → Answer) → Option Text → Browser → Config → Option End
request zero server renewed b c = none
request (suc fuel) server renewed b c =
    after_answer (request fuel (λ n. server (suc n)) renewed) renewed b c (server 0)
