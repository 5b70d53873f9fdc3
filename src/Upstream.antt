-- ===== src/Upstream.antt =====
-- internal/dns/resolver.go: the upstream servers, tried in order.
use dns_filter.Prelude.{
  ◌≡◌, refl, ap, ◌↔◌, List, [], ◌∷◌, ◌++◌, Option, none, some, arith, Text, All, Option-cases, inl,
  inr,
}
use dns_filter.Message.{Msg}

-- Client.Exchange: what a server answers to a request, if it does
abbrev pub Exchange : Type 0
Exchange = Text → Msg → Option Msg

-- Resolver.Resolve; `none` is the error that all upstreams failed
unfoldable pub resolve : Exchange → List Text → Msg → Option Msg
resolve exchange [] r = none
resolve exchange (u ∷ us) r = elim (exchange u r) [
  | none ↦ resolve exchange us r
  | some resp ↦ some resp
]

-- The answer comes from a listed server, and every server before it failed.
pub record IsFirstAnswer (exchange : Exchange) (us : List Text) (r resp : Msg) : Type 0 where
  pub failed : List Text
  pub server : Text
  pub untried : List Text
  pub places : us ≡ failed ++ (server ∷ untried)
  pub answered : exchange server r ≡ some resp
  pub all_failed : All (λ u. exchange u r ≡ none) failed

-- Where there is an answer, it is that of the first listed server that gives one.
pub resolve-IsFirstAnswer :
    (exchange : Exchange) (us : List Text) (r resp : Msg)
    → resolve exchange us r ≡ some resp
    → IsFirstAnswer exchange us r resp
unfolding resolve
resolve-IsFirstAnswer exchange [] r resp h = cc
resolve-IsFirstAnswer exchange (u ∷ us) r resp h = elim (Option-cases (exchange u r)) [
  | inl e ↦
      let more = resolve-IsFirstAnswer exchange us r resp (ground (arith, h, e)) in
      record {
        failed = u ∷ more.failed;
        server = more.server;
        untried = more.untried;
        places = ap (◌∷◌ u) more.places;
        answered = more.answered;
        all_failed = (e, more.all_failed);
      }
  | inr (m, e) ↦ record {
    failed = [];
    server = u;
    untried = us;
    places = refl;
    answered = ground (arith, h, e);
    all_failed = tt;
  }
]

-- There is an error exactly when every server fails.
pub resolve-none_iff :
    (exchange : Exchange) (us : List Text) (r : Msg)
    → (resolve exchange us r ≡ none) ↔ All (λ u. exchange u r ≡ none) us
unfolding resolve
resolve-none_iff exchange [] r = (λ _. tt, λ _. refl)
resolve-none_iff exchange (u ∷ us) r = ground (arith, resolve-none_iff exchange us r)
