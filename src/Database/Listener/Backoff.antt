-- ===== src/Database/Listener/Backoff.antt =====
-- What Listener.Start does over its sessions (internal/store/notify.go).
use native.Mathlib.Numerals.{towards_suc}
use dns_filter.Prelude.{
  ℕ, zero, suc, ◌+◌, ◌*◌, ◌^◌, ◌≡◌, refl, ap, ◌∙◌, Bool, true, false, List, [], ◌∷◌, ◌++◌, map,
  append-nil, Text, arith, ltb, if◌then◌else◌,
}
use dns_filter.Database.Listener.{
  Session, not_acquired, not_subscribed, subscribed, Event, notified, slept, listen, grow,
  reconnect, start,
}

-- the sleeps of a run
abbrev pub sleeps : List Event → List ℕ
sleeps [] = []
sleeps (notified p ∷ events) = sleeps events
sleeps (slept n ∷ events) = n ∷ sleeps events

abbrev pub payloads_of : List Event → List Text
payloads_of [] = []
payloads_of (notified p ∷ events) = p ∷ payloads_of events
payloads_of (slept n ∷ events) = payloads_of events

-- the sessions up to the one after which the context is cancelled
unfoldable pub ended_before : List (Session × Bool) → ℕ
ended_before [] = 0
ended_before ((s, true) ∷ rest) = 0
ended_before ((s, false) ∷ rest) = suc (ended_before rest)

abbrev pub payloads_in : Session → List Text
payloads_in (subscribed payloads) = payloads
payloads_in other = []

unfoldable pub received : List (Session × Bool) → List Text
received [] = []
received ((s, true) ∷ rest) = payloads_in s
received ((s, false) ∷ rest) = payloads_in s ++ received rest

abbrev pub capped : ℕ → ℕ
capped n = if ltb 60 n then 60 else n

-- 2 to the powers from `k` on, each 60 at most
abbrev pub powers : ℕ → ℕ → List ℕ
powers k zero = []
powers k (suc n) = capped (2 ^ k) ∷ powers (k + 1) n

grow-capped : (n : ℕ) → grow (capped n) ≡ capped (n * 2)
grow-capped n = ground arith

sleeps-map : (ps : List Text) (rest : List Event) → sleeps (map notified ps ++ rest) ≡ sleeps rest
sleeps-map [] rest = refl
sleeps-map (p ∷ ps) rest = sleeps-map ps rest

sleeps-listen : (s : Session) (rest : List Event) → sleeps (listen s ++ rest) ≡ sleeps rest
unfolding listen
sleeps-listen not_acquired rest = refl
sleeps-listen not_subscribed rest = refl
sleeps-listen (subscribed ps) rest = sleeps-map ps rest

payloads_of-map :
    (ps : List Text) (rest : List Event)
    → payloads_of (map notified ps ++ rest) ≡ ps ++ payloads_of rest
payloads_of-map [] rest = refl
payloads_of-map (p ∷ ps) rest = ap (◌∷◌ p) (payloads_of-map ps rest)

payloads_of-listen :
    (s : Session) (rest : List Event)
    → payloads_of (listen s ++ rest) ≡ payloads_in s ++ payloads_of rest
unfolding listen
payloads_of-listen not_acquired rest = refl
payloads_of-listen not_subscribed rest = refl
payloads_of-listen (subscribed ps) rest = payloads_of-map ps rest

double : (k : ℕ) → 2 ^ k * 2 ≡ 2 ^ (k + 1)
double k = simp towards_suc (omega arith)

only_payloads : (s : Session) → payloads_of (listen s) ≡ payloads_in s
only_payloads s =
    rw (← append-nil (listen s)) (payloads_of-listen s [] ∙ append-nil (payloads_in s))

reconnect-powers :
    (k : ℕ) (sessions : List (Session × Bool))
    → (sleeps (reconnect (capped (2 ^ k)) sessions) ≡ powers k (ended_before sessions))
      × (payloads_of (reconnect (capped (2 ^ k)) sessions) ≡ received sessions)
unfolding reconnect ended_before received
reconnect-powers k [] = (refl, refl)
reconnect-powers k ((s, true) ∷ rest) =
    (rw (← append-nil (listen s)) (sleeps-listen s []), only_payloads s)
reconnect-powers k ((s, false) ∷ rest) =
    let next : grow (capped (2 ^ k)) ≡ capped (2 ^ (k + 1)) =
      grow-capped (2 ^ k) ∙ ap capped (double k) in
    let later = reconnect-powers (k + 1) rest in
    rw (next, sleeps-listen, payloads_of-listen, later.0, later.1) (refl, refl)

-- Every notification of the sessions up to the cancellation is passed on, in order; the sleeps
-- between the sessions are the powers of two from 1 on, 60 at most, whatever the sessions do.
pub start-powers :
    (sessions : List (Session × Bool))
    → (payloads_of (start sessions) ≡ received sessions)
      × (sleeps (start sessions) ≡ powers 0 (ended_before sessions))
unfolding start
start-powers sessions = let both = reconnect-powers 0 sessions in (both.1, both.0)
