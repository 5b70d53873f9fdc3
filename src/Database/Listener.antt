-- ===== src/Database/Listener.antt =====
-- internal/store/notify.go: the loop of Listener.Start, with its sessions.
pub mod Backoff
use dns_filter.Prelude.{
  ℕ, ◌*◌, Bool, true, false, List, [], ◌∷◌, ◌++◌, map, Text, ltb, if◌then◌else◌,
}

-- how a session of listen goes until its error: the connection or the LISTEN fails, or it is
-- subscribed, gets notifications and then loses the connection
pub data Session : Type 0 where
  not_acquired not_subscribed : Session
  subscribed : (payloads : List Text) → Session

-- what the goroutine does: a call of onNotify, and a sleep, in seconds
pub data Event : Type 0 where
  notified : Text → Event
  slept : ℕ → Event

-- Listener.listen
unfoldable pub listen : Session → List Event
listen not_acquired = []
listen not_subscribed = []
listen (subscribed payloads) = map notified payloads

abbrev pub max_backoff : ℕ
max_backoff = 60

-- `backoff *= 2; if backoff > maxBackoff { backoff = maxBackoff }`
abbrev pub grow : ℕ → ℕ
grow backoff = if ltb max_backoff (backoff * 2) then max_backoff else backoff * 2

-- the loop of Start; each session comes with whether the context is cancelled after it
unfoldable pub reconnect : ℕ → List (Session × Bool) → List Event
reconnect backoff [] = []
reconnect backoff ((s, true) ∷ rest) = listen s
reconnect backoff ((s, false) ∷ rest) = listen s ++ (slept backoff ∷ reconnect (grow backoff) rest)

-- Listener.Start
unfoldable pub start : List (Session × Bool) → List Event
unfolding reconnect listen
start sessions = reconnect 1 sessions
