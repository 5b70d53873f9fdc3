-- ===== src/RateLimit.antt =====
-- internal/api/ratelimit.go: the limit on requests by client.
pub mod Clients
use dns_filter.Prelude.{
  ℕ, ◌+◌, ◌*◌, ◌-◌, Bool, true, false, not, List, [], ◌∷◌, Option, none, some, ltb, if◌then◌else◌,
  Text, text_eq, is_empty, Map, lookup, insert, keep,
}

-- golang.org/x/time/rate: a limiter, made from a rate and a burst, and its Allow at a time
pub record Rate : Type 1 where
  pub Limiter : Type 0
  pub new_limiter : ℕ → ℕ → Limiter
  pub allow : ℕ → Limiter → Limiter × Bool

module _ (lib : Rate) where
  pub record Visitor : Type 0 where
    pub limiter : lib.Limiter
    pub last_seen : ℕ

  pub record RateLimiter : Type 0 where
    pub visitors : Map Text Visitor
    pub rate : ℕ
    pub burst : ℕ

  -- NewRateLimiter
  unfoldable pub new_rate_limiter : ℕ → ℕ → RateLimiter
  new_rate_limiter r burst = record { visitors = []; rate = r; burst = burst }

  -- the visitor that getVisitor finds or makes
  unfoldable pub found_visitor : ℕ → Text → RateLimiter → Visitor
  found_visitor now ip rl = elim (lookup ip rl.visitors) [
    | none ↦ record { limiter = lib.new_limiter rl.rate rl.burst; last_seen = now }
    | some v ↦ record v { last_seen = now }
  ]

  -- RateLimiter.getVisitor, with the limiter that it returns written back after its Allow
  unfoldable pub take_token : ℕ → Text → RateLimiter → RateLimiter × Bool
  unfolding found_visitor
  take_token now ip rl =
      let v = found_visitor now ip rl in
      let (limiter, ok) = lib.allow now v.limiter in
      (record rl { visitors = insert ip (record v { limiter = limiter }) rl.visitors }, ok)

  -- `time.Since(v.lastSeen) > 3*time.Minute`
  abbrev pub is_idle : ℕ → Text × Visitor → Bool
  is_idle now e = ltb (3 * 60 * 1000000000) (now - e.1.last_seen)

  -- one round of RateLimiter.cleanup
  unfoldable pub cleanup : ℕ → RateLimiter → RateLimiter
  cleanup now rl = record rl { visitors = keep (λ e. not (is_idle now e)) rl.visitors }

  -- the client of a request: the header X-Real-IP, if it is there, else the remote address
  unfoldable pub client_of : Text → Text → Text
  client_of remote_addr real_ip = if is_empty real_ip then remote_addr else real_ip

  -- RateLimiter.Middleware: `none` is the 429, else the next handler's response
  unfoldable pub middleware {ℓ} :
      {R : Type ℓ} → ℕ → Text → Text → R → RateLimiter → RateLimiter × Option R
  unfolding client_of
  middleware now remote_addr real_ip next rl =
      let (rl', ok) = take_token now (client_of remote_addr real_ip) rl in
      (rl', if ok then some next else none)
