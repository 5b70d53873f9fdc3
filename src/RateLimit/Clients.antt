-- ===== src/RateLimit/Clients.antt =====
-- Clients do not disturb one another (internal/api/ratelimit.go).
use dns_filter.Prelude.{
  Bool-cases, ℕ, ◌*◌, ◌-◌, ◌≡◌, refl, ◌≢◌, inl, inr, false, not, some, arith, Text, text_eq,
  text_beq_iff, is_empty, lookup, lookup-insert, lookup-keep, Distinct, if◌then◌else◌, ltb,
}
use dns_filter.RateLimit.{
  Rate, Visitor, RateLimiter, found_visitor, take_token, is_idle, cleanup, client_of, middleware,
}

module _ (lib : Rate) where
  -- the limiter that the next request of a client meets
  abbrev pub next_limiter : ℕ → Text → RateLimiter lib → lib.Limiter
  next_limiter now ip rl = (found_visitor lib now ip rl).limiter

  -- A request of a client is decided by its own limiter, which it leaves behind for its next
  -- request; the limiters of all other clients stay as they are.
  pub take_token_lem :
      (now later : ℕ) (ip other : Text) (rl : RateLimiter lib)
      → other ≢ ip
      → let (rl', ok) = take_token lib now ip rl in
        (ok ≡ (lib.allow now (next_limiter now ip rl)).1)
        × (next_limiter later ip rl' ≡ (lib.allow now (next_limiter now ip rl)).0)
        × (next_limiter later other rl' ≡ next_limiter later other rl)
  unfolding take_token found_visitor
  take_token_lem now later ip other rl ne = (
    refl,
    ground (
      arith,
      lookup-insert ip ip
          (record (found_visitor lib now ip rl) {
            limiter = (lib.allow now (next_limiter now ip rl)).0;
          })
          rl.visitors,
      text_beq_iff ip ip,
    ),
    ground (
      arith,
      lookup-insert ip other
          (record (found_visitor lib now ip rl) {
            limiter = (lib.allow now (next_limiter now ip rl)).0;
          })
          rl.visitors,
      text_beq_iff ip other,
      ne,
    ),
  )

  -- In a table with no client twice, the cleanup is not felt by a known client that was seen in
  -- the last three minutes; one that was not starts again with a full limiter.
  pub cleanup_lem :
      (now later : ℕ) (ip : Text) (rl : RateLimiter lib) (v : Visitor lib)
      → Distinct rl.visitors
      → lookup ip rl.visitors ≡ some v
      → next_limiter later ip (cleanup lib now rl) ≡ (
          if ltb (3 * 60 * 1000000000) (now - v.last_seen)
          then lib.new_limiter rl.rate rl.burst
          else next_limiter later ip rl)
  unfolding cleanup found_visitor
  cleanup_lem now later ip rl v d has =
      let kept = lookup-keep (λ e. not (is_idle lib now e)) ip rl.visitors d in
      elim (Bool-cases (ltb (3 * 60 * 1000000000) (now - v.last_seen))) [
        | inl h ↦ ground (arith, kept, has, h)
        | inr h ↦ ground (arith, kept, has, h)
      ]

  -- With the header X-Real-IP a request counts for the client that it names, whatever address it
  -- comes from.
  pub middleware_real_ip :
      {R : Type 0} (now : ℕ) (remote remote' real_ip : Text) (next : R) (rl : RateLimiter lib)
      → is_empty real_ip ≡ false
      → middleware lib now remote real_ip next rl ≡ middleware lib now remote' real_ip next rl
  unfolding middleware client_of
  middleware_real_ip now remote remote' real_ip next rl full = rw full
