-- ===== src/Identity/Sessions.antt =====
-- The life of a session (internal/identity/resolver.go): login, logout, expiry, eviction.
use dns_filter.Prelude.{
  ℕ, ◌+◌, ◌<◌, ◌≤◌, ◌≡◌, inl, inr, ◌≢◌, not, [], ◌∷◌, arith, ltb, Map, lookup-insert, lookup-delete,
  lookup-keep, insert-Distinct, delete-Distinct, keep-Distinct, Distinct, Bool-cases, if◌then◌else◌,
  ◌==◌, keep, length, All,
}
use dns_filter.Identity.{
  Ip, ip_eq, ip_beq, ip_beq_iff, Session, Resolver, of_session, resolve_range, resolve, add_session,
  remove_session, evict_expired_sessions, has_expired, session_count,
}

-- No address has two sessions.
abbrev pub IsValid : Resolver → Type 0
IsValid r = Distinct r.sessions

-- Every operation on sessions keeps the invariant.
pub sessions-IsValid :
    (r : Resolver) (s : Session) (ip : Ip) (now : ℕ)
    → IsValid r
    → IsValid (add_session s r)
      × IsValid (remove_session ip r)
      × IsValid (evict_expired_sessions now r).0
unfolding add_session remove_session evict_expired_sessions
sessions-IsValid r s ip now d = (
  insert-Distinct s.client_ip s r.sessions d,
  delete-Distinct ip r.sessions d,
  keep-Distinct (λ e. not (has_expired now e)) r.sessions d,
)

pub add_session_lem :
    (r : Resolver) (s : Session) (now : ℕ) (ip : Ip)
    → (now < s.expires_at → resolve (add_session s r) now s.client_ip ≡ of_session s)
      × (s.expires_at ≤ now
          → resolve (add_session s r) now s.client_ip ≡ resolve_range r s.client_ip)
      × (ip ≢ s.client_ip → resolve (add_session s r) now ip ≡ resolve r now ip)
unfolding resolve add_session resolve_range
add_session_lem r s now ip = (
  λ h. ground (
    arith,
    lookup-insert s.client_ip s.client_ip s r.sessions,
    ip_beq_iff s.client_ip s.client_ip,
  ),
  λ h. ground (
    arith,
    lookup-insert s.client_ip s.client_ip s r.sessions,
    ip_beq_iff s.client_ip s.client_ip,
  ),
  λ ne. ground (arith, lookup-insert s.client_ip ip s r.sessions, ip_beq_iff s.client_ip ip, ne),
)

-- After a login its address resolves to the session's user and group, without a login, while the
-- session runs, and to its range from then on; every other address resolves as before.
pub resolve-add_session :
    (r : Resolver) (s : Session) (now : ℕ) (ip : Ip)
    → resolve (add_session s r) now ip ≡ (
        if ip == s.client_ip
        then (if ltb now s.expires_at then of_session s else resolve_range r ip)
        else resolve r now ip)
unfolding resolve add_session resolve_range
resolve-add_session r s now ip = elim (Bool-cases (ip_beq ip s.client_ip)) [
  | inl e ↦ ground (
    arith,
    lookup-insert s.client_ip ip s r.sessions,
    ip_beq_iff ip s.client_ip,
    ip_beq_iff s.client_ip ip,
    e,
  )
  | inr e ↦ ground (
    arith,
    lookup-insert s.client_ip ip s r.sessions,
    ip_beq_iff ip s.client_ip,
    ip_beq_iff s.client_ip ip,
    e,
  )
]

-- A logout takes the address back to its range, and leaves every other address as it was.
pub resolve-remove_session :
    (r : Resolver) (gone : Ip) (now : ℕ) (ip : Ip)
    → resolve (remove_session gone r) now ip
      ≡ (if ip == gone then resolve_range r ip else resolve r now ip)
unfolding resolve remove_session resolve_range
resolve-remove_session r gone now ip = elim (Bool-cases (ip_beq ip gone)) [
  | inl e ↦
      ground (arith, lookup-delete gone ip r.sessions, ip_beq_iff ip gone, ip_beq_iff gone ip, e)
  | inr e ↦
      ground (arith, lookup-delete gone ip r.sessions, ip_beq_iff ip gone, ip_beq_iff gone ip, e)
]

-- Where no address has two sessions the evictor is never seen: from its time on, every address
-- resolves as if it had not run.
pub resolve-evict_expired_sessions :
    (r : Resolver) (now later : ℕ) (ip : Ip)
    → IsValid r
    → now ≤ later
    → resolve (evict_expired_sessions now r).0 later ip ≡ resolve r later ip
unfolding resolve evict_expired_sessions resolve_range
resolve-evict_expired_sessions r now later ip d h =
    ground (arith, lookup-keep (λ e. not (has_expired now e)) ip r.sessions d)

length-keep :
    (now : ℕ) (m : Map Ip Session)
    → length (keep (λ e. not (has_expired now e)) m) + length (keep (has_expired now) m) ≡ length m
length-keep now [] = omega arith
length-keep now (e ∷ m) = ground (arith, length-keep now m)

kept :
    (now : ℕ) (m : Map Ip Session)
    → All (λ e. now ≤ e.1.expires_at) (keep (λ e. not (has_expired now e)) m)
kept now [] = tt
kept now (e ∷ m) = ground (arith, kept now m)

-- The count that the evictor reports is the number of sessions that it takes away, and those
-- that stay have not run out.
pub evict_expired_sessions-count :
    (r : Resolver) (now : ℕ)
    → let (r', removed) = evict_expired_sessions now r in
      (session_count r' + removed ≡ session_count r) × All (λ e. now ≤ e.1.expires_at) r'.sessions
unfolding evict_expired_sessions session_count
evict_expired_sessions-count r now = (length-keep now r.sessions, kept now r.sessions)
