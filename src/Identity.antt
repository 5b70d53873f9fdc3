-- ===== src/Identity.antt =====
-- internal/identity/resolver.go: who is behind a client address.
pub mod Priority
pub mod Sessions
pub mod Ranges
use Prim.Native.Nat.{compare, Ordering}
use dns_filter.Prelude.{
  ℕ, ◌+◌, ◌-◌, ◌/◌, ◌^◌, ◌≡◌, refl, ◌↔◌, Bool, true, false, not, ◌&&◌, List, [], ◌∷◌, ◌++◌, Option,
  none, some, arith, nat_beq, nat_beq_iff, ltb, if◌then◌else◌, Eq, ◌==◌, Text, Map, lookup, insert,
  delete, keep, length,
}

-- net.IP up to the equality of `String()`, by which sessions are keyed: a 4-byte address and its
-- 16-byte form are one, and the nil address prints as "<nil>".
pub data Ip : Type 0 where
  nil_ip : Ip
  v4 : ℕ → Ip
  v6 : ℕ → Ip

unfoldable pub ip_beq : Ip → Ip → Bool
ip_beq nil_ip nil_ip = true
ip_beq (v4 a) (v4 b) = nat_beq a b
ip_beq (v6 a) (v6 b) = nat_beq a b
ip_beq _ _ = false

pub ip_beq_iff : (a b : Ip) → (ip_beq a b ≡ true) ↔ (a ≡ b)
unfolding ip_beq
ip_beq_iff nil_ip nil_ip = (λ _. refl, λ _. refl)
ip_beq_iff (v4 a) (v4 b) = ground arith
ip_beq_iff (v6 a) (v6 b) = ground arith
ip_beq_iff _ _ = ground arith

instance abbrev pub ip_eq : Eq Ip
ip_eq = record { equals = ip_beq; equals_iff = ip_beq_iff }

-- *net.IPNet: the network address and the length of its prefix
pub record IpNet : Type 0 where
  pub address : Ip
  pub prefix : ℕ

same_prefix : Ip → Ip → ℕ → Bool
same_prefix (v4 a) (v4 b) n = nat_beq (a / 2 ^ (32 - n)) (b / 2 ^ (32 - n))
same_prefix (v6 a) (v6 b) n = nat_beq (a / 2 ^ (128 - n)) (b / 2 ^ (128 - n))
same_prefix _ _ n = false

-- IPNet.Contains: the addresses agree in their first `prefix` bits
unfoldable pub in_net : IpNet → Ip → Bool
unfolding same_prefix
in_net net ip = same_prefix net.address ip net.prefix

pub data AuthMode : Type 0 where
  auth_none auth_captive_portal : AuthMode

pub record Identity : Type 0 where
  pub user_id : ℕ
  pub username : Text
  pub group_id : ℕ
  pub auth_mode : AuthMode

pub record IpRange : Type 0 where
  pub network : IpNet
  pub group_id : ℕ
  pub auth_mode : AuthMode

pub record Session : Type 0 where
  pub client_ip : Ip
  pub user_id : ℕ
  pub username : Text
  pub group_id : ℕ
  pub expires_at : ℕ

pub record Resolver : Type 0 where
  pub sessions : Map Ip Session
  pub ranges : List IpRange
  pub default_group_id : ℕ
  pub default_auth : AuthMode

-- NewResolver
unfoldable pub new_resolver : ℕ → Resolver
new_resolver group = record {
  sessions = [];
  ranges = [];
  default_group_id = group;
  default_auth = auth_none;
}

-- the first range that holds the address, of the loops of Resolve and GetRangeGroupID
unfoldable pub find_range : List IpRange → Ip → Option IpRange
find_range [] ip = none
find_range (r ∷ rs) ip = if in_net r.network ip then some r else find_range rs ip

abbrev pub of_session : Session → Identity
of_session s = record {
  user_id = s.user_id;
  username = s.username;
  group_id = s.group_id;
  auth_mode = auth_none;
}

abbrev pub of_policy : ℕ → AuthMode → Identity
of_policy group mode = record { user_id = 0; username = []; group_id = group; auth_mode = mode }

-- priorities 2 to 4 of Resolver.Resolve
unfoldable pub resolve_range : Resolver → Ip → Identity
resolve_range r ip = elim (find_range r.ranges ip) [
  | none ↦ of_policy r.default_group_id r.default_auth
  | some range ↦ of_policy range.group_id range.auth_mode
]

-- Resolver.Resolve at the time `now`; its error is always nil
unfoldable pub resolve : Resolver → ℕ → Ip → Identity
unfolding resolve_range
resolve r now ip = elim (lookup ip r.sessions) [
  | none ↦ resolve_range r ip
  | some s ↦ if ltb now s.expires_at then of_session s else resolve_range r ip
]

-- Resolver.AddSession
unfoldable pub add_session : Session → Resolver → Resolver
add_session s r = record r { sessions = insert s.client_ip s r.sessions }

-- Resolver.RemoveSession
unfoldable pub remove_session : Ip → Resolver → Resolver
remove_session ip r = record r { sessions = delete ip r.sessions }

-- Resolver.LoadRanges
unfoldable pub load_ranges : List IpRange → Resolver → Resolver
load_ranges ranges r = record r { ranges = ranges }

-- Resolver.AddRange
unfoldable pub add_range : IpRange → Resolver → Resolver
add_range range r = record r { ranges = r.ranges ++ range ∷ [] }

-- Resolver.SessionCount
unfoldable pub session_count : Resolver → ℕ
session_count r = length r.sessions

abbrev pub has_expired : ℕ → Ip × Session → Bool
has_expired now e = ltb e.1.expires_at now

-- Resolver.EvictExpiredSessions: the new state, and how many sessions are removed
unfoldable pub evict_expired_sessions : ℕ → Resolver → Resolver × ℕ
evict_expired_sessions now r = (
  record r { sessions = keep (λ e. not (has_expired now e)) r.sessions },
  length (keep (has_expired now) r.sessions),
)

-- Resolver.GetRangeGroupID
unfoldable pub get_range_group_id : Resolver → Ip → ℕ
get_range_group_id r ip = elim (find_range r.ranges ip) [
  | none ↦ r.default_group_id
  | some range ↦ range.group_id
]
