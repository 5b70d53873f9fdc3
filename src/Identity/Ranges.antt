-- ===== src/Identity/Ranges.antt =====
-- The order of the ranges (internal/identity/resolver.go): AddRange appends, and Resolve takes the
-- first that holds the address.
use dns_filter.Prelude.{ℕ, ◌≡◌, List, [], ◌∷◌, ◌++◌, Option, none, some, arith, if◌then◌else◌}
use dns_filter.Identity.{
  Ip, IpRange, Resolver, in_net, find_range, resolve_range, resolve, add_range,
}

unfoldable pub or_else : Option IpRange → Option IpRange → Option IpRange
or_else none y = y
or_else (some x) y = some x

pub find_range-append :
    (rs : List IpRange) (x : IpRange) (ip : Ip)
    → find_range (rs ++ (x ∷ [])) ip
      ≡ or_else (find_range rs ip) (if in_net x.network ip then some x else none)
unfolding find_range or_else
find_range-append [] x ip = ground arith
find_range-append (r ∷ rs) x ip = ground (arith, find_range-append rs x ip)

-- A range that is added decides only for addresses that no range held before: an address inside a
-- wider range resolves as before, however specific the new one is.
pub resolve-add_range :
    (r : Resolver) (x : IpRange) (now : ℕ) (ip : Ip) (wider : IpRange)
    → find_range r.ranges ip ≡ some wider
    → resolve (add_range x r) now ip ≡ resolve r now ip
unfolding add_range resolve resolve_range or_else
resolve-add_range r x now ip wider held = ground (arith, find_range-append r.ranges x ip, held)
