-- ===== src/Api/Handlers/Ranges.antt =====
-- The ranges that internal/api/handlers.go gives the resolver.
use dns_filter.Prelude.{ℕ, ◌≡◌, inr, true, none, some, lookup, arith}
use dns_filter.Identity.{
  Ip, ip_eq, IpNet, IpRange, Resolver, of_policy, find_range, in_net, resolve, resolve_range,
  add_range,
}
use dns_filter.Identity.Ranges.{find_range-append, or_else}
use dns_filter.Api.Requests.{RangeBody, create_ip_range}
use dns_filter.Api.Handlers.{Libs, Handlers, create_range, auth_mode_of}

abbrev pub range_of : IpNet → RangeBody → IpRange
range_of net b = record {
  network = net;
  group_id = b.group_id;
  auth_mode = auth_mode_of b.auth_mode;
}

resolve-new_range :
    (r : Resolver) (x : IpRange) (now : ℕ) (ip : Ip)
    → in_net x.network ip ≡ true
    → find_range r.ranges ip ≡ none
    → lookup ip r.sessions ≡ none
    → resolve (add_range x r) now ip ≡ of_policy x.group_id x.auth_mode
unfolding add_range resolve resolve_range or_else
resolve-new_range r x now ip inside no_range no_session =
    ground (arith, find_range-append r.ranges x ip, inside, no_range, no_session)

-- Where the CIDR parses and the database takes the range, a client of the new range without a
-- session, whose address no range held before, is from then on of the group and the mode of the
-- request.
pub create_range-resolve :
    (lib : Libs) (h : Handlers lib) (b : RangeBody) (net : IpNet) (id now : ℕ) (ip : Ip)
    → lib.parse_cidr b.cidr ≡ some net
    → (lib.store.execute h.db (create_ip_range b)).1 ≡ inr id
    → in_net net ip ≡ true
    → find_range h.identity.ranges ip ≡ none
    → lookup ip h.identity.sessions ≡ none
    → resolve (create_range lib (some b) h).0.identity now ip
      ≡ of_policy b.group_id (auth_mode_of b.auth_mode)
unfolding create_range
create_range-resolve lib h b net id now ip parsed stored inside no_range no_session =
    rw (parsed, stored)
      (resolve-new_range h.identity (range_of net b) now ip inside no_range no_session)
