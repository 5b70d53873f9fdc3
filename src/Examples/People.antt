-- ===== src/Examples/People.antt =====
-- Clients, sessions, logins and limits (internal/identity, internal/captive, internal/api/ratelimit.go).
use dns_filter.Prelude.{
  ℕ, ◌-◌, ◌≡◌, refl, true, false, [], ◌∷◌, some, codes, lookup, text_beq, text_eq, ltb,
}
use dns_filter.Identity.{
  Ip, v4, ip_eq, auth_none, auth_captive_portal, IpRange, Session, Resolver, of_session,
  resolve_range, resolve, add_session, evict_expired_sessions, find_range, add_range,
}
use dns_filter.Identity.Priority.{ByPriority, resolve-ByPriority}
use dns_filter.Handler.{Net}
use dns_filter.Captive.{Portal, Request, static_authenticate}
use dns_filter.Captive.Login.{LogsIn}
use dns_filter.RateLimit.{Rate, RateLimiter}

abbrev laptop : Ip
laptop = v4 0xC0A80105

abbrev phone : Ip
phone = v4 0xC0A80106

abbrev lan : IpRange
lan = record {
  network = record { address = v4 0xC0A80100; prefix = 24 };
  group_id = 2;
  auth_mode = auth_captive_portal;
}

abbrev ana : Session
ana = record {
  client_ip = laptop;
  user_id = 5;
  username = codes "ana";
  group_id = 2;
  expires_at = 100;
}

abbrev home : Resolver
home = record {
  sessions = (laptop, ana) ∷ [];
  ranges = lan ∷ [];
  default_group_id = 1;
  default_auth = auth_none;
}

resolve-ByPriority_example : ByPriority home 50 laptop (resolve home 50 laptop)
resolve-ByPriority_example = resolve-ByPriority home 50 laptop

abbrev net : Net
net = record { split_host = λ s. some s; parse_ip = λ s. phone }

abbrev portal : Portal
portal = record {
  resolver = home;
  auth =
      static_authenticate
        ((codes "bob", record { password = codes "pw"; user_id = 9; group_id = 4 }) ∷ []);
  session_ttl = 3600;
}

abbrev login : Request
login = record {
  is_post = true;
  username = codes "bob";
  password = codes "pw";
  redirect = codes "/";
  remote_addr = codes "phone:4711";
}

bob_authenticated :
    portal.auth login.username login.password ≡ some (record { user_id = 9; group_id = 4 })
unfolding static_authenticate lookup text_beq
bob_authenticated = refl

abbrev bob_logs_in : LogsIn net login portal
bob_logs_in = record {
  post = refl;
  user = record { user_id = 9; group_id = 4 };
  authenticated = bob_authenticated;
  host = codes "phone:4711";
  split = refl;
}

no_login : ¬ LogsIn net (record login { is_post = false }) portal
no_login l = cc (l.post)

-- a bucket that only counts its tokens
abbrev bucket : Rate
bucket = record {
  Limiter = ℕ;
  new_limiter = λ r burst. burst;
  allow = λ now tokens. (tokens - 1, ltb 0 tokens);
}

abbrev limits : RateLimiter bucket
limits = record {
  visitors = (codes "1.1.1.1", record { limiter = 2; last_seen = 5 }) ∷ [];
  rate = 1;
  burst = 3;
}

lan_holds : find_range home.ranges phone ≡ some lan
unfolding find_range dns_filter.Identity.in_net
lan_holds = refl
