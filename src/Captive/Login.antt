-- ===== src/Captive/Login.antt =====
-- What a login does to the identities (internal/captive/server.go, internal/identity/resolver.go).
use dns_filter.Prelude.{
  Bool-cases, Option-cases, ℕ, ◌≡◌, inl, inr, ◌≢◌, ◌⊎◌, true, some, arith, Text,
}
use dns_filter.Identity.{Ip, Resolver}
use dns_filter.Identity.Priority.{IsRangeGroup}
use dns_filter.Handler.{Net}
use dns_filter.Captive.{UserInfo, Portal, Request, handle_auth}

-- A request logs a client in: it is a POST with good credentials, from an address that parses.
pub record LogsIn (net : Net) (r : Request) (s : Portal) : Type 0 where
  pub post : r.is_post ≡ true
  pub user : UserInfo
  pub authenticated : s.auth r.username r.password ≡ some user
  pub host : Text
  pub split : net.split_host r.remote_addr ≡ some host

-- The group of a login: that of the first range that holds the address, or the default group where
-- none does, and the user's own group only where that number is 0.
abbrev pub IsLoginGroup : Resolver → Ip → UserInfo → ℕ → Type 0
IsLoginGroup r client user group =
    (ranged : ℕ) × IsRangeGroup r client ranged
    × (((ranged ≢ 0) × (group ≡ ranged)) ⊎ ((ranged ≡ 0) × (group ≡ user.group_id)))

-- Only a request that logs a client in changes anything: every other request leaves the portal and
-- the identities as they are.
pub handle_auth_refused :
    (net : Net) (now : ℕ) (r : Request) (s : Portal)
    → ¬ LogsIn net r s
    → (handle_auth net now r s).0 ≡ s
unfolding handle_auth
handle_auth_refused net now r s refused = elim (Bool-cases r.is_post) [
  | inr get ↦ ground (arith, get)
  | inl post ↦ elim (Option-cases (s.auth r.username r.password)) [
    | inl bad ↦ ground (arith, post, bad)
    | inr (user, good) ↦ elim (Option-cases (net.split_host r.remote_addr)) [
      | inl e ↦ ground (arith, post, good, e)
      | inr (host, e) ↦
          let l : LogsIn net r s = record {
            post = post;
            user = user;
            authenticated = good;
            host = host;
            split = e;
          } in
          absurd (refused l)
    ]
  ]
]
