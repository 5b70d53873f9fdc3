-- ===== src/Config/Environment.antt =====
-- Which configuration the environment changes (internal/config/config.go).
use dns_filter.Prelude.{◌≡◌, ◌≢◌, refl, ◌⊎◌, inr, [], ◌∷◌, Text, codes}
use dns_filter.Config.{
  Config, defaults, override, apply_env_overrides, not_exist, bytes, parsed, load,
}

override-given : (v old : Text) → v ≢ [] → override v old ≡ v
override-given [] old given = absurd (given refl)
override-given (c ∷ v) old given = refl

-- the three fields that the environment can set
abbrev pub Sets : (Text → Text) → Config → Type 0
Sets getenv c =
    (c.db.url ≡ getenv (codes "DATABASE_URL"))
    × (c.api.jwt_secret ≡ getenv (codes "JWT_SECRET"))
    × (c.dns.listen ≡ getenv (codes "DNS_LISTEN"))

-- Where the three variables are set and the file parses, they replace the address of the database,
-- the secret of the tokens and the address of the DNS server, whatever the file says. Where the file
-- does not exist, the program starts with the defaults in their place: the secret is empty.
pub load-Sets :
    (unmarshal : Text → Config → Text ⊎ Config) (getenv : Text → Text) (path file : Text)
    (c : Config)
    → unmarshal file defaults ≡ inr c
    → getenv (codes "DATABASE_URL") ≢ []
    → getenv (codes "JWT_SECRET") ≢ []
    → getenv (codes "DNS_LISTEN") ≢ []
    → ((r : Config) × (load unmarshal getenv path (bytes file) ≡ inr r) × Sets getenv r)
      × (load unmarshal getenv path not_exist ≡ inr defaults)
      × (defaults.api.jwt_secret ≡ [])
unfolding load apply_env_overrides defaults
load-Sets unmarshal getenv path file c parses url secret listen = (
  (
    apply_env_overrides getenv c,
    rw (parses, parsed) refl,
    (
      override-given (getenv (codes "DATABASE_URL")) c.db.url url,
      override-given (getenv (codes "JWT_SECRET")) c.api.jwt_secret secret,
      override-given (getenv (codes "DNS_LISTEN")) c.dns.listen listen,
    ),
  ),
  refl,
  refl,
)
