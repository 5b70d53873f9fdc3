-- ===== src/Cache.antt =====
-- internal/cache/cache.go and internal/cache/redis.go: the answers that are kept.
pub mod Ttl
pub mod Reads
pub mod Invalidation
use dns_filter.Prelude.{
  ℕ, ◌+◌, ◌*◌, ◌%◌, ◌^◌, Bool, true, false, not, ◌||◌, List, [], ◌∷◌, ◌++◌, Option, none, some, ltb,
  if◌then◌else◌, Text, text_eq, to_lower, has_prefix, Map, lookup, insert, keep, length,
}
use dns_filter.Message.{Msg, Rr, header, DnsLib}

abbrev pub second : ℕ
second = 1000000000

abbrev pub u64_mod : ℕ
u64_mod = 2 ^ 64

-- entry; times are nanoseconds
pub record Entry : Type 0 where
  pub msg : Msg
  pub expires_at : ℕ

-- a command that RedisCache.Set gives the client
pub record RedisSet : Type 0 where
  pub key : Text
  pub bytes : List ℕ
  pub ttl : ℕ

-- RedisCache, with the commands that its client was given, the last one first
pub record RedisCache : Type 0 where
  pub ttl_floor : ℕ
  pub ttl_ceil : ℕ
  pub sent : List RedisSet

pub record Cache : Type 0 where
  pub entries : Map Text Entry
  pub ttl_floor : ℕ
  pub ttl_ceil : ℕ
  pub hits : ℕ
  pub misses : ℕ
  pub l2 : Option RedisCache

-- New
unfoldable pub new_cache : ℕ → ℕ → Cache
new_cache floor ceil = record {
  entries = [];
  ttl_floor = floor;
  ttl_ceil = ceil;
  hits = 0;
  misses = 0;
  l2 = none;
}

-- Cache.SetL2
unfoldable pub set_l2 : Option RedisCache → Cache → Cache
set_l2 l2 c = record c { l2 = l2 }

abbrev pub clamp : ℕ → ℕ → ℕ → ℕ
clamp floor ceil ttl =
    let raised = if ltb ttl floor then floor else ttl in if ltb ceil raised then ceil else raised

-- the loop of Cache.extractTTL
unfoldable pub min_ttl : ℕ → List Rr → ℕ
min_ttl least [] = least
min_ttl least (rr ∷ rrs) =
    min_ttl (if ltb (header rr).ttl least then (header rr).ttl else least) rrs

-- Cache.extractTTL
unfoldable pub extract_ttl : Cache → Msg → ℕ
extract_ttl c msg = clamp c.ttl_floor c.ttl_ceil (min_ttl 3600 msg.answer * second)

abbrev pub count_hit : Cache → Cache
count_hit c = record c { hits = (c.hits + 1) % u64_mod }

abbrev pub count_miss : Cache → Cache
count_miss c = record c { misses = (c.misses + 1) % u64_mod }

abbrev pub has_answer : Msg → Bool
has_answer m = elim m.answer [ [] ↦ false | rr ∷ rrs ↦ true ]

module _ (lib : DnsLib) where
  -- key
  unfoldable pub key : Text → ℕ → Text
  key name qtype = to_lower name ++ (b'|' ∷ lib.type_to_string qtype)

  -- RedisCache.Get, where `stored` is what the client answers
  unfoldable pub redis_get : (Text → Option (List ℕ)) → Text → ℕ → Option Msg
  redis_get stored name qtype = elim (stored (key name qtype)) [
    | none ↦ none
    | some bytes ↦ lib.unpack bytes
  ]

  -- RedisCache.Set
  unfoldable pub redis_set : Text → ℕ → Msg → ℕ → RedisCache → RedisCache
  redis_set name qtype msg ttl r =
      if has_answer msg
      then elim (lib.pack msg) [
        | none ↦ r
        | some bytes ↦ record r {
          sent =
              record { key = key name qtype; bytes = bytes; ttl = clamp r.ttl_floor r.ttl_ceil ttl }
              ∷ r.sent;
        }
      ]
      else r

  abbrev pub write_through : Text → ℕ → Msg → ℕ → Option RedisCache → Option RedisCache
  write_through name qtype msg ttl none = none
  write_through name qtype msg ttl (some r) = some (redis_set name qtype msg ttl r)

  -- Cache.Set at the time `now`
  unfoldable pub set : ℕ → Text → ℕ → Msg → Cache → Cache
  set now name qtype msg c =
      if has_answer msg
      then record c {
        entries =
            insert (key name qtype) (record { msg = msg; expires_at = now + extract_ttl c msg })
              c.entries;
        l2 = write_through name qtype msg (extract_ttl c msg) c.l2;
      }
      else c

  abbrev pub l2_get : (Text → Option (List ℕ)) → Text → ℕ → Option RedisCache → Option Msg
  l2_get stored name qtype none = none
  l2_get stored name qtype (some r) = redis_get stored name qtype

  -- the part of Cache.Get after the lookup in L1
  unfoldable pub get_l2 : (Text → Option (List ℕ)) → ℕ → Text → ℕ → Cache → Cache × Option Msg
  get_l2 stored now name qtype c = elim (l2_get stored name qtype c.l2) [
    | none ↦ (count_miss c, none)
    | some msg ↦ (count_hit (set now name qtype msg c), some msg)
  ]

  -- Cache.Get at the time `now`; a promotion to L1 takes place at the same time
  unfoldable pub get : (Text → Option (List ℕ)) → ℕ → Text → ℕ → Cache → Cache × Option Msg
  unfolding get_l2
  get stored now name qtype c = elim (lookup (key name qtype) c.entries) [
    | none ↦ get_l2 stored now name qtype c
    | some e ↦
        if ltb now e.expires_at then (count_hit c, some e.msg) else get_l2 stored now name qtype c
  ]

  -- `strings.HasPrefix(k, name+"|")`
  abbrev pub is_invalid : Text → Text × Entry → Bool
  is_invalid name e = has_prefix e.0 (to_lower (lib.fqdn name) ++ (b'|' ∷ []))

  -- Cache.Invalidate: the new state, and how many entries are removed
  unfoldable pub invalidate : Text → Cache → Cache × ℕ
  invalidate name c = (
    record c { entries = keep (λ e. not (is_invalid name e)) c.entries },
    length (keep (is_invalid name) c.entries),
  )

abbrev pub has_expired : ℕ → Text × Entry → Bool
has_expired now e = ltb e.1.expires_at now

-- one round of Cache.evictLoop
unfoldable pub evict : ℕ → Cache → Cache
evict now c = record c { entries = keep (λ e. not (has_expired now e)) c.entries }

-- Cache.GetStats
unfoldable pub get_stats : Cache → ℕ × ℕ
get_stats c = (c.hits, c.misses)

-- Cache.Size
unfoldable pub size : Cache → ℕ
size c = length c.entries
