-- ===== src/Cache/Invalidation.antt =====
-- Cache.Invalidate (internal/cache/cache.go) against later reads.
use dns_filter.Prelude.{
  ℕ, ◌+◌, ◌≡◌, refl, ◌≢◌, inl, inr, Bool, true, false, not, ◌↔◌, [], ◌∷◌, ◌++◌, none, arith, Text,
  text_eq, text_beq, text_beq_iff, to_lower, has_prefix, has_char, lookup, lookup-keep, keep,
  length, Map, Option-cases, Bool-cases, if◌then◌else◌,
}
use dns_filter.Message.{DnsLib}
use dns_filter.Cache.{Cache, Entry, key, get, l2_get, invalidate, is_invalid, size}
use dns_filter.Cache.Reads.{IsValid, Answers}

-- A bar marks the end of the name in a key, where names hold none.
has_prefix-bar :
    (n m t : Text)
    → has_char b'|' n ≡ false
    → has_char b'|' m ≡ false
    → (has_prefix (n ++ (b'|' ∷ t)) (m ++ (b'|' ∷ [])) ≡ true) ↔ (n ≡ m)
unfolding has_prefix has_char
has_prefix-bar [] [] t hn hm = (λ _. refl, λ _. refl)
has_prefix-bar [] (d ∷ m) t hn hm = ground arith
has_prefix-bar (c ∷ n) [] t hn hm = ground arith
has_prefix-bar (c ∷ n) (d ∷ m) t hn hm = ground (arith, has_prefix-bar n m t)

-- A name that is asked for, and a name that is invalidated, with no bar in either.
pub record AreNames (lib : DnsLib) (asked gone : Text) : Type 0 where
  pub asked_plain : has_char b'|' (to_lower asked) ≡ false
  pub gone_plain : has_char b'|' (to_lower (lib.fqdn gone)) ≡ false

is_invalid_iff :
    (lib : DnsLib) (asked gone : Text) (qtype : ℕ) (e : Entry)
    → AreNames lib asked gone
    → (is_invalid lib gone (key lib asked qtype, e) ≡ true)
      ↔ (to_lower asked ≡ to_lower (lib.fqdn gone))
unfolding key
is_invalid_iff lib asked gone qtype e h =
    has_prefix-bar (to_lower asked) (to_lower (lib.fqdn gone)) (lib.type_to_string qtype)
      h.asked_plain h.gone_plain

length-keep :
    (p : Text × Entry → Bool) (m : Map Text Entry)
    → length (keep (λ e. not (p e)) m) + length (keep p m) ≡ length m
length-keep p [] = omega arith
length-keep p (e ∷ m) = ground (arith, length-keep p m)

module _ (lib : DnsLib) (stored : Answers) (c : Cache) (asked gone : Text) (qtype now : ℕ) where
  lookup-invalidate :
      IsValid c
      → AreNames lib asked gone
      → (to_lower asked ≡ to_lower (lib.fqdn gone)
          → lookup (key lib asked qtype) (invalidate lib gone c).0.entries ≡ none)
        × (to_lower asked ≢ to_lower (lib.fqdn gone)
            → lookup (key lib asked qtype) (invalidate lib gone c).0.entries
              ≡ lookup (key lib asked qtype) c.entries)
  unfolding invalidate
  lookup-invalidate d h =
      let kept = lookup-keep (λ e. not (is_invalid lib gone e)) (key lib asked qtype) c.entries d in
      elim (Option-cases (lookup (key lib asked qtype) c.entries)) [
        | inl e ↦ (λ same. ground (arith, kept, e), λ other. ground (arith, kept, e))
        | inr (x, e) ↦
            let this_key = is_invalid_iff lib asked gone qtype x h in
            (
              λ same. ground (arith, kept, e, this_key, same),
              λ other. ground (arith, kept, e, this_key, other),
            )
      ]

  -- On a cache with no key twice, and for names without a bar, after an invalidation a read of the
  -- name, of any type, returns what the second level holds; reads of other names return what they
  -- did. The reported number is the number of entries taken out of the first level.
  pub get-invalidate :
      IsValid c
      → AreNames lib asked gone
      → ((get lib stored now asked qtype (invalidate lib gone c).0).1 ≡ (
          if text_beq (to_lower asked) (to_lower (lib.fqdn gone))
          then l2_get lib stored asked qtype c.l2
          else (get lib stored now asked qtype c).1))
        × (size (invalidate lib gone c).0 + (invalidate lib gone c).1 ≡ size c)
  unfolding get invalidate size
  get-invalidate d h =
      let (gone_key, kept_key) = lookup-invalidate d h in
      (
        elim (Bool-cases (text_beq (to_lower asked) (to_lower (lib.fqdn gone)))) [
          | inl e ↦ let same = (text_beq_iff _ _).0 e in ground (arith, gone_key same, e)
          | inr e ↦
              let other : to_lower asked ≢ to_lower (lib.fqdn gone) = λ same.
                ground (arith, text_beq_iff (to_lower asked) (to_lower (lib.fqdn gone)), same, e) in
              ground (arith, kept_key other, e)
        ],
        length-keep (is_invalid lib gone) c.entries,
      )
