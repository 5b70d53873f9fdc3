-- ===== src/Web/Lists/Domains.antt =====
-- The domains that web/src/pages/Lists.tsx sends (saveDomains), and those that it counts on the screen.
use dns_filter.Prelude.{
  ℕ, ◌≡◌, refl, not, ◌&&◌, ◌||◌, List, [], ◌∷◌, map, Text, arith, trim, trim_left, trim_right,
  cons_trimmed, is_space, lower_char, to_lower, split, has_char, is_empty, keep, length, nat_beq,
}
use dns_filter.Web.Lists.{is_domain, domains_of, valid_count}

dot-lower_char : (c : ℕ) → nat_beq (lower_char c) b'.' ≡ nat_beq c b'.'
unfolding lower_char
dot-lower_char c = ground arith

has_dot-to_lower : (s : Text) → has_char b'.' (to_lower s) ≡ has_char b'.' s
unfolding has_char
has_dot-to_lower [] = refl
has_dot-to_lower (c ∷ s) = ground (arith, dot-lower_char c, has_dot-to_lower s)

has_dot-trim_left : (s : Text) → has_char b'.' (trim_left s) ≡ has_char b'.' s
unfolding has_char trim_left is_space
has_dot-trim_left [] = refl
has_dot-trim_left (c ∷ s) = ground (arith, has_dot-trim_left s)

has_dot-cons_trimmed :
    (c : ℕ) (s : Text) → has_char b'.' (cons_trimmed c s) ≡ (nat_beq c b'.' || has_char b'.' s)
unfolding has_char is_space
has_dot-cons_trimmed c [] = ground arith
has_dot-cons_trimmed c (d ∷ s) = refl

has_dot-trim_right : (s : Text) → has_char b'.' (trim_right s) ≡ has_char b'.' s
unfolding has_char trim_right
has_dot-trim_right [] = refl
has_dot-trim_right (c ∷ s) =
    ground (arith, has_dot-cons_trimmed c (trim_right s), has_dot-trim_right s)

has_dot-trim : (s : Text) → has_char b'.' (trim s) ≡ has_char b'.' s
unfolding trim
has_dot-trim s = ground (arith, has_dot-trim_left (trim_right s), has_dot-trim_right s)

is_empty-to_lower : (s : Text) → is_empty (to_lower s) ≡ is_empty s
is_empty-to_lower [] = refl
is_empty-to_lower (c ∷ s) = refl

is_domain-read :
    (d : Text) → is_domain (to_lower (trim d)) ≡ (not (is_empty (trim d)) && has_char b'.' d)
is_domain-read d = rw (is_empty-to_lower (trim d), has_dot-to_lower (trim d), has_dot-trim d)

count_lines :
    (ls : List Text)
    → length (keep (λ d. not (is_empty (trim d)) && has_char b'.' d) ls)
      ≡ length (keep is_domain (map (λ d. to_lower (trim d)) ls))
count_lines [] = refl
count_lines (d ∷ ls) = ground (arith, is_domain-read d, count_lines ls)

-- The number of valid domains shown below the text area is the number of domains that saving
-- sends.
pub valid_count-domains_of : (t : Text) → valid_count t ≡ length (domains_of t)
unfolding valid_count domains_of
valid_count-domains_of t = count_lines (split 10 t)
