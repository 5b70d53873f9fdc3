-- ===== src/Filter/Domain/Normal.antt =====
-- Names after normalize (internal/filter/blacklist.go).
use dns_filter.Prelude.{
  ◌≡◌, refl, ap, ◌∙◌, inl, inr, true, false, ◌++◌, Text, to_lower, lower_char, to_lower_idem, trim,
  trim-append, trim-to_lower, trim_left, trim_left-trim, trim_idem, trim_left-to_lower, is_space,
  ends_with, ends_with-append, ends_with-append_self, Bool-cases,
}
use mathlib.Core.List.{map-append}
use dns_filter.Filter.Domain.{dot, normalize}

dot_kept : is_space b'.' ≡ false
unfolding is_space
dot_kept = refl

lower_dot : lower_char b'.' ≡ b'.'
unfolding lower_char
lower_dot = refl

-- A fixed point of trimming and lowering, followed by the dot or ending in it, is normal.
pub normalize_of_dot :
    (r : Text) → trim_left r ≡ r → to_lower r ≡ r → normalize (r ++ dot) ≡ r ++ dot
unfolding normalize
normalize_of_dot r t l =
    rw (trim-append r b'.' dot_kept t, map-append, l, lower_dot, ends_with-append_self b'.' r)

-- Every normal name ends in the dot of a fully qualified name.
pub normalize-dot : (d : Text) → (r : Text) × (normalize d ≡ r ++ dot)
unfolding normalize
normalize-dot d = elim (Bool-cases (ends_with b'.' (to_lower (trim d)))) [
  | inl e ↦ let (r, eq) = ends_with-append b'.' (to_lower (trim d)) e in (r, rw e eq)
  | inr e ↦ (to_lower (trim d), rw e)
]

pub ends_with-normalize : (d : Text) → ends_with b'.' (normalize d) ≡ true
ends_with-normalize d = let (r, e) = normalize-dot d in rw e (ends_with-append_self b'.' r)

-- Upper and lower case do not count.
pub normalize-to_lower : (d : Text) → normalize (to_lower d) ≡ normalize d
unfolding normalize
normalize-to_lower d = rw (trim-to_lower d, to_lower_idem)

-- To normalise twice is to normalise once.
pub normalize_idem : (d : Text) → normalize (normalize d) ≡ normalize d
unfolding normalize
normalize_idem d = elim (Bool-cases (ends_with b'.' lowered)) [
  | inl e ↦ rw e (rw (trim-to_lower (trim d), trim_idem d, to_lower_idem (trim d), e))
  | inr e ↦ rw e (
      normalize_of_dot lowered (trim_left-to_lower (trim d) ∙ ap to_lower (trim_left-trim d))
        (to_lower_idem (trim d)))
]
  where
    lowered : Text
    lowered = to_lower (trim d)
