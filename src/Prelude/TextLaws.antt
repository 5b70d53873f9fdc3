-- ===== src/Prelude/TextLaws.antt =====
-- Laws of the text functions: trimming and lowering, splitting and joining, suffixes.
use Prim.Native.Nat.{ℕ}
use mathlib.Core.Path.{◌≡◌, refl, ap, ◌∙◌}
use mathlib.Core.Logic.{◌⊎◌, inl, inr, ◌≢◌}
use mathlib.Core.Bool.{true, false}
use mathlib.Core.List.{List, [], ◌∷◌, ◌++◌}
use native.Mathlib.Omega.{arith}
use dns_filter.Prelude.Tests.{nat_beq, nat_beq_iff, Bool-cases}
use dns_filter.Prelude.Texts.{
  Text, lower_char, to_lower, is_space, trim_left, cons_trimmed, trim_right, trim, ends_with,
  cons_head, split, join,
}

pub lower_char_idem : (c : ℕ) → lower_char (lower_char c) ≡ lower_char c
unfolding lower_char
lower_char_idem c = ground arith

pub to_lower_idem : (s : Text) → to_lower (to_lower s) ≡ to_lower s
to_lower_idem [] = refl
to_lower_idem (c ∷ s) = cc (lower_char_idem c, to_lower_idem s)

is_space-lower_char : (c : ℕ) → is_space (lower_char c) ≡ is_space c
unfolding is_space lower_char
is_space-lower_char c = ground arith

pub trim_left-to_lower : (s : Text) → trim_left (to_lower s) ≡ to_lower (trim_left s)
unfolding trim_left
trim_left-to_lower [] = refl
trim_left-to_lower (c ∷ s) = ground (arith, is_space-lower_char c, trim_left-to_lower s)

cons_trimmed-to_lower :
    (c : ℕ) (s : Text) → cons_trimmed (lower_char c) (to_lower s) ≡ to_lower (cons_trimmed c s)
cons_trimmed-to_lower c [] = ground (arith, is_space-lower_char c)
cons_trimmed-to_lower c (d ∷ s) = refl

trim_right-to_lower : (s : Text) → trim_right (to_lower s) ≡ to_lower (trim_right s)
unfolding trim_right
trim_right-to_lower [] = refl
trim_right-to_lower (c ∷ s) = rw (trim_right-to_lower s) (cons_trimmed-to_lower c (trim_right s))

pub trim-to_lower : (s : Text) → trim (to_lower s) ≡ to_lower (trim s)
unfolding trim
trim-to_lower s = rw (trim_right-to_lower s) (trim_left-to_lower (trim_right s))

trim_left_idem : (s : Text) → trim_left (trim_left s) ≡ trim_left s
unfolding trim_left
trim_left_idem [] = refl
trim_left_idem (c ∷ s) = ground (arith, trim_left_idem s)

-- A text that ends in a character other than white space keeps its end.
cons_trimmed-append : (c : ℕ) (s : Text) (d : ℕ) → cons_trimmed c (s ++ d ∷ []) ≡ c ∷ (s ++ d ∷ [])
cons_trimmed-append c [] d = refl
cons_trimmed-append c (e ∷ s) d = refl

trim_right-append : (s : Text) (d : ℕ) → is_space d ≡ false → trim_right (s ++ d ∷ []) ≡ s ++ d ∷ []
unfolding trim_right
trim_right-append [] d h = ground arith
trim_right-append (c ∷ s) d h = rw (trim_right-append s d h) (cons_trimmed-append c s d)

first_kept :
    (s : Text)
    → (trim_left s ≡ []) ⊎ ((c : ℕ) × (r : Text) × (trim_left s ≡ c ∷ r) × (is_space c ≡ false))
unfolding trim_left
first_kept [] = inl refl
first_kept (c ∷ s) = elim (Bool-cases (is_space c)) [
  | inl sp ↦ rw sp (first_kept s)
  | inr ns ↦ inr (c, s, rw ns, ns)
]

first_not_space : (c : ℕ) (s : Text) → trim_left (c ∷ s) ≡ c ∷ s → is_space c ≡ false
first_not_space c s e = elim (first_kept (c ∷ s)) [
  | inl gone ↦ cc
  | inr (d, r, eq, ns) ↦ ground (arith, e, eq, ns)
]

trim_left-append :
    (s : Text) (d : ℕ)
    → is_space d ≡ false
    → trim_left s ≡ s
    → trim_left (s ++ d ∷ []) ≡ s ++ d ∷ []
unfolding trim_left
trim_left-append [] d h e = ground arith
trim_left-append (c ∷ s) d h e = rw (first_not_space c s e)

pub trim-append :
    (s : Text) (d : ℕ) → is_space d ≡ false → trim_left s ≡ s → trim (s ++ d ∷ []) ≡ s ++ d ∷ []
unfolding trim
trim-append s d h e = rw (trim_right-append s d h) (trim_left-append s d h e)

pub trim_left-trim : (s : Text) → trim_left (trim s) ≡ trim s
unfolding trim
trim_left-trim s = trim_left_idem (trim_right s)

trim_right_idem : (s : Text) → trim_right (trim_right s) ≡ trim_right s
unfolding trim_right
trim_right_idem [] = refl
trim_right_idem (c ∷ s) = settled (trim_right s) (trim_right_idem s)
  where
    settled : (t : Text) → trim_right t ≡ t → trim_right (cons_trimmed c t) ≡ cons_trimmed c t
    settled [] e = ground arith
    settled (d ∷ t) e = rw e

trim_right-tail : (c : ℕ) (s : Text) → trim_right (c ∷ s) ≡ c ∷ s → trim_right s ≡ s
unfolding trim_right
trim_right-tail c s = of_kept (trim_right s)
  where
    of_kept : (t : Text) → cons_trimmed c t ≡ c ∷ s → t ≡ s
    of_kept [] e = ground arith
    of_kept (d ∷ t) e = cc

trim_right-trim_left : (s : Text) → trim_right s ≡ s → trim_right (trim_left s) ≡ trim_left s
unfolding trim_left
trim_right-trim_left [] e = e
trim_right-trim_left (c ∷ s) e = ground (arith, trim_right-trim_left s (trim_right-tail c s e))

pub trim_idem : (s : Text) → trim (trim s) ≡ trim s
unfolding trim
trim_idem s =
    rw (trim_right-trim_left (trim_right s) (trim_right_idem s)) (trim_left_idem (trim_right s))

-- The character that a text ends in.
pub ends_with-append : (c : ℕ) (s : Text) → ends_with c s ≡ true → (r : Text) × (s ≡ r ++ c ∷ [])
unfolding ends_with
ends_with-append c [] h = cc
ends_with-append c (d ∷ []) h = ([], ground (arith, nat_beq_iff d c))
ends_with-append c (d ∷ e ∷ s) h =
    let (r, eq) = ends_with-append c (e ∷ s) h in (d ∷ r, ap (◌∷◌ d) eq)

pub ends_with-append_self : (c : ℕ) (s : Text) → ends_with c (s ++ c ∷ []) ≡ true
unfolding ends_with
ends_with-append_self c [] = ground arith
ends_with-append_self c (d ∷ []) = ends_with-append_self c []
ends_with-append_self c (d ∷ e ∷ s) = ends_with-append_self c (e ∷ s)

-- `split` never returns an empty list, and `join` undoes it.
join-cons_head :
    (sep c : ℕ) (ps : List Text) → ps ≢ [] → join sep (cons_head c ps) ≡ c ∷ join sep ps
unfolding join
join-cons_head sep c [] h = absurd (h refl)
join-cons_head sep c (p ∷ []) h = refl
join-cons_head sep c (p ∷ q ∷ ps) h = refl

join-nil_cons : (sep : ℕ) (ps : List Text) → ps ≢ [] → join sep ([] ∷ ps) ≡ sep ∷ join sep ps
unfolding join
join-nil_cons sep [] h = absurd (h refl)
join-nil_cons sep (p ∷ ps) h = refl

pub split-ne-nil : (sep : ℕ) (s : Text) → split sep s ≢ []
unfolding split
split-ne-nil sep [] h = cc
split-ne-nil sep (c ∷ s) h = ground (arith, split-ne-nil sep s)

pub join-split : (sep : ℕ) (s : Text) → join sep (split sep s) ≡ s
unfolding split join
join-split sep [] = refl
join-split sep (c ∷ s) = elim (Bool-cases (nat_beq c sep)) [
  | inl same ↦ rw same (
      join-nil_cons sep (split sep s) (split-ne-nil sep s)
      ∙ (rw (join-split sep s, (nat_beq_iff c sep).0 same)))
  | inr other ↦
      rw other
        (join-cons_head sep c (split sep s) (split-ne-nil sep s) ∙ ap (◌∷◌ c) (join-split sep s))
]
