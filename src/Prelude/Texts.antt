-- ===== src/Prelude/Texts.antt =====
-- Text as a list of code points, and the functions of Go's `strings` and of JavaScript's `String`
-- that the program calls. Case and white space are those of ASCII, with U+0085 and U+00A0.
use Prim.Native.Nat.{ℕ, ◌+◌}
use Prim.Native.Char.{code}
use Prim.Native.String.{String}
use mathlib.Core.Path.{◌≡◌, refl}
use mathlib.Core.Logic.{◌↔◌}
use mathlib.Core.Bool.{Bool, true, false, not, ◌&&◌, ◌||◌}
use mathlib.Core.List.{List, [], ◌∷◌, ◌++◌, map}
use native.Mathlib.Omega.{arith}
use dns_filter.Prelude.Tests.{leb, nat_beq, if◌then◌else◌, Eq}
use dns_filter.Prelude.Lists.{keep}

abbrev pub Text : Type 0
Text = List ℕ

abbrev pub codes : String → Text
codes String.[] = []
codes (String.◌∷◌ c s) = code c ∷ codes s

unfoldable pub text_beq : Text → Text → Bool
text_beq [] [] = true
text_beq (a ∷ s) (b ∷ t) = nat_beq a b && text_beq s t
text_beq _ _ = false

pub text_beq_iff : (s t : Text) → (text_beq s t ≡ true) ↔ (s ≡ t)
unfolding text_beq
text_beq_iff [] [] = (λ _. refl, λ _. refl)
text_beq_iff (a ∷ s) (b ∷ t) = ground (arith, text_beq_iff s t)
text_beq_iff [] (b ∷ t) = ground arith
text_beq_iff (a ∷ s) [] = ground arith

instance abbrev pub text_eq : Eq Text
text_eq = record { equals = text_beq; equals_iff = text_beq_iff }

-- `strings.ToLower`, `toLowerCase`
unfoldable pub lower_char : ℕ → ℕ
lower_char c = if leb b'A' c && leb c b'Z' then c + 32 else c

abbrev pub to_lower : Text → Text
to_lower = map lower_char

-- `unicode.IsSpace` below U+0100
unfoldable pub is_space : ℕ → Bool
is_space c = (leb 9 c && leb c 13) || nat_beq c 32 || nat_beq c 0x85 || nat_beq c 0xA0

unfoldable pub trim_left : Text → Text
trim_left [] = []
trim_left (c ∷ s) = if is_space c then trim_left s else c ∷ s

abbrev pub cons_trimmed : ℕ → Text → Text
cons_trimmed c [] = if is_space c then [] else c ∷ []
cons_trimmed c (d ∷ s) = c ∷ d ∷ s

unfoldable pub trim_right : Text → Text
trim_right [] = []
trim_right (c ∷ s) = cons_trimmed c (trim_right s)

-- `strings.TrimSpace`, `trim`
unfoldable pub trim : Text → Text
unfolding trim_left trim_right is_space
trim s = trim_left (trim_right s)

-- `strings.HasPrefix`
unfoldable pub has_prefix : Text → Text → Bool
has_prefix s [] = true
has_prefix [] (c ∷ p) = false
has_prefix (d ∷ s) (c ∷ p) = nat_beq d c && has_prefix s p

-- `strings.HasSuffix` for one character
unfoldable pub ends_with : ℕ → Text → Bool
ends_with c [] = false
ends_with c (d ∷ []) = nat_beq d c
ends_with c (d ∷ e ∷ s) = ends_with c (e ∷ s)

-- `strings.Contains`, `includes` for one character
unfoldable pub has_char : ℕ → Text → Bool
has_char c [] = false
has_char c (d ∷ s) = nat_beq d c || has_char c s

abbrev pub cons_head : ℕ → List Text → List Text
cons_head c [] = (c ∷ []) ∷ []
cons_head c (p ∷ ps) = (c ∷ p) ∷ ps

-- `strings.Split`, `split` for one character
unfoldable pub split : ℕ → Text → List Text
split sep [] = [] ∷ []
split sep (c ∷ s) = let rest = split sep s in if nat_beq c sep then [] ∷ rest else cons_head c rest

-- `strings.Join` for one character
unfoldable pub join : ℕ → List Text → Text
join sep [] = []
join sep (p ∷ []) = p
join sep (p ∷ q ∷ ps) = p ++ (sep ∷ join sep (q ∷ ps))

-- `line[:strings.Index(line, c)]`, or the whole line where there is none
unfoldable pub before : ℕ → Text → Text
before c [] = []
before c (d ∷ s) = if nat_beq d c then [] else d ∷ before c s

abbrev pub is_empty : Text → Bool
is_empty [] = true
is_empty (c ∷ s) = false

split_space : Text → List Text
split_space [] = [] ∷ []
split_space (c ∷ s) = let rest = split_space s in if is_space c then [] ∷ rest else cons_head c rest

-- `strings.Fields`
unfoldable pub fields : Text → List Text
unfolding split_space is_space
fields s = keep (λ f. not (is_empty f)) (split_space s)
