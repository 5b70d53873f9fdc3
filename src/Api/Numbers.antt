-- ===== src/Api/Numbers.antt =====
-- Go's strconv.Atoi, on an int of 64 bits.
pub mod Printing
use dns_filter.Prelude.{
  ℕ, zero, suc, ◌+◌, ◌-◌, ◌*◌, ◌^◌, Bool, true, false, not, ◌&&◌, List, [], ◌∷◌, Option, none, some,
  Text, leb, ltb, nat_beq, if◌then◌else◌,
}

pub data ℤ : Type 0 where
  pos : ℕ → ℤ
  negsuc : ℕ → ℤ

abbrev pub is_digit : ℕ → Bool
is_digit c = leb b'0' c && leb c b'9'

-- the value of the digits after `acc`, where all are digits
unfoldable pub digits_value : ℕ → Text → Option ℕ
digits_value acc [] = some acc
digits_value acc (c ∷ s) =
    let rest = digits_value (acc * 10 + (c - b'0')) s in if is_digit c then rest else none

-- a number with its sign taken off, as a value and whether there is no error: out of range it is
-- the nearest int, and 0 where the text is no number
abbrev pub in_range : Bool → ℕ → ℤ × Bool
in_range false n = if ltb n (2 ^ 63) then (pos n, true) else (pos (2 ^ 63 - 1), false)
in_range true zero = (pos 0, true)
in_range true (suc n) = if ltb n (2 ^ 63) then (negsuc n, true) else (negsuc (2 ^ 63 - 1), false)

abbrev pub of_value : Bool → Option ℕ → ℤ × Bool
of_value negative none = (pos 0, false)
of_value negative (some n) = in_range negative n

abbrev pub of_digits : Bool → Text → ℤ × Bool
of_digits negative [] = (pos 0, false)
of_digits negative (c ∷ s) = of_value negative (digits_value 0 (c ∷ s))

-- strconv.Atoi
unfoldable pub atoi : Text → ℤ × Bool
unfolding digits_value
atoi [] = (pos 0, false)
atoi (c ∷ s) =
    if nat_beq c b'-'
    then of_digits true s
    else if nat_beq c b'+'
    then of_digits false s
    else of_digits false (c ∷ s)
