-- ===== src/Api/Numbers/Printing.antt =====
-- The numbers that the dashboard prints are those that the API reads.
use dns_filter.Prelude.{
  ℕ, zero, suc, ◌+◌, ◌-◌, ◌*◌, ◌/◌, ◌%◌, ◌^◌, ◌<◌, ◌≡◌, ◌∙◌, sym, ap, true, false, [], ◌∷◌, some,
  Text, ltb, nat_beq, arith, Bool-cases, inl, inr,
}
use dns_filter.Web.Page.{show, digits_of}
use dns_filter.Api.Numbers.{pos, digits_value, atoi, is_digit}

digits_value-digit :
    (d value : ℕ) (s : Text)
    → d < 10
    → digits_value value ((d + b'0') ∷ s) ≡ digits_value (value * 10 + d) s
unfolding digits_value
digits_value-digit d value s h =
    let digit : is_digit (d + b'0') ≡ true = ground (arith, h) in
    let back : (d + b'0') - b'0' ≡ d = omega arith in rw (digit, back)

-- Enough fuel prints every digit: what is read back is the number.
digits_value-digits_of :
    (fuel n : ℕ) (s : Text) → n < fuel → digits_value 0 (digits_of fuel n s) ≡ digits_value n s
unfolding digits_of
digits_value-digits_of zero n s h = ground (arith, h)
digits_value-digits_of (suc fuel) n s h = elim (Bool-cases (nat_beq (n / 10) 0)) [
  | inl short ↦
      let small : n % 10 ≡ n = ground (arith, short) in
      rw (digits_of, short, small)
        (digits_value-digit n 0 s (ground (arith, short))
          ∙ ap (λ v. digits_value v s) (omega arith))
  | inr long ↦
      let later : n / 10 < fuel = ground (arith, long, h) in
      let whole : (n / 10) * 10 + n % 10 ≡ n = omega arith in
      rw (
        digits_of,
        long,
        digits_value-digits_of fuel (n / 10) ((n % 10 + b'0') ∷ s) later,
        digits_value-digit (n % 10) (n / 10) s (omega arith),
        whole,
      )
]

-- What is printed starts with a digit.
digits_of-starts :
    (fuel n : ℕ) (s : Text)
    → n < fuel
    → (c : ℕ) × (t : Text) × (digits_of fuel n s ≡ c ∷ t) × (is_digit c ≡ true)
unfolding digits_of
digits_of-starts zero n s h = ground (arith, h)
digits_of-starts (suc fuel) n s h = elim (Bool-cases (nat_beq (n / 10) 0)) [
  | inl short ↦ (n % 10 + b'0', s, rw (digits_of, short), ground arith)
  | inr long ↦
      let (c, t, e, d) =
        digits_of-starts fuel (n / 10) ((n % 10 + b'0') ∷ s) (ground (arith, long, h)) in
      (c, t, rw (digits_of, long, e), d)
]

-- A number below 2 ^ 63 is read back from what the dashboard prints, without an error.
pub atoi-show : (n : ℕ) → n < 2 ^ 63 → atoi (show n) ≡ (pos n, true)
unfolding atoi show digits_value
atoi-show n small =
    let (c, t, e, d) = digits_of-starts (suc n) n [] (omega arith) in
    let value : digits_value 0 (c ∷ t) ≡ some n =
      ap (digits_value 0) (sym e) ∙ digits_value-digits_of (suc n) n [] (omega arith) in
    let minus : nat_beq c b'-' ≡ false = ground (arith, d) in
    let plus : nat_beq c b'+' ≡ false = ground (arith, d) in
    let fits : ltb n (2 ^ 63) ≡ true = ground (arith, small) in rw (e, minus, plus, value, fits)
