-- ===== src/Web/Page.antt =====
-- What the pages of web/src/pages share: messages, requests that fail, and numbers as text.
pub mod Message
use dns_filter.Web.Html.{Node, text, element, nodes, when}
use dns_filter.Prelude.{
  not, is_empty, ℕ, zero, suc, ◌+◌, ◌/◌, ◌%◌, Bool, true, false, ◌||◌, List, [], ◌∷◌, Option, none,
  some, Text, codes, has_prefix, nat_beq, if◌then◌else◌, ◌==◌, nat_eq,
}

-- What a handler leaves: the page, the requests that it starts, and the delays (in ms) of the
-- timers that it sets to clear the message.
pub record Next (P R : Type 0) : Type 0 where
  pub page : P
  pub requests : List R
  pub timers : List ℕ

module _ {P R : Type 0} where
  abbrev pub stay : P → Next P R
  stay p = record { page = p; requests = []; timers = [] }

  abbrev pub asks : P → R → Next P R
  asks p r = record { page = p; requests = r ∷ []; timers = [] }

-- `s.includes(p)`
unfoldable pub includes : Text → Text → Bool
includes [] p = has_prefix [] p
includes (c ∷ s) p = has_prefix (c ∷ s) p || includes s p

-- `message.includes('Erro')`, by which every page chooses between red and green
unfoldable pub is_error : Text → Bool
unfolding includes
is_error message = includes message (codes "Erro")

-- `message && <div className={...}>{message}</div>`
abbrev pub message_box : {E : Type 0} → Text → List (Node E)
message_box message = when (not (is_empty message)) (
    element (codes "div")
      (if is_error message
        then codes "bg-red-50 text-red-600"
        else codes "bg-green-50 text-green-600")
      (nodes (text message ∷ [])))

unfoldable pub digits_of : ℕ → ℕ → Text → Text
digits_of zero n acc = acc
digits_of (suc fuel) n acc =
    let acc' = (n % 10 + b'0') ∷ acc in
    elim (nat_beq (n / 10) 0) [ true ↦ acc' | false ↦ digits_of fuel (n / 10) acc' ]

-- a number in a template literal
unfoldable pub show : ℕ → Text
unfolding digits_of
show n = digits_of (suc n) n []

-- `x === id` for a state variable that is a number or null
abbrev pub is_open : Option ℕ → ℕ → Bool
is_open none id = false
is_open (some n) id = n == id

-- `if (x === id) set(null)`
abbrev pub close_if : Option ℕ → ℕ → Option ℕ → Option ℕ
close_if seen id now = if is_open seen id then none else now

-- `Array.isArray(data) ? data : []`
abbrev pub or_empty {ℓ} : {A : Type ℓ} → Option (List A) → List A
or_empty none = []
or_empty (some xs) = xs
