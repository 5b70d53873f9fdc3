-- ===== src/Web/Toggle.antt =====
-- The check boxes of web/src/pages/Lists.tsx (toggleListCat) and Groups.tsx (toggleCategory).
use dns_filter.Prelude.{
  ℕ, ◌≡◌, refl, Bool, false, not, ◌||◌, List, [], ◌∷◌, ◌++◌, arith, if◌then◌else◌, ◌==◌, nat_eq,
  keep, Bool-cases, inl, inr,
}

-- `l.includes(c)`
unfoldable pub member : ℕ → List ℕ → Bool
member c [] = false
member c (x ∷ l) = x == c || member c l

-- `prev.includes(c) ? prev.filter(x => x !== c) : [...prev, c]`
unfoldable pub toggle : ℕ → List ℕ → List ℕ
unfolding member
toggle c l = if member c l then keep (λ x. not (x == c)) l else l ++ (c ∷ [])

member-append : (x : ℕ) (l : List ℕ) (c : ℕ) → member x (l ++ (c ∷ [])) ≡ (member x l || c == x)
unfolding member
member-append x [] c = ground arith
member-append x (y ∷ l) c = ground (arith, member-append x l c)

member-keep :
    (x c : ℕ) (l : List ℕ)
    → member x (keep (λ y. not (y == c)) l) ≡ (if x == c then false else member x l)
unfolding member
member-keep x c [] = ground arith
member-keep x c (y ∷ l) = ground (arith, member-keep x c l)

-- A click on a box flips that box and no other.
pub member-toggle :
    (x c : ℕ) (l : List ℕ)
    → member x (toggle c l) ≡ (if x == c then not (member c l) else member x l)
unfolding toggle
member-toggle x c l = elim (Bool-cases (member c l)) [
  | inl on ↦ ground (arith, on, member-keep x c l)
  | inr off ↦ ground (arith, off, member-append x l c)
]

pub member-toggle_flip :
    (x c : ℕ) (l : List ℕ)
    → member x (toggle c l) ≡ (if x == c then not (member x l) else member x l)
member-toggle_flip x c l = ground (arith, member-toggle x c l)

-- No category stands twice in the list that is sent.
abbrev pub IsUnique : List ℕ → Type 0
IsUnique [] = Unit
IsUnique (x ∷ l) = (member x l ≡ false) × IsUnique l

keep-IsUnique : (c : ℕ) (l : List ℕ) → IsUnique l → IsUnique (keep (λ y. not (y == c)) l)
keep-IsUnique c [] s = tt
keep-IsUnique c (x ∷ l) (out, s) = ground (arith, member-keep x c l, keep-IsUnique c l s)

append-IsUnique : (c : ℕ) (l : List ℕ) → member c l ≡ false → IsUnique l → IsUnique (l ++ (c ∷ []))
unfolding member
append-IsUnique c [] off s = (refl, tt)
append-IsUnique c (x ∷ l) off (out, s) =
    ground (arith, member-append x l c, append-IsUnique c l, off)

pub toggle-IsUnique : (c : ℕ) (l : List ℕ) → IsUnique l → IsUnique (toggle c l)
unfolding toggle
toggle-IsUnique c l s = elim (Bool-cases (member c l)) [
  | inl on ↦ ground (arith, on, keep-IsUnique c l s)
  | inr off ↦ ground (arith, off, append-IsUnique c l off s)
]
