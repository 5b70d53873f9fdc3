-- ===== src/Database/Tables/Rows.antt =====
-- The rows that a replacement leaves (internal/store): cleared for one owner and inserted again.
use dns_filter.Prelude.{
  ℕ, ◌≡◌, ◌≢◌, ◌↔◌, ◌⊎◌, inl, inr, true, List, [], ◌∷◌, In, Eq, nat_beq_iff, Bool-cases, arith,
}
use dns_filter.Database.Tables.{clear_rows, has_row, insert_row}

-- the loop of INSERT statements
unfoldable pub insert_rows : {A : Type 0} ⦃eq : Eq A⦄ → ℕ → List A → List (ℕ × A) → List (ℕ × A)
insert_rows owner [] rows = rows
insert_rows owner (x ∷ xs) rows = insert_rows owner xs (insert_row owner x rows)

-- a row of the owner with the item
abbrev pub Holds : {A : Type 0} → ℕ → A → List (ℕ × A) → Type 0
Holds own x [] = ⊥
Holds own x (r ∷ rows) = ((own ≡ r.0) × (x ≡ r.1)) ⊎ Holds own x rows

pub clear_rows-Holds :
    {A : Type 0} (owner own : ℕ) (x : A) (rows : List (ℕ × A))
    → Holds own x (clear_rows owner rows) ↔ ((own ≢ owner) × Holds own x rows)
unfolding clear_rows
clear_rows-Holds owner own x [] = (λ h. absurd h, λ h. absurd h.1)
clear_rows-Holds owner own x (r ∷ rows) =
    ground (arith, clear_rows-Holds owner own x rows, nat_beq_iff r.0 owner)

module _ {A : Type 0} ⦃eq : Eq A⦄ where
  has_row_iff :
      (owner : ℕ) (x : A) (rows : List (ℕ × A)) → (has_row owner x rows ≡ true) ↔ Holds owner x rows
  unfolding has_row
  has_row_iff owner x [] = ground arith
  has_row_iff owner x (r ∷ rows) =
      ground (arith, has_row_iff owner x rows, nat_beq_iff r.0 owner, eq.equals_iff r.1 x)

  pub insert_row-Holds :
      (owner own : ℕ) (item x : A) (rows : List (ℕ × A))
      → Holds own x (insert_row owner item rows) ↔ (((own ≡ owner) × (x ≡ item)) ⊎ Holds own x rows)
  unfolding insert_row
  insert_row-Holds owner own item x rows = elim (Bool-cases (has_row owner item rows)) [
    | inl there ↦ rw there (
      λ h. inr h,
      λ h. elim h [
        | inl same ↦ rw (same.0, same.1) ((has_row_iff owner item rows).0 there)
        | inr k ↦ k
      ],
    )
    | inr absent ↦ rw absent (λ h. h, λ h. h)
  ]

  pub insert_rows-Holds :
      (owner own : ℕ) (items : List A) (x : A) (rows : List (ℕ × A))
      → Holds own x (insert_rows owner items rows)
        ↔ (((own ≡ owner) × In x items) ⊎ Holds own x rows)
  unfolding insert_rows
  insert_rows-Holds owner own [] x rows =
      (λ h. inr h, λ h. elim h [ inl k ↦ absurd k.1 | inr k ↦ k ])
  insert_rows-Holds owner own (i ∷ items) x rows =
      let later = insert_rows-Holds owner own items x (insert_row owner i rows) in
      let now = insert_row-Holds owner own i x rows in ground (arith, later, now)

  -- After a replacement the owner has exactly the items, and every other owner what it had.
  pub replaced-Holds :
      (owner own : ℕ) (items : List A) (x : A) (rows : List (ℕ × A))
      → Holds own x (insert_rows owner items (clear_rows owner rows))
        ↔ (((own ≡ owner) × In x items) ⊎ ((own ≢ owner) × Holds own x rows))
  replaced-Holds owner own items x rows =
      let inserted = insert_rows-Holds owner own items x (clear_rows owner rows) in
      let cleared = clear_rows-Holds owner own x rows in ground (arith, inserted, cleared)
