-- ===== src/Prelude/Maps.antt =====
-- Go's maps, as association lists. A key stands in them once.
use mathlib.Core.Path.{◌≡◌, refl}
use mathlib.Core.Logic.{◌≢◌}
use mathlib.Core.Bool.{Bool, not}
use mathlib.Core.List.{List, [], ◌∷◌}
use mathlib.Core.Option.{Option, none, some}
use native.Mathlib.Omega.{arith}
use dns_filter.Prelude.Tests.{if◌then◌else◌, Eq, ◌==◌}
use dns_filter.Prelude.Lists.{keep, All, All-keep}

abbrev pub Map {ℓ} : Type ℓ → Type ℓ → Type ℓ
Map K V = List (K × V)

module _ {ℓ} {Key Value : Type ℓ} ⦃eq : Eq Key⦄ where
  -- `v, ok := m[k]`
  unfoldable pub lookup : Key → Map Key Value → Option Value
  lookup wanted [] = none
  lookup wanted ((own, held) ∷ entries) =
      let later = lookup wanted entries in if own == wanted then some held else later

  -- `m[k] = v`
  unfoldable pub insert : Key → Value → Map Key Value → Map Key Value
  insert wanted new [] = (wanted, new) ∷ []
  insert wanted new ((own, held) ∷ entries) =
      let later = insert wanted new entries in
      if own == wanted then (wanted, new) ∷ entries else (own, held) ∷ later

  -- `delete(m, k)`
  unfoldable pub delete : Key → Map Key Value → Map Key Value
  delete gone entries = keep (λ e. not (e.0 == gone)) entries

  pub lookup-insert :
      (stored asked : Key) (new : Value) (entries : Map Key Value)
      → lookup asked (insert stored new entries)
        ≡ (if stored == asked then some new else lookup asked entries)
  unfolding lookup insert
  lookup-insert stored asked new [] = refl
  lookup-insert stored asked new ((own, held) ∷ entries) =
      let later = lookup-insert stored asked new entries in
      ground (
        arith,
        later,
        eq.equals_iff stored asked,
        eq.equals_iff own stored,
        eq.equals_iff own asked,
      )

  pub lookup-delete :
      (gone asked : Key) (entries : Map Key Value)
      → lookup asked (delete gone entries) ≡ (if gone == asked then none else lookup asked entries)
  unfolding lookup delete
  lookup-delete gone asked [] = ground arith
  lookup-delete gone asked ((own, held) ∷ entries) =
      let later = lookup-delete gone asked entries in
      ground
        (arith, later, eq.equals_iff gone asked, eq.equals_iff own gone, eq.equals_iff own asked)

module _ {ℓ} {K V : Type ℓ} where
  -- no entry has the key
  abbrev pub Fresh : K → Map K V → Type ℓ
  Fresh k m = All (λ e. e.0 ≢ k) m

  -- every key stands once, as in a map of Go
  abbrev pub Distinct : Map K V → Type ℓ
  Distinct [] = Unit
  Distinct ((k, v) ∷ m) = Fresh k m × Distinct m

  pub keep-Distinct : (p : K × V → Bool) (m : Map K V) → Distinct m → Distinct (keep p m)
  keep-Distinct p [] d = tt
  keep-Distinct p ((k, v) ∷ m) (f, d) =
      ground (arith, keep-Distinct p m d, All-keep (λ e. e.0 ≢ k) p m f)

module _ {ℓ} {K V : Type ℓ} ⦃e : Eq K⦄ where
  pub lookup-Fresh : (k : K) (m : Map K V) → Fresh k m → lookup k m ≡ none
  unfolding lookup
  lookup-Fresh k [] f = refl
  lookup-Fresh k ((j, v) ∷ m) (ne, f) = ground (arith, e.equals_iff j k, lookup-Fresh k m f)

  insert-Fresh : (k j : K) (v : V) (m : Map K V) → j ≢ k → Fresh k m → Fresh k (insert j v m)
  unfolding insert
  insert-Fresh k j v [] ne f = (ne, tt)
  insert-Fresh k j v ((i, w) ∷ m) ne (ni, f) = ground (arith, insert-Fresh k j v m ne f)

  pub insert-Distinct : (k : K) (v : V) (m : Map K V) → Distinct m → Distinct (insert k v m)
  unfolding insert
  insert-Distinct k v [] d = (tt, tt)
  insert-Distinct k v ((j, w) ∷ m) (f, d) =
      ground (arith, e.equals_iff j k, insert-Distinct k v m d, insert-Fresh j k v m)

  pub delete-Distinct : (k : K) (m : Map K V) → Distinct m → Distinct (delete k m)
  unfolding delete
  delete-Distinct k m d = keep-Distinct (λ e. not (e.0 == k)) m d

  pub lookup-keep :
      (p : K × V → Bool) (k : K) (m : Map K V)
      → Distinct m
      → lookup k (keep p m)
        ≡ elim (lookup k m) [ none ↦ none | some v ↦ if p (k, v) then some v else none ]
  unfolding lookup
  lookup-keep p k [] d = refl
  lookup-keep p k ((j, v) ∷ m) (f, d) =
      ground (arith, e.equals_iff j k, lookup-keep p k m d, lookup-Fresh k m)
