-- ===== src/Examples/Sorts.antt =====
-- The ranges of a small database at start-up, sorted by insertion (cmd/dnsfilter/main.go).
use dns_filter.Prelude.{
  ◌≡◌, ◌↔◌, ◌⊎◌, refl, inl, inr, Bool, true, false, List, [], ◌∷◌, Option, none, some, Text, codes,
  In, Bool-cases, arith, if◌then◌else◌, text_beq,
}
use dns_filter.Identity.{v4, IpNet, new_resolver, resolve, of_policy, auth_none}
use dns_filter.Api.Handlers.{auth_mode_of}
use dns_filter.Startup.{DbRange, Sort, IsSort, IsSorted, IsBelow, IsByKey, load_ranges}
use dns_filter.Startup.SortedRows.{AllParse, NoneHolds, IsLongest}
use dns_filter.Startup.LongestPrefix.{load_ranges-resolve}

insert_by : {A : Type 0} → (A → A → Bool) → A → List A → List A
insert_by less x [] = x ∷ []
insert_by less x (y ∷ ys) =
    let rest = insert_by less x ys in if less x y then x ∷ y ∷ ys else y ∷ rest

insertion_sort : {A : Type 0} → (A → A → Bool) → List A → List A
insertion_sort less [] = []
insertion_sort less (x ∷ xs) = insert_by less x (insertion_sort less xs)

insert_by-In :
    {A : Type 0} (less : A → A → Bool) (x a : A) (ys : List A)
    → In a (insert_by less x ys) ↔ ((a ≡ x) ⊎ In a ys)
unfolding insert_by
insert_by-In less x a [] = (λ m. m, λ m. m)
insert_by-In less x a (y ∷ ys) = elim (Bool-cases (less x y)) [
  | inl e ↦ rw (insert_by, e) (λ m. m, λ m. m)
  | inr e ↦
      let later = insert_by-In less x a ys in
      rw (insert_by, e)
        (
          λ m. elim m [
            | inl same ↦ inr (inl same)
            | inr k ↦ elim (later.0 k) [ inl same ↦ inl same | inr l ↦ inr (inr l) ]
          ],
          λ m. elim m [
            | inl same ↦ inr (later.1 (inl same))
            | inr k ↦ elim k [ inl same ↦ inl same | inr l ↦ inr (later.1 (inr l)) ]
          ],
        )
]

sort-In :
    {A : Type 0} (less : A → A → Bool) (xs : List A) (a : A)
    → In a (insertion_sort less xs) ↔ In a xs
unfolding insertion_sort
sort-In less [] a = (λ m. m, λ m. m)
sort-In less (x ∷ xs) a =
    let first = insert_by-In less x a (insertion_sort less xs) in
    let later = sort-In less xs a in
    (
      λ m. elim (first.0 m) [ inl same ↦ inl same | inr k ↦ inr (later.0 k) ],
      λ m. first.1 (elim m [ inl same ↦ inl same | inr k ↦ inr (later.1 k) ]),
    )

insert_by-IsBelow :
    {A : Type 0} (less : A → A → Bool) (x y : A) (ys : List A)
    → less x y ≡ false
    → IsBelow less y ys
    → IsBelow less y (insert_by less x ys)
unfolding insert_by
insert_by-IsBelow less x y [] e b = (e, tt)
insert_by-IsBelow less x y (z ∷ zs) e (f, b) = elim (Bool-cases (less x z)) [
  | inl c ↦ rw (insert_by, c) (e, (f, b))
  | inr c ↦ rw (insert_by, c) (f, insert_by-IsBelow less x y zs e b)
]

module _ {A : Type 0} (less : A → A → Bool) (all : List A) (by : IsByKey less all) where
  IsBelow-trans :
      (x y : A) (ys : List A)
      → In x all
      → In y all
      → ((a : A) → In a ys → In a all)
      → less x y ≡ true
      → IsBelow less y ys
      → IsBelow less x ys
  IsBelow-trans x y [] mx my inside e b = tt
  IsBelow-trans x y (z ∷ zs) mx my inside e (f, b) =
      let mz = inside z (inl refl) in
      (
        ground (arith, e, f, by.1 x y mx my, by.1 z y mz my, by.1 z x mz mx),
        IsBelow-trans x y zs mx my (λ a m. inside a (inr m)) e b,
      )

  insert_by-IsSorted :
      (x : A) (ys : List A)
      → In x all
      → ((a : A) → In a ys → In a all)
      → IsSorted less ys
      → IsSorted less (insert_by less x ys)
  unfolding insert_by
  insert_by-IsSorted x [] mx inside s = (tt, tt)
  insert_by-IsSorted x (y ∷ ys) mx inside (b, s) =
      let my = inside y (inl refl) in
      elim (Bool-cases (less x y)) [
        | inl e ↦
            rw (insert_by, e)
              (
                (
                  ground (arith, e, by.1 x y mx my, by.1 y x my mx),
                  IsBelow-trans x y ys mx my (λ a m. inside a (inr m)) e b,
                ),
                (b, s),
              )
        | inr e ↦
            rw (insert_by, e)
              (
                insert_by-IsBelow less x y ys e b,
                insert_by-IsSorted x ys mx (λ a m. inside a (inr m)) s,
              )
      ]

  sort-IsSorted :
      (xs : List A) → ((a : A) → In a xs → In a all) → IsSorted less (insertion_sort less xs)
  unfolding insertion_sort
  sort-IsSorted [] inside = tt
  sort-IsSorted (x ∷ xs) inside =
      insert_by-IsSorted x (insertion_sort less xs) (inside x (inl refl))
        (λ a m. inside a (inr ((sort-In less xs a).0 m)))
        (sort-IsSorted xs (λ a m. inside a (inr m)))

abbrev sorting : Sort
sorting = record { slice = insertion_sort }

sorting-IsSort : IsSort sorting
sorting-IsSort = record {
  same_elements = sort-In;
  sorted = λ less xs by. sort-IsSorted less xs by xs (λ a m. m);
}

abbrev lan_net : IpNet
lan_net = record { address = v4 0xC0A80100; prefix = 24 }

abbrev printer_net : IpNet
printer_net = record { address = v4 0xC0A80109; prefix = 32 }

-- two CIDRs that parse
parse : Text → Option IpNet
parse s =
    if text_beq s (codes "lan")
    then some lan_net
    else if text_beq s (codes "printer")
    then some printer_net
    else none

abbrev rows : List DbRange
rows =
    record { cidr = codes "lan"; group_id = 2; auth_mode = 1 }
    ∷ record { cidr = codes "printer"; group_id = 3; auth_mode = 0 }
    ∷ []

rows-AllParse : AllParse parse rows
unfolding parse text_beq
rows-AllParse r (inl same) = (lan_net, rw same)
rows-AllParse r (inr (inl same)) = (printer_net, rw same)
rows-AllParse r (inr (inr m)) = absurd m

load_ranges-resolve_example :
    let answer = resolve (load_ranges parse sorting rows (new_resolver 1)) 50 (v4 0xC0A80109) in
    (NoneHolds parse rows (v4 0xC0A80109) × (answer ≡ of_policy 1 auth_none))
    ⊎ ((r : DbRange) × (net : IpNet) × IsLongest parse rows (v4 0xC0A80109) r net
        × (answer ≡ of_policy r.group_id (auth_mode_of r.auth_mode)))
load_ranges-resolve_example =
    load_ranges-resolve parse sorting rows 1 50 (v4 0xC0A80109) sorting-IsSort rows-AllParse
