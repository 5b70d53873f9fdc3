-- ===== src/Startup.antt =====
-- cmd/dnsfilter/main.go: the ranges that the resolver gets when the program starts.
pub mod SortedRows
pub mod LongestPrefix
pub mod Filtering
use dns_filter.Prelude.{
  ℕ, ◌≡◌, ◌↔◌, Bool, true, false, List, [], ◌∷◌, Option, none, some, Text, In, ltb,
}
use dns_filter.Identity.{IpNet, IpRange, Resolver, add_range}
use dns_filter.Api.Handlers.{auth_mode_of}

-- a row of ListIPRanges, as far as main reads it
pub record DbRange : Type 0 where
  pub cidr : Text
  pub group_id : ℕ
  pub auth_mode : ℕ

-- sort.Slice with its less function
pub record Sort : Type 1 where
  pub slice : {A : Type 0} → (A → A → Bool) → List A → List A

-- no element comes after one that it is less than
abbrev pub IsBelow : {A : Type 0} → (A → A → Bool) → A → List A → Type 0
IsBelow less a [] = Unit
IsBelow less a (b ∷ bs) = (less b a ≡ false) × IsBelow less a bs

abbrev pub IsSorted : {A : Type 0} → (A → A → Bool) → List A → Type 0
IsSorted less [] = Unit
IsSorted less (a ∷ as') = IsBelow less a as' × IsSorted less as'

-- The less function is a strict weak order: it compares a number of each element.
abbrev pub IsByKey : {A : Type 0} → (A → A → Bool) → List A → Type 0
IsByKey {A} less xs =
    (key : A → ℕ) × ((a b : A) → In a xs → In b xs → less a b ≡ ltb (key b) (key a))

-- What the library documents: the elements stay, and they are sorted where less orders them.
pub record IsSort (lib : Sort) : Type 1 where
  pub same_elements :
      {A : Type 0} (less : A → A → Bool) (xs : List A) (a : A) → In a (lib.slice less xs) ↔ In a xs
  pub sorted :
      {A : Type 0} (less : A → A → Bool) (xs : List A)
      → IsByKey less xs
      → IsSorted less (lib.slice less xs)

abbrev longer : Option IpNet → Option IpNet → Bool
longer none n = false
longer (some m) none = false
longer (some m) (some n) = ltb n.prefix m.prefix

module _ (parse_cidr : Text → Option IpNet) where
  -- the less function: the longer prefix comes first
  unfoldable pub more_specific : DbRange → DbRange → Bool
  more_specific a b = longer (parse_cidr a.cidr) (parse_cidr b.cidr)

  abbrev pub add_parsed : Option IpNet → DbRange → Resolver → Resolver
  add_parsed none r res = res
  add_parsed (some net) r res =
      add_range
        (record { network = net; group_id = r.group_id; auth_mode = auth_mode_of r.auth_mode }) res

  -- the loop over the rows: a CIDR that does not parse is skipped
  unfoldable pub add_ranges : List DbRange → Resolver → Resolver
  add_ranges [] res = res
  add_ranges (r ∷ rs) res = add_ranges rs (add_parsed (parse_cidr r.cidr) r res)

  -- the start-up of the resolver, from the rows of the database
  unfoldable pub load_ranges : Sort → List DbRange → Resolver → Resolver
  load_ranges lib rows res = add_ranges (lib.slice more_specific rows) res
