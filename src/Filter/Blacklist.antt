-- ===== src/Filter/Blacklist.antt =====
-- internal/filter/blacklist.go: the type Blacklist.
pub mod Matching
pub mod Loading
use dns_filter.Prelude.{
  ℕ, ◌+◌, Bool, true, false, ◌||◌, List, [], ◌∷◌, Option, none, some, ◌==◌, if◌then◌else◌, Text,
  text_eq, text_beq, Map, lookup, insert, delete, length, trim, has_prefix, is_empty, split, join,
}
use dns_filter.Filter.Domain.{normalize, parse_line}

pub record Blacklist : Type 0 where
  pub domains : Map Text Bool

-- NewBlacklist
unfoldable pub new_blacklist : Blacklist
new_blacklist = record { domains = [] }

-- Blacklist.Add
unfoldable pub add : Text → Blacklist → Blacklist
add domain b = record { domains = insert (normalize domain) true b.domains }

-- Blacklist.Remove
unfoldable pub remove : Text → Blacklist → Blacklist
remove domain b = record { domains = delete (normalize domain) b.domains }

-- Blacklist.Clear
unfoldable pub clear : Blacklist → Blacklist
clear b = record { domains = [] }

-- `b.domains[domain]`: false for a key that is not there
unfoldable pub listed : Blacklist → Text → Bool
listed b domain = elim (lookup domain b.domains) [ none ↦ false | some v ↦ v ]

-- the loop of Blacklist.Contains; the round of `i` has `parts[i:]`, and the last is not tried
unfoldable pub parent_listed : Blacklist → List Text → Bool
parent_listed b [] = false
parent_listed b (p ∷ []) = false
parent_listed b (p ∷ q ∷ rest) = listed b (join b'.' (p ∷ q ∷ rest)) || parent_listed b (q ∷ rest)

abbrev pub tail_parts : List Text → List Text
tail_parts [] = []
tail_parts (p ∷ ps) = ps

-- Blacklist.Contains
unfoldable pub contains : Blacklist → Text → Bool
contains b domain =
    let n = normalize domain in listed b n || parent_listed b (tail_parts (split b'.' n))

-- Blacklist.Size
unfoldable pub size : Blacklist → ℕ
size b = length b.domains

-- the body of the scan loop of Blacklist.LoadFromFile: the domain of a line, if it has one
unfoldable pub line_domain : Text → Option Text
line_domain text =
    let line = trim text in
    if is_empty line || has_prefix line (b'#' ∷ [])
    then none
    else (let domain = parse_line line in if is_empty domain then none else some domain)

-- the scan loop of Blacklist.LoadFromFile, over the lines of the file, with its count
unfoldable pub load_lines : List Text → ℕ → Blacklist → Blacklist × ℕ
load_lines [] count b = (b, count)
load_lines (text ∷ lines) count b = elim (line_domain text) [
  | none ↦ load_lines lines count b
  | some domain ↦ load_lines lines (count + 1) (add domain b)
]

-- a file of lines, or an error of os.Open; a scan may end early with an error
pub data Source : Type 0 where
  not_opened : Source
  scanned : List Text → (failed : Bool) → Source

-- the results of Blacklist.LoadFromFile: the list, the count, and whether an error is returned
pub record Loaded : Type 0 where
  pub list : Blacklist
  pub count : ℕ
  pub failed : Bool

-- Blacklist.LoadFromFile
unfoldable pub load_from_file : Source → Blacklist → Loaded
unfolding load_lines
load_from_file not_opened b = record { list = b; count = 0; failed = true }
load_from_file (scanned lines bad) b =
    let (b', n) = load_lines lines 0 b in record { list = b'; count = n; failed = bad }
