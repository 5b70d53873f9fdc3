-- ===== src/Filter/Domain.antt =====
-- internal/filter/blacklist.go: normalize and parseLine.
pub mod Normal
use dns_filter.Prelude.{
  ◌≡◌, Bool, true, false, ◌||◌, List, [], ◌∷◌, ◌++◌, ◌==◌, if◌then◌else◌, Text, codes, text_beq,
  text_eq, to_lower, lower_char, trim, ends_with, has_char, before, fields, is_empty,
}

abbrev pub dot : Text
dot = b'.' ∷ []

-- normalize
unfoldable pub normalize : Text → Text
normalize domain =
    let lowered = to_lower (trim domain) in
    if ends_with b'.' lowered then lowered else lowered ++ dot

-- the prefixes of a line in hosts format
abbrev pub is_hosts_prefix : Text → Bool
is_hosts_prefix prefix =
    prefix == codes "127.0.0.1" || prefix == codes "0.0.0.0" || prefix == codes "::1"

-- the part of parseLine after the fields are split
unfoldable pub pick_field : List Text → Text
pick_field [] = []
pick_field (f ∷ []) = f
pick_field (f ∷ g ∷ r) = if is_hosts_prefix f then g else []

-- parseLine; `""` says that the line holds no domain
unfoldable pub parse_line : Text → Text
unfolding pick_field
parse_line line =
    let cut = if has_char b'#' line then trim (before b'#' line) else line in
    if is_empty cut then [] else pick_field (fields cut)
