-- ===== src/Filter/Downloader.antt =====
-- internal/filter/downloader.go: FetchDomains.
pub mod AsFile
use dns_filter.Prelude.{
  ℕ, zero, suc, ◌*◌, List, [], ◌∷◌, ◌++◌, Option, none, some, Text, codes, length, ltb, nat_beq,
  if◌then◌else◌, ◌||◌, trim, is_empty, has_prefix,
}
use dns_filter.Filter.Domain.{parse_line}
use dns_filter.Web.Page.{show}

-- an error of NewRequestWithContext, one of client.Do, or a response: its status, its body as far as
-- it can be read, and the error that reading it ends with
pub data Answer : Type 0 where
  not_created : Text → Answer
  not_fetched : Text → Answer
  answered : (status : ℕ) → (body : Text) → (broken : Option Text) → Answer

abbrev pub max_body : ℕ
max_body = 50 * 1024 * 1024

unfoldable pub take : ℕ → Text → Text
take zero body = []
take (suc n) [] = []
take (suc n) (c ∷ body) = c ∷ take n body

-- io.LimitReader: what can be read of a body, and the error at its end; the limit ends it without one
unfoldable pub limited : ℕ → Text → Option Text → Text × Option Text
unfolding take
limited n body broken = (take n body, if ltb (length body) n then broken else none)

-- the body of the scan loop: the domain of a line, if it has one
unfoldable pub fetched_domain : Text → Option Text
fetched_domain text =
    let line = trim text in
    if is_empty line || has_prefix line (b'#' ∷ [])
    then none
    else (let domain = parse_line line in if is_empty domain then none else some domain)

-- the scan loop
unfoldable pub scan_domains : List Text → List Text
scan_domains [] = []
scan_domains (text ∷ lines) =
    let rest = scan_domains lines in
    elim (fetched_domain text) [ none ↦ rest | some domain ↦ domain ∷ rest ]

abbrev pub read_error : Option Text → Option Text
read_error none = none
read_error (some e) = some (codes "downloader: read body: " ++ e)

abbrev pub read_lines : List Text × Option Text → List Text × Option Text
read_lines (lines, err) = (scan_domains lines, read_error err)

-- bufio.Scanner is a parameter: the lines that it gives of a reader, and its Err
module _ (scan : Text × Option Text → List Text × Option Text) where
  -- Downloader.FetchDomains: the domains, and the error
  unfoldable pub fetch_domains : Text → Answer → List Text × Option Text
  unfolding scan_domains limited
  fetch_domains url (not_created e) = ([], some (codes "downloader: create request: " ++ e))
  fetch_domains url (not_fetched e) =
      ([], some (codes "downloader: fetch " ++ (url ++ (codes ": " ++ e))))
  fetch_domains url (answered status body broken) =
      let read = read_lines (scan (limited max_body body broken)) in
      if nat_beq status 200
      then read
      else ([], some (codes "downloader: " ++ (url ++ (codes " returned status " ++ show status))))
