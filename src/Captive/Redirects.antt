-- ===== src/Captive/Redirects.antt =====
-- Where a login may send the browser (internal/captive/server.go): isValidRedirect.
use dns_filter.Prelude.{
  ℕ, ◌<◌, ◌≡◌, refl, ◌↔◌, ◌⊎◌, inl, inr, ◌≢◌, true, false, [], ◌∷◌, ◌++◌, arith, Text, codes,
  has_prefix, length, Bool-cases,
}
use dns_filter.Captive.{is_valid_redirect}

-- `url` begins with `p`.
abbrev pub BeginsWith : Text → Text → Type 0
BeginsWith p url = (rest : Text) × (url ≡ p ++ rest)

BeginsWith-uncons :
    (c d : ℕ) (p url : Text) → BeginsWith (c ∷ p) (d ∷ url) → (d ≡ c) × BeginsWith p url
BeginsWith-uncons c d p url (rest, e) = (cc, (rest, cc))

has_prefix_sound : (url p : Text) → has_prefix url p ≡ true → BeginsWith p url
unfolding has_prefix
has_prefix_sound url [] h = (url, refl)
has_prefix_sound [] (c ∷ p) h = cc
has_prefix_sound (d ∷ url) (c ∷ p) h =
    let (rest, e) = has_prefix_sound url p (ground arith) in
    let same : d ≡ c = ground (arith, h) in (rest, ground (arith, same, e))

has_prefix_complete : (url p : Text) → BeginsWith p url → has_prefix url p ≡ true
unfolding has_prefix
has_prefix_complete url [] h = refl
has_prefix_complete [] (c ∷ p) (rest, e) = cc
has_prefix_complete (d ∷ url) (c ∷ p) b =
    let (same, more) = BeginsWith-uncons c d p url b in
    ground (arith, same, has_prefix_complete url p more)

has_prefix_iff : (url p : Text) → (has_prefix url p ≡ true) ↔ BeginsWith p url
has_prefix_iff url p = (has_prefix_sound url p, has_prefix_complete url p)

-- What a target has to look like: a path of this host, or any other place by http or https.
abbrev pub IsTarget : Text → Type 0
IsTarget url =
    (BeginsWith (codes "/") url × ¬ BeginsWith (codes "//") url)
    ⊎ ((rest : Text) × (url ≡ codes "http://" ++ rest) × (rest ≢ []))
    ⊎ BeginsWith (codes "https://") url

length_http : (rest : Text) → (7 < length (codes "http://" ++ rest)) ↔ (rest ≢ [])
length_http [] = (λ h. absurd (omega arith), λ h. absurd (h refl))
length_http (c ∷ rest) = (λ h e. cc, λ h. omega arith)

http_ok : (rest : Text) → rest ≢ [] → is_valid_redirect (codes "http://" ++ rest) ≡ true
unfolding is_valid_redirect has_prefix
http_ok [] h = absurd (h refl)
http_ok (c ∷ rest) h = ground arith

https_ok : (rest : Text) → is_valid_redirect (codes "https://" ++ rest) ≡ true
unfolding is_valid_redirect has_prefix
https_ok rest = ground arith

path_ok :
    (url : Text)
    → BeginsWith (codes "/") url
    → ¬ BeginsWith (codes "//") url
    → is_valid_redirect url ≡ true
unfolding is_valid_redirect
path_ok url b nb = elim (Bool-cases (has_prefix url (codes "//"))) [
  | inl two ↦ absurd (nb (has_prefix_sound url (codes "//") two))
  | inr one ↦ ground (arith, one, has_prefix_complete url (codes "/") b)
]

not_path :
    (url : Text) → has_prefix url (codes "/") ≡ false → is_valid_redirect url ≡ true → IsTarget url
unfolding is_valid_redirect
not_path url no' h = elim (Bool-cases (has_prefix url (codes "https://"))) [
  | inl secure ↦ inr (inr (has_prefix_sound url (codes "https://") secure))
  | inr plain ↦
      let (rest, e) = has_prefix_sound url (codes "http://") (ground (arith, h, no', plain)) in
      let long : 7 < length url = ground (arith, h, no', plain) in
      inr (inl (rest, e, (length_http rest).0 (rw e at long)))
]

is_path :
    (url : Text) → has_prefix url (codes "/") ≡ true → is_valid_redirect url ≡ true → IsTarget url
unfolding is_valid_redirect
is_path url slash h = inl (
  has_prefix_sound url (codes "/") slash,
  λ two. ground (arith, h, slash, has_prefix_complete url (codes "//") two),
)

-- A redirect is accepted exactly when its target is a path that does not begin with two slashes,
-- or an address by https, or by http with something behind the slashes: any other host will do.
pub is_valid_redirect_iff : (url : Text) → (is_valid_redirect url ≡ true) ↔ IsTarget url
is_valid_redirect_iff url = (to (Bool-cases (has_prefix url (codes "/"))), from)
  where
    to :
        (has_prefix url (codes "/") ≡ true) ⊎ (has_prefix url (codes "/") ≡ false)
        → is_valid_redirect url ≡ true
        → IsTarget url
    to (inl slash) h = is_path url slash h
    to (inr other) h = not_path url other h

    from : IsTarget url → is_valid_redirect url ≡ true
    from (inl (b, nb)) = path_ok url b nb
    from (inr (inl (rest, e, ne))) = rw e (http_ok rest ne)
    from (inr (inr (rest, e))) = rw e (https_ok rest)
