-- ===== src/Captive/Page.antt =====
-- internal/captive/server.go: the page of handleLogin, up to its fixed text.
use dns_filter.Prelude.{
  ℕ, ◌≡◌, ◌≢◌, ◌↔◌, ◌⊎◌, refl, sym, ap, [], ◌∷◌, ◌++◌, Text, codes, is_empty, if◌then◌else◌,
  nat_beq, arith, All, All-append,
}

-- html.EscapeString
unfoldable pub escape_char : ℕ → Text
escape_char c =
    if nat_beq c b'&'
    then codes "&amp;"
    else if nat_beq c 39
    then codes "&#39;"
    else if nat_beq c b'<'
    then codes "&lt;"
    else if nat_beq c b'>'
    then codes "&gt;"
    else if nat_beq c b'"'
    then codes "&#34;"
    else c ∷ []

unfoldable pub escape : Text → Text
escape [] = []
escape (c ∷ s) = escape_char c ++ escape s

-- what stands in the page for the parameters `error` and `redirect`: the markup of the message, and
-- the value of the hidden field
pub record LoginPage : Type 0 where
  pub error_html : Text
  pub redirect_value : Text

-- Server.handleLogin
unfoldable pub handle_login : Text → Text → LoginPage
unfolding escape escape_char
handle_login error redirect =
    let message = escape error in
    record {
      error_html =
          if is_empty message
          then []
          else codes "<div class=\"error\">" ++ (message ++ codes "</div>");
      redirect_value = escape redirect;
    }

-- no character ends an attribute's value or begins a tag
abbrev pub IsInert : Text → Type 0
IsInert s = All (λ c. (c ≢ b'"') × (c ≢ 39) × (c ≢ b'<') × (c ≢ b'>')) s

escape_char-IsInert : (c : ℕ) → IsInert (escape_char c)
unfolding escape_char
escape_char-IsInert c = ground arith

escape-IsInert : (s : Text) → IsInert (escape s)
unfolding escape
escape-IsInert [] = tt
escape-IsInert (c ∷ s) =
    All-append _ (escape_char c) (escape s) (escape_char-IsInert c) (escape-IsInert s)

escape_char_first :
    (c d : ℕ) (s t : Text) → escape_char c ++ s ≡ escape_char d ++ t → (c ≡ d) × (s ≡ t)
unfolding escape_char
escape_char_first c d s t e = ground (arith, e)

escape_char-nonempty : (c : ℕ) (s : Text) → [] ≢ escape_char c ++ s
unfolding escape_char
escape_char-nonempty c s e = ground (arith, e)

escape-injective : (s t : Text) → escape s ≡ escape t → s ≡ t
unfolding escape
escape-injective [] [] e = refl
escape-injective [] (d ∷ t) e = absurd (escape_char-nonempty d (escape t) e)
escape-injective (c ∷ s) [] e = absurd (escape_char-nonempty c (escape s) (sym e))
escape-injective (c ∷ s) (d ∷ t) e =
    let (same, rest) = escape_char_first c d (escape s) (escape t) e in
    rw same (ap (◌∷◌ d) (escape-injective s t rest))

abbrev pub IsMessage : Text → Text → Type 0
IsMessage html message =
    (html ≡ []) ⊎ (html ≡ codes "<div class=\"error\">" ++ (message ++ codes "</div>"))

-- Neither parameter of the login page can leave its place: the value of the hidden field and the
-- message have no quote and no angle bracket, whatever the address says; and two values of the
-- field are the same only for the same address to go back to.
pub handle_login-IsInert :
    (error redirect other_error other : Text)
    → let page = handle_login error redirect in
      IsInert page.redirect_value
      × ((message : Text) × IsInert message × IsMessage page.error_html message)
      × ((page.redirect_value ≡ (handle_login other_error other).redirect_value)
          ↔ (redirect ≡ other))
unfolding handle_login
handle_login-IsInert error redirect other_error other = (
  escape-IsInert redirect,
  (escape error, escape-IsInert error, ground arith),
  (escape-injective redirect other, ap escape),
)
