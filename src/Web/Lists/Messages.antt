-- ===== src/Web/Lists/Messages.antt =====
-- The colours of the messages of web/src/pages/Lists.tsx.
use dns_filter.Prelude.{
  ℕ, ◌≡◌, refl, true, false, [], ◌∷◌, none, some, Text, codes, arith, ap, ◌∙◌, All, has_prefix,
}
use dns_filter.Web.Page.{Next, stay, includes, is_error}
use dns_filter.Web.Lists.{
  Lists, Request, created, download_done, reloaded, deleted, categories_opened, categories_saved,
  save_domains, domains_saved, domains_of,
}

-- What the page does on a failure: a red message, no other request, and no timer that clears it.
abbrev pub IsReported : Next Lists Request → Type 0
IsReported n = (is_error n.page.message ≡ true) × (n.requests ≡ []) × (n.timers ≡ [])

-- Every request that fails, but those that load the page, leaves a red message, starts no other
-- request and sets no timer, so that the message stays.
pub failures-IsReported :
    (p seen : Lists) (id : ℕ)
    → All IsReported (
        created false p
        ∷ download_done none p
        ∷ reloaded none p
        ∷ deleted seen id false p
        ∷ categories_opened id none p
        ∷ categories_saved seen false p
        ∷ domains_saved none p
        ∷ [])
unfolding is_error includes has_prefix created download_done reloaded deleted categories_opened
    categories_saved domains_saved
failures-IsReported p seen id = (
  (refl, refl, refl),
  (
    (refl, refl, refl),
    (
      (refl, refl, refl),
      ((refl, refl, refl), ((refl, refl, refl), ((refl, refl, refl), ((refl, refl, refl), tt)))),
    ),
  ),
)

abbrev none_valid : Text
none_valid = codes "Nenhum domínio válido encontrado"

none_valid-green : is_error none_valid ≡ false
unfolding is_error includes has_prefix
none_valid-green = refl

save_domains-message :
    (p : Lists) (id : ℕ)
    → p.adding_domains ≡ some id
    → domains_of p.domains_text ≡ []
    → save_domains p ≡ stay (record p { message = none_valid })
unfolding save_domains
save_domains-message p id e none_found = ground (arith, e, none_found)

-- Where a list's panel is open and no line of the text is a domain, saving sends nothing, and its
-- message is green.
pub save_domains-nothing :
    (p : Lists) (id : ℕ)
    → p.adding_domains ≡ some id
    → domains_of p.domains_text ≡ []
    → ((save_domains p).requests ≡ []) × (is_error (save_domains p).page.message ≡ false)
save_domains-nothing p id e none_found = (
  ap (λ n. n.requests) (save_domains-message p id e none_found),
  ap (λ n. is_error n.page.message) (save_domains-message p id e none_found) ∙ none_valid-green,
)
