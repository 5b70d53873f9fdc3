-- ===== src/Web/Dashboard/Polls.antt =====
-- What the overview shows after any polls (web/src/pages/Dashboard.tsx).
use dns_filter.Prelude.{
  ◌≡◌, ◌↔◌, inl, inr, refl, List, [], ◌∷◌, Option, none, some, codes, arith, In,
}
use dns_filter.Web.Dashboard.{
  Metrics, Stats, Dashboard, Screen, failed, mounted, fetched, shown, polled,
}

module _ {Figure : Type 0} where
  abbrev pub IsFailed : Screen Figure → Type 0
  IsFailed s = s ≡ failed (codes "Erro ao carregar dados")

  still-IsFailed :
      (rs : List (Option (Metrics Figure × Stats Figure))) (p : Dashboard Figure)
      → p.error ≡ codes "Erro ao carregar dados"
      → IsFailed (shown Figure (polled Figure rs p))
  unfolding fetched shown
  still-IsFailed [] p e = ground (arith, e)
  still-IsFailed (none ∷ rs) p e = still-IsFailed rs (fetched Figure none p) refl
  still-IsFailed (some x ∷ rs) p e = still-IsFailed rs (fetched Figure (some x) p) e

  polled_iff :
      (rs : List (Option (Metrics Figure × Stats Figure))) (p : Dashboard Figure)
      → p.error ≡ []
      → IsFailed (shown Figure (polled Figure rs p)) ↔ In none rs
  unfolding fetched shown
  polled_iff [] p e = ground (arith, e)
  polled_iff (none ∷ rs) p e = (λ _. inl refl, λ _. still-IsFailed rs (fetched Figure none p) refl)
  polled_iff (some x ∷ rs) p e =
      let later = polled_iff rs (fetched Figure (some x) p) e in
      (λ h. inr (later.0 h), λ h. later.1 (elim h [ inl same ↦ cc same | inr i ↦ i ]))

  -- Whatever the answers are, the overview shows its error exactly where one of the polls so far
  -- has failed: one that fails hides the figures for good, however many succeed after it.
  pub polled-IsFailed_iff :
      (rs : List (Option (Metrics Figure × Stats Figure)))
      → IsFailed (shown Figure (polled Figure rs (mounted Figure))) ↔ In none rs
  polled-IsFailed_iff rs = polled_iff rs (mounted Figure) refl
