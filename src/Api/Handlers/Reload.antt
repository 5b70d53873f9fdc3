-- ===== src/Api/Handlers/Reload.antt =====
-- What the lists hold after ReloadLists of internal/api/handlers.go.
use dns_filter.Prelude.{
  ◌≡◌, refl, ◌↔◌, ◌⊎◌, inl, inr, true, List, [], ◌∷◌, Text, length, arith, lookup, text_eq,
}
use dns_filter.Filter.Blacklist.{Blacklist, add, clear, contains, listed}
use dns_filter.Filter.Blacklist.Matching.{contains_iff}
use dns_filter.Filter.Blacklist.Loading.{CoveredBy, CoveredBy-cons}
use dns_filter.Api.Handlers.{Libs, Handlers, reloaded, add_all, reload_lists, write_json}

add_all_iff :
    (ds : List Text) (b : Blacklist) (d : Text)
    → (contains (add_all ds b) d ≡ true) ↔ ((contains b d ≡ true) ⊎ CoveredBy ds d)
unfolding add_all
add_all_iff [] b d = (λ h. inl h, λ h. elim h [ inl e ↦ e | inr (x, m, c) ↦ absurd m ])
add_all_iff (x ∷ ds) b d = CoveredBy-cons x d ds b (add_all_iff ds (add x b) d)

not_cleared : (b : Blacklist) (d : Text) → contains (clear b) d ≡ true → ⊥
unfolding clear listed lookup
not_cleared b d h = let (p, on, cov) = (contains_iff (clear b) d).0 h in ground (arith, on)

pub refilled_iff :
    (ds : List Text) (b : Blacklist) (d : Text)
    → (contains (add_all ds (clear b)) d ≡ true) ↔ CoveredBy ds d
refilled_iff ds b d = (
  λ h. elim ((add_all_iff ds (clear b) d).0 h) [ inl e ↦ absurd (not_cleared b d e) | inr c ↦ c ],
  λ c. (add_all_iff ds (clear b) d).1 (inr c),
)

-- Where the database gives the active entries, a reload leaves lists that block and allow exactly
-- what those entries cover, whatever they held before, and answers with their numbers.
pub reload_lists_iff :
    (lib : Libs) (h : Handlers lib) (blacks whites : List Text) (d : Text)
    → lib.store.load_active_blocklist_entries h.db ≡ inr (blacks, whites)
    → let (h', answer) = reload_lists lib h in
      ((contains h'.black d ≡ true) ↔ CoveredBy blacks d)
      × ((contains h'.white d ≡ true) ↔ CoveredBy whites d)
      × (answer ≡ write_json lib (reloaded (length blacks) (length whites)))
unfolding reload_lists
reload_lists_iff lib h blacks whites d loaded =
    rw loaded (refilled_iff blacks h.black d, refilled_iff whites h.white d, refl)
