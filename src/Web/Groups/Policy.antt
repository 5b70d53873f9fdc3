-- ===== src/Web/Groups/Policy.antt =====
-- What web/src/pages/Groups.tsx sends as a group's policy, after any clicks on the boxes.
use dns_filter.Prelude.{
  ℕ, ◌≡◌, refl, ap, ◌∙◌, Bool, not, List, [], ◌∷◌, some, if◌then◌else◌, ◌==◌, nat_eq,
}
use dns_filter.Web.Toggle.{member, toggle, member-toggle_flip, IsUnique, toggle-IsUnique}
use dns_filter.Web.Groups.{Groups, put_policy, policy_opened, toggle_category, save_policy}

-- The clicks, in order.
abbrev pub clicked : List ℕ → Groups → Groups
clicked [] p = p
clicked (c ∷ cs) p = clicked cs (toggle_category c p)

-- Whether a box that starts as `on` is checked after the clicks.
abbrev pub flipped : ℕ → List ℕ → Bool → Bool
flipped x [] on = on
flipped x (c ∷ cs) on = flipped x cs (if x == c then not on else on)

toggles : List ℕ → List ℕ → List ℕ
toggles [] l = l
toggles (c ∷ cs) l = toggles cs (toggle c l)

clicked_lem :
    (cs : List ℕ) (p : Groups)
    → clicked cs p ≡ record p { blocked_cats = toggles cs p.blocked_cats }
unfolding toggles toggle_category
clicked_lem [] p = refl
clicked_lem (c ∷ cs) p = clicked_lem cs (toggle_category c p)

member-toggles : (x : ℕ) (cs l : List ℕ) → member x (toggles cs l) ≡ flipped x cs (member x l)
unfolding toggles
member-toggles x [] l = refl
member-toggles x (c ∷ cs) l =
    member-toggles x cs (toggle c l) ∙ ap (flipped x cs) (member-toggle_flip x c l)

toggles-IsUnique : (cs l : List ℕ) → IsUnique l → IsUnique (toggles cs l)
unfolding toggles
toggles-IsUnique [] l u = u
toggles-IsUnique (c ∷ cs) l u = toggles-IsUnique cs (toggle c l) (toggle-IsUnique c l u)

-- Where a group's policy is loaded without duplicates, whatever boxes are clicked, saving sends
-- one request, for that group, with the categories whose boxes were clicked an odd number of times
-- added or taken out, and without duplicates.
pub saved_policy :
    (p : Groups) (id : ℕ) (cats cs : List ℕ)
    → IsUnique cats
    → (sent : List ℕ) × ((save_policy (clicked cs (policy_opened id (some (some cats)) p))).requests
        ≡ put_policy id sent ∷ [])
      × ((x : ℕ) → member x sent ≡ flipped x cs (member x cats))
      × IsUnique sent
unfolding policy_opened save_policy
saved_policy p id cats cs unique = (
  toggles cs cats,
  ap (λ q. (save_policy q).requests) (clicked_lem cs (policy_opened id (some (some cats)) p)),
  λ x. member-toggles x cs cats,
  toggles-IsUnique cs cats unique,
)
