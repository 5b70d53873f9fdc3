-- ===== src/Web/Forms/RangesView.antt =====
-- What web/src/pages/Ranges.tsx renders, and what its events do.
use dns_filter.Prelude.{
  ℕ, Bool, true, false, List, [], ◌∷◌, ◌++◌, map, Text, codes, is_empty, if◌then◌else◌, ◌==◌,
  nat_eq,
}
use dns_filter.Web.Html.{
  Node, text, submit, input, select, form, Choice, nodes, el, el_class, txt, when,
}
use dns_filter.Web.Page.{Next, stay, show, message_box}
use dns_filter.Web.Forms.{IpRange, GroupName, Ranges, RangesRequest, create_range, group_name}

pub data Event : Type 0 where
  cidr_changed description_changed : Text → Event
  group_changed mode_changed : ℕ → Event
  submitted : Event

-- the setters that stand in the markup, and the form's handler
unfoldable pub update : Event → Ranges → Next Ranges RangesRequest
update (cidr_changed v) p = stay (record p { cidr = v })
update (description_changed v) p = stay (record p { description = v })
update (group_changed g) p = stay (record p { group_id = g })
update (mode_changed m) p = stay (record p { auth_mode = m })
update submitted p = create_range p

-- authModeLabels, with the label and the colour of an unknown mode
abbrev pub mode_label : ℕ → Text
mode_label m =
    if m == 0
    then codes "Sem autenticação"
    else if m == 1
    then codes "Captive Portal"
    else codes "?"

abbrev pub mode_colour : ℕ → Text
mode_colour m =
    if m == 0
    then codes "bg-gray-100 text-gray-600"
    else if m == 1
    then codes "bg-amber-100 text-amber-700"
    else codes "bg-gray-100"

abbrev pub group_choice : GroupName → Choice Event
group_choice g = record { value = show g.id; label = g.name; chosen = group_changed g.id }

abbrev pub mode_choice : ℕ → Choice Event
mode_choice m = record { value = show m; label = mode_label m; chosen = mode_changed m }

abbrev pub range_form : Ranges → Node Event
range_form p = form submitted (
    nodes (
      el "div" (el "label" (txt "CIDR" ∷ []) ∷ input true p.cidr cidr_changed ∷ [])
      ∷ el "div" (
          el "label" (txt "Grupo" ∷ []) ∷ select (show p.group_id) (map group_choice p.groups) ∷ [])
      ∷ el "div" (
          el "label" (txt "Autenticação" ∷ [])
          ∷ select (show p.auth_mode) (mode_choice 0 ∷ mode_choice 1 ∷ [])
          ∷ [])
      ∷ el "div"
          (el "label" (txt "Descrição" ∷ []) ∷ input false p.description description_changed ∷ [])
      ∷ submit false (nodes (txt "Criar" ∷ []))
      ∷ []))

abbrev pub range_row : List GroupName → IpRange → Node Event
range_row groups r = el "tr" (
    el "td" (text (show r.id) ∷ [])
    ∷ el "td" (text r.cidr ∷ [])
    ∷ el "td" (text (group_name groups r.group_id) ∷ [])
    ∷ el "td" (el_class "span" (mode_colour r.auth_mode) (text (mode_label r.auth_mode) ∷ []) ∷ [])
    ∷ el "td" (text (if is_empty r.description then codes "-" else r.description) ∷ [])
    ∷ [])

abbrev pub header_cell : Text → Node Event
header_cell s = el "th" (text s ∷ [])

abbrev pub no_ranges : List IpRange → Bool
no_ranges [] = true
no_ranges (r ∷ rs) = false

unfoldable pub view : Ranges → Node Event
view p = el "div" (
    el "h2" (txt "Faixas de IP" ∷ [])
    ∷ el "div" (el "h3" (txt "Nova Faixa" ∷ []) ∷ (message_box p.message ++ (range_form p ∷ [])))
    ∷ el "div" (
        el "table" (
          el "thead" (
            el "tr" (
              map header_cell (
                codes "ID"
                ∷ codes "CIDR"
                ∷ codes "Grupo"
                ∷ codes "Autenticação"
                ∷ codes "Descrição"
                ∷ []))
            ∷ [])
          ∷ el "tbody" (
              map (range_row p.groups) p.ranges
              ++ when (no_ranges p.ranges)
                  (el "tr" (el "td" (txt "Nenhuma faixa cadastrada" ∷ []) ∷ [])))
          ∷ [])
        ∷ [])
    ∷ [])
