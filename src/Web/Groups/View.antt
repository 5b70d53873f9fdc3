-- ===== src/Web/Groups/View.antt =====
-- What web/src/pages/Groups.tsx renders, and what its events do.
use dns_filter.Prelude.{
  ℕ, Bool, true, false, List, [], ◌∷◌, ◌++◌, map, Text, codes, is_empty, not, if◌then◌else◌,
  text_beq,
}
use dns_filter.Web.Html
use dns_filter.Web.Html.{Node, text, button, input, checkbox, form, nodes, el, el_class, txt, when}
use dns_filter.Web.Page.{Next, stay, show, is_open, message_box}
use dns_filter.Web.Toggle.{member}
use dns_filter.Web.Lists.{Category}
use dns_filter.Web.Groups.{
  Group, Groups, Request, create, delete_, open_policy, toggle_category, save_policy,
}

pub data Event : Type 0 where
  name_changed description_changed : Text → Event
  submitted : Event
  policy_clicked delete_clicked : ℕ → Event
  category_clicked : ℕ → Event
  save_clicked : Event

-- the setters that stand in the markup, and the handlers up to their requests; the user confirms
unfoldable pub update : Event → Groups → Next Groups Request
update (name_changed v) p = stay (record p { name = v })
update (description_changed v) p = stay (record p { description = v })
update submitted p = create p
update (policy_clicked id) p = open_policy id p
update (delete_clicked id) p = delete_ id true p
update (category_clicked id) p = stay (toggle_category id p)
update save_clicked p = save_policy p

-- `catLabels[cat.name] || cat.name`, the same in Groups.tsx and Lists.tsx
unfoldable pub cat_label : Text → Text
cat_label name =
    if text_beq name (codes "malware")
    then codes "Malware e Phishing"
    else if text_beq name (codes "ads")
    then codes "Publicidade e Rastreamento"
    else if text_beq name (codes "adult")
    then codes "Conteúdo Adulto"
    else if text_beq name (codes "social")
    then codes "Redes Sociais"
    else if text_beq name (codes "streaming")
    then codes "Streaming de Vídeo"
    else if text_beq name (codes "gaming")
    then codes "Jogos Online"
    else name

abbrev pub group_form : Groups → Node Event
group_form p = form submitted (
    nodes (
      el "div" (el "label" (txt "Nome" ∷ []) ∷ input true p.name name_changed ∷ [])
      ∷ el "div"
          (el "label" (txt "Descrição" ∷ []) ∷ input false p.description description_changed ∷ [])
      ∷ Html.submit false (nodes (txt "Criar" ∷ []))
      ∷ []))

-- one box of the panel
abbrev pub category_box : List ℕ → Category → Node Event
category_box blocked cat =
    el_class "label"
      (if member cat.id blocked
        then codes "bg-red-100 border border-red-300"
        else codes "bg-white border border-gray-200")
      (checkbox (member cat.id blocked) (category_clicked cat.id)
        ∷ el "div" (
            el "span" (text (cat_label cat.name) ∷ [])
            ∷ when (not (is_empty cat.description)) (el "p" (text cat.description ∷ [])))
        ∷ [])

abbrev pub no_categories : List Category → Bool
no_categories [] = true
no_categories (c ∷ cs) = false

-- what stands in place of the boxes, the same in Groups.tsx and Lists.tsx
abbrev pub nothing_to_choose : {E : Type 0} → List Category → List (Node E)
nothing_to_choose cs =
    when (no_categories cs) (el "p" (txt "Nenhuma categoria cadastrada no banco." ∷ []))

abbrev pub save_button : Groups → Node Event
save_button p =
    button [] p.saving_policy save_clicked
      (nodes (text (if p.saving_policy then codes "Salvando..." else codes "Salvar Política") ∷ []))

-- the panel below the row of a group
abbrev pub policy_panel : Groups → Group → Node Event
policy_panel p g = el "tr" (
    el "td" (
      el "div" (
        el "h4" (text (codes "Categorias bloqueadas para o grupo \"" ++ g.name ++ codes "\"") ∷ [])
        ∷ el "p" (
            txt
              "Marque as categorias que este grupo NÃO pode acessar. Listas associadas a essas categorias serão bloqueadas."
            ∷ [])
        ∷ [])
      ∷ el "div" (map (category_box p.blocked_cats) p.categories)
      ∷ (nothing_to_choose p.categories ++ (save_button p ∷ [])))
    ∷ [])

abbrev pub row_buttons : Groups → Group → List (Node Event)
row_buttons p g =
    button
      (if is_open p.editing_policy g.id
        then codes "bg-blue-100 text-blue-700"
        else codes "bg-gray-100 text-gray-600")
      false (policy_clicked g.id)
      (nodes (
        text (
          if is_open p.editing_policy g.id
          then codes "Fechar Política"
          else codes "Editar Política")
        ∷ []))
    ∷ button [] false (delete_clicked g.id) (nodes (txt "Remover" ∷ []))
    ∷ []

-- one group: its row and, where it is open, its panel
abbrev pub group_rows : Groups → Group → List (Node Event)
group_rows p g =
    el "tr" (
      el "td" (text (show g.id) ∷ [])
      ∷ el "td" (text g.name ∷ [])
      ∷ el "td" (text g.description ∷ [])
      ∷ el "td" (row_buttons p g)
      ∷ [])
    ∷ when (is_open p.editing_policy g.id) (policy_panel p g)

abbrev pub fragments : Groups → List Group → List (Node Event)
fragments p [] = []
fragments p (g ∷ gs) = group_rows p g ++ fragments p gs

abbrev pub header_cell : Text → Node Event
header_cell s = el "th" (text s ∷ [])

-- what stands below the message
abbrev pub body : Groups → List (Node Event)
body p =
    el "div" (el "h3" (txt "Novo Grupo" ∷ []) ∷ group_form p ∷ [])
    ∷ el "div" (
        el "table" (
          el "thead" (
            el "tr"
              (map header_cell (codes "ID" ∷ codes "Nome" ∷ codes "Descrição" ∷ codes "Ações" ∷ []))
            ∷ [])
          ∷ el "tbody" (fragments p p.groups)
          ∷ [])
        ∷ [])
    ∷ []

unfoldable pub view : Groups → Node Event
view p = el "div" (el "h2" (txt "Grupos e Políticas" ∷ []) ∷ (message_box p.message ++ body p))
