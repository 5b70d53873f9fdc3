-- ===== src/Web/Lists/View.antt =====
-- What web/src/pages/Lists.tsx renders, and what its events do.
use dns_filter.Prelude.{
  ℕ, zero, suc, true, false, ◌||◌, List, [], ◌∷◌, ◌++◌, map, Text, codes, trim, is_empty,
  if◌then◌else◌,
}
use dns_filter.Web.Html
use dns_filter.Web.Html.{
  Node, Choice, text, button, input, text_area, select, checkbox, form, nodes, el, el_class, txt,
  when,
}
use dns_filter.Web.Page.{Next, stay, show, is_open, message_box}
use dns_filter.Web.Toggle.{member}
use dns_filter.Web.Lists.{
  BlocklistInfo, Category, Lists, Request, create, download, reload, delete_, open_categories,
  toggle_list_cat, save_categories, open_domains, save_domains, valid_count,
}
use dns_filter.Web.Groups.View.{cat_label, nothing_to_choose}

pub data Event : Type 0 where
  download_clicked reload_clicked : Event
  name_changed source_changed : Text → Event
  type_changed : ℕ → Event
  submitted : Event
  domains_clicked categories_clicked delete_clicked : ℕ → Event
  text_changed : Text → Event
  save_domains_clicked : Event
  category_clicked : ℕ → Event
  save_categories_clicked : Event

-- The setters that stand in the markup, and the handlers up to their requests; the user confirms.
-- First the events of the two panels below a row.
abbrev pub update_panels : Event → Lists → Next Lists Request
update_panels (text_changed v) p = stay (record p { domains_text = v })
update_panels save_domains_clicked p = save_domains p
update_panels (category_clicked id) p = stay (toggle_list_cat id p)
update_panels save_categories_clicked p = save_categories p
update_panels other p = stay p

-- those of the buttons of a row
abbrev pub update_row : Event → Lists → Next Lists Request
update_row (domains_clicked id) p = open_domains id p
update_row (categories_clicked id) p = open_categories id p
update_row (delete_clicked id) p = delete_ id true p
update_row other p = update_panels other p

-- those of the buttons of the header and of the form, and all others
unfoldable pub update : Event → Lists → Next Lists Request
update download_clicked p = download p
update reload_clicked p = reload p
update (name_changed v) p = stay (record p { name = v })
update (source_changed v) p = stay (record p { source_url = v })
update (type_changed n) p = stay (record p { list_type = n })
update submitted p = create p
update other p = update_row other p

-- `typeLabels[l.list_type] || { label: '?', color: 'bg-gray-100' }`
unfoldable pub type_label : ℕ → Text
type_label zero = codes "Blacklist"
type_label (suc zero) = codes "Whitelist"
type_label (suc (suc n)) = codes "?"

unfoldable pub type_color : ℕ → Text
type_color zero = codes "bg-red-100 text-red-700"
type_color (suc zero) = codes "bg-green-100 text-green-700"
type_color (suc (suc n)) = codes "bg-gray-100"

abbrev pub page_header : Lists → Node Event
page_header p = el "div" (
    el "h2" (txt "Listas de Bloqueio" ∷ [])
    ∷ el "div" (
        button [] p.downloading download_clicked (
          nodes (
            text (if p.downloading then codes "Baixando..." else codes "Baixar Listas Externas")
            ∷ []))
        ∷ button [] p.reloading reload_clicked (
            nodes (
              text (if p.reloading then codes "Recarregando..." else codes "Recarregar Listas")
              ∷ []))
        ∷ [])
    ∷ [])

abbrev pub list_form : Lists → Node Event
list_form p = form submitted (
    nodes (
      el "div" (el "label" (txt "Nome" ∷ []) ∷ input true p.name name_changed ∷ [])
      ∷ el "div" (
          el "label" (txt "URL (opcional — deixe vazio para lista manual)" ∷ [])
          ∷ input false p.source_url source_changed
          ∷ [])
      ∷ el "div" (
          el "label" (txt "Tipo" ∷ [])
          ∷ select (show p.list_type) (
              (record { value = codes "0"; label = codes "Blacklist"; chosen = type_changed 0 })
              ∷ (record { value = codes "1"; label = codes "Whitelist"; chosen = type_changed 1 })
              ∷ [])
          ∷ [])
      ∷ Html.submit false (nodes (txt "Criar" ∷ []))
      ∷ []))

abbrev pub help : Node Event
help = el "div" (
    el "div" (
      el "p" (txt "Como funciona:" ∷ [])
      ∷ el "p" (
          txt "• Listas "
          ∷ el "strong" (txt "sem categoria" ∷ [])
          ∷ txt " associada → bloqueiam/permitem para "
          ∷ el "strong" (txt "toda a rede" ∷ [])
          ∷ txt " (global)"
          ∷ [])
      ∷ el "p" (
          txt "• Listas "
          ∷ el "strong" (txt "com categoria" ∷ [])
          ∷ txt " associada → bloqueiam apenas para "
          ∷ el "strong" (txt "grupos que bloqueiam aquela categoria" ∷ [])
          ∷ txt " na política"
          ∷ [])
      ∷ el "p" (
          txt "• Use o botão "
          ∷ el "strong" (txt "Domínios" ∷ [])
          ∷ txt " para adicionar domínios manualmente a qualquer lista"
          ∷ [])
      ∷ el "p" (
          txt "• Após alterar listas ou domínios, clique "
          ∷ el "strong" (txt "Recarregar Listas" ∷ [])
          ∷ txt " para aplicar"
          ∷ [])
      ∷ [])
    ∷ [])

abbrev pub row_buttons : Lists → BlocklistInfo → List (Node Event)
row_buttons p l =
    button
      (if is_open p.adding_domains l.id
        then codes "bg-green-100 text-green-700"
        else codes "bg-gray-100 text-gray-600")
      false (domains_clicked l.id)
      (nodes
        (text (if is_open p.adding_domains l.id then codes "Fechar" else codes "Domínios") ∷ []))
    ∷ button
        (if is_open p.editing_cats l.id
          then codes "bg-purple-100 text-purple-700"
          else codes "bg-gray-100 text-gray-600")
        false (categories_clicked l.id)
        (nodes
          (text (if is_open p.editing_cats l.id then codes "Fechar" else codes "Categorias") ∷ []))
    ∷ button [] false (delete_clicked l.id) (nodes (txt "Remover" ∷ []))
    ∷ []

-- the panel of the domains, below the row of a list
abbrev pub domains_panel : Lists → BlocklistInfo → Node Event
domains_panel p l = el "tr" (
    el "td" (
      el "div" (
        el "h4" (text (codes "Adicionar domínios à lista \"" ++ l.name ++ codes "\"") ∷ [])
        ∷ el "p" (
            txt "Digite um domínio por linha. Exemplos: facebook.com, instagram.com, tiktok.com"
            ∷ [])
        ∷ [])
      ∷ text_area p.domains_text text_changed
      ∷ el "div" (
          button [] (p.saving_domains || is_empty (trim p.domains_text)) save_domains_clicked (
            nodes (
              text (if p.saving_domains then codes "Salvando..." else codes "Adicionar Domínios")
              ∷ []))
          ∷ el "span" (text (show (valid_count p.domains_text) ++ codes " domínios válidos") ∷ [])
          ∷ [])
      ∷ [])
    ∷ [])

abbrev pub category_box : List ℕ → Category → Node Event
category_box on cat =
    el_class "label"
      (if member cat.id on
        then codes "bg-purple-100 border border-purple-300"
        else codes "bg-white border border-gray-200")
      (checkbox (member cat.id on) (category_clicked cat.id)
        ∷ el "div" (el "span" (text (cat_label cat.name) ∷ []) ∷ [])
        ∷ [])

abbrev pub save_button : Lists → Node Event
save_button p =
    button [] p.saving_cats save_categories_clicked
      (nodes (text (if p.saving_cats then codes "Salvando..." else codes "Salvar Categorias") ∷ []))

-- the panel of the categories, below the row of a list
abbrev pub categories_panel : Lists → BlocklistInfo → Node Event
categories_panel p l = el "tr" (
    el "td" (
      el "div" (
        el "h4" (text (codes "Categorias da lista \"" ++ l.name ++ codes "\"") ∷ [])
        ∷ el "p" (
            txt
              "Selecione a quais categorias esta lista pertence. Se associada a categorias, os domínios só serão bloqueados para grupos que bloqueiam essas categorias. Se nenhuma categoria for selecionada, a lista bloqueia para toda a rede (global)."
            ∷ [])
        ∷ [])
      ∷ el "div" (map (category_box p.list_cats) p.categories)
      ∷ (nothing_to_choose p.categories ++ (save_button p ∷ [])))
    ∷ [])

abbrev pub header_cell : Text → Node Event
header_cell s = el "th" (text s ∷ [])

-- `locale_string` is the browser's `toLocaleString` of a whole number.
module _ (locale_string : ℕ → Text) where
  abbrev pub list_row : Lists → BlocklistInfo → Node Event
  list_row p l = el "tr" (
      el "td" (text (show l.id) ∷ [])
      ∷ el "td" (text l.name ∷ [])
      ∷ el "td" (el_class "span" (type_color l.list_type) (text (type_label l.list_type) ∷ []) ∷ [])
      ∷ el "td" (text (locale_string l.domain_count) ∷ [])
      ∷ el "td" (
          el_class "span"
            (if l.active
              then codes "bg-green-100 text-green-700"
              else codes "bg-gray-100 text-gray-500")
            (text (if l.active then codes "Ativa" else codes "Inativa") ∷ [])
          ∷ [])
      ∷ el "td" (text (if is_empty l.source_url then codes "Manual" else l.source_url) ∷ [])
      ∷ el "td" (row_buttons p l)
      ∷ [])

  -- one list: its row and its open panels
  abbrev pub list_rows : Lists → BlocklistInfo → List (Node Event)
  list_rows p l =
      list_row p l
      ∷ (when (is_open p.adding_domains l.id) (domains_panel p l)
          ++ when (is_open p.editing_cats l.id) (categories_panel p l))

  abbrev pub fragments : Lists → List BlocklistInfo → List (Node Event)
  fragments p [] = []
  fragments p (l ∷ ls) = list_rows p l ++ fragments p ls

  -- what stands below the message
  abbrev pub body : Lists → List (Node Event)
  body p =
      el "div" (el "h3" (txt "Nova Lista" ∷ []) ∷ list_form p ∷ [])
      ∷ help
      ∷ el "div" (
          el "table" (
            el "thead" (
              el "tr" (
                map header_cell (
                  codes "ID"
                  ∷ codes "Nome"
                  ∷ codes "Tipo"
                  ∷ codes "Domínios"
                  ∷ codes "Status"
                  ∷ codes "Fonte"
                  ∷ codes "Ações"
                  ∷ []))
              ∷ [])
            ∷ el "tbody" (fragments p p.lists)
            ∷ [])
          ∷ [])
      ∷ []

  unfoldable pub view : Lists → Node Event
  view p = el "div" (page_header p ∷ (message_box p.message ++ body p))
