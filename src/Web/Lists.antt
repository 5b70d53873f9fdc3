-- ===== src/Web/Lists.antt =====
-- web/src/pages/Lists.tsx: the page of blocklists. `seen` is the page of the render in which a
-- handler was made, whose state the handler reads again after its answer. A reply is none where
-- the request fails.
pub mod Panels
pub mod Domains
pub mod Messages
pub mod View
pub mod Clicks
pub mod Once
use Prim.Native.String.{String}
use dns_filter.Prelude.{
  ℕ, ◌≡◌, Bool, true, false, not, ◌&&◌, ◌||◌, List, [], ◌∷◌, ◌++◌, map, Option, none, some, Text,
  codes, trim, to_lower, split, has_char, is_empty, keep, length, nat_beq, if◌then◌else◌, ◌==◌,
  nat_eq,
}
use dns_filter.Web.Page.{Next, stay, asks, show, is_open, close_if, or_empty}
use dns_filter.Web.Toggle.{toggle}

pub record BlocklistInfo : Type 0 where
  pub id : ℕ
  pub name : Text
  pub source_url : Text
  pub list_type : ℕ
  pub active : Bool
  pub domain_count : ℕ

pub record Category : Type 0 where
  pub id : ℕ
  pub name : Text
  pub description : Text

pub data Request : Type 0 where
  get_lists : Request
  get_categories : Request
  post_list : Text → Text → ℕ → Request
  post_download : Request
  post_reload : Request
  delete_list : ℕ → Request
  get_list_categories : ℕ → Request
  put_list_categories : ℕ → List ℕ → Request
  post_entries : ℕ → List Text → Request

pub record Lists : Type 0 where
  pub lists : List BlocklistInfo
  pub categories : List Category
  pub name : Text
  pub source_url : Text
  pub list_type : ℕ
  pub message : Text
  pub reloading : Bool
  pub downloading : Bool
  pub editing_cats : Option ℕ
  pub list_cats : List ℕ
  pub saving_cats : Bool
  pub adding_domains : Option ℕ
  pub domains_text : Text
  pub saving_domains : Bool

-- `useState` and the effect that runs once
abbrev pub mounted : Next Lists Request
mounted =
    let page : Lists = record {
      lists = [];
      categories = [];
      name = [];
      source_url = [];
      list_type = 0;
      message = [];
      reloading = false;
      downloading = false;
      editing_cats = none;
      list_cats = [];
      saving_cats = false;
      adding_domains = none;
      domains_text = [];
      saving_domains = false;
    } in
    record { page = page; requests = get_lists ∷ get_categories ∷ []; timers = [] }

-- `setTimeout(() => setMessage(''), delay)` runs
unfoldable pub clear_message : Lists → Lists
clear_message p = record p { message = [] }

-- fetchLists: the answer's data, none where it is not an array
unfoldable pub lists_fetched : Option (Option (List BlocklistInfo)) → Lists → Next Lists Request
lists_fetched none p = stay p
lists_fetched (some data_) p = stay (record p { lists = or_empty data_ })

unfoldable pub categories_fetched : Option (Option (List Category)) → Lists → Next Lists Request
categories_fetched none p = stay p
categories_fetched (some data_) p = stay (record p { categories = or_empty data_ })

-- handleCreate
unfoldable pub create : Lists → Next Lists Request
create p = asks p (post_list p.name p.source_url p.list_type)

unfoldable pub created : Bool → Lists → Next Lists Request
created false p = stay (record p { message = codes "Erro ao criar lista" })
created true p =
    let page : Lists = record p {
      name = [];
      source_url = [];
      list_type = 0;
      message = codes "Lista criada com sucesso";
    } in
    record { page = page; requests = get_lists ∷ []; timers = 3000 ∷ [] }

-- What one list gave: -1 stands for a download that failed.
pub data Count : Type 0 where
  minus_one : Count
  loaded : ℕ → Count

pub record Downloaded : Type 0 where
  pub downloaded : List (Text × Count)
  pub blacklist_loaded : ℕ
  pub whitelist_loaded : ℕ

abbrev detail : Text × Count → Text
detail (n, minus_one) = n ++ codes ": " ++ codes "erro"
detail (n, loaded count) = n ++ codes ": " ++ show count ++ codes " domínios"

-- `.join(', ')`
details : List (Text × Count) → Text
details [] = []
details (d ∷ []) = detail d
details (d ∷ e ∷ ds) = detail d ++ codes ", " ++ details (e ∷ ds)

unfoldable pub download : Lists → Next Lists Request
download p = asks (record p { downloading = true }) post_download

unfoldable pub download_done : Option Downloaded → Lists → Next Lists Request
unfolding details
download_done none p =
    stay (record p { message = codes "Erro ao baixar listas externas"; downloading = false })
download_done (some d) p =
    let message =
      codes "Download concluído — "
      ++ details d.downloaded
      ++ codes ". Total: "
      ++ show d.blacklist_loaded
      ++ codes " blacklist + "
      ++ show d.whitelist_loaded
      ++ codes " whitelist" in
    let page : Lists = record p { message = message; downloading = false } in
    record { page = page; requests = get_lists ∷ []; timers = 10000 ∷ [] }

-- handleReload: the answer's counts of the black list and of the white list
unfoldable pub reload : Lists → Next Lists Request
reload p = asks (record p { reloading = true }) post_reload

unfoldable pub reloaded : Option (ℕ × ℕ) → Lists → Next Lists Request
reloaded none p = stay (record p { message = codes "Erro ao recarregar listas"; reloading = false })
reloaded (some (b, w)) p =
    let message =
      codes "Recarregado: " ++ show b ++ codes " blacklist + " ++ show w ++ codes " whitelist" in
    let page : Lists = record p { message = message; reloading = false } in
    record { page = page; requests = []; timers = 3000 ∷ [] }

-- handleDelete, with the user's answer to `confirm`
unfoldable pub delete_ : ℕ → Bool → Lists → Next Lists Request
delete_ id confirmed p = if confirmed then asks p (delete_list id) else stay p

unfoldable pub deleted : Lists → ℕ → Bool → Lists → Next Lists Request
deleted seen id false p = stay (record p { message = codes "Erro ao remover lista" })
deleted seen id true p =
    let page : Lists = record p {
      message = codes "Lista removida";
      editing_cats = close_if seen.editing_cats id p.editing_cats;
      adding_domains = close_if seen.adding_domains id p.adding_domains;
    } in
    record { page = page; requests = get_lists ∷ []; timers = 3000 ∷ [] }

-- openCategories
unfoldable pub open_categories : ℕ → Lists → Next Lists Request
open_categories id p =
    if is_open p.editing_cats id
    then stay (record p { editing_cats = none })
    else asks (record p { adding_domains = none }) (get_list_categories id)

unfoldable pub categories_opened : ℕ → Option (Option (List ℕ)) → Lists → Next Lists Request
categories_opened id none p =
    stay (record p { message = codes "Erro ao carregar categorias da lista" })
categories_opened id (some cats) p =
    stay (record p { list_cats = or_empty cats; editing_cats = some id })

-- toggleListCat
unfoldable pub toggle_list_cat : ℕ → Lists → Lists
toggle_list_cat cat p = record p { list_cats = toggle cat p.list_cats }

-- saveCategories
save_categories_of : Option ℕ → Lists → Next Lists Request
save_categories_of none p = stay p
save_categories_of (some id) p =
    asks (record p { saving_cats = true }) (put_list_categories id p.list_cats)

unfoldable pub save_categories : Lists → Next Lists Request
unfolding save_categories_of
save_categories p = save_categories_of p.editing_cats p

unfoldable pub categories_saved : Lists → Bool → Lists → Next Lists Request
categories_saved seen false p =
    stay (record p { message = codes "Erro ao salvar categorias"; saving_cats = false })
categories_saved seen true p =
    let message =
      codes "Categorias da lista atualizadas — "
      ++ show (length seen.list_cats)
      ++ codes " categorias associadas" in
    let page : Lists = record p { message = message; saving_cats = false } in
    record { page = page; requests = []; timers = 3000 ∷ [] }

-- openDomains
unfoldable pub open_domains : ℕ → Lists → Next Lists Request
open_domains id p =
    if is_open p.adding_domains id
    then stay (record p { adding_domains = none })
    else stay (record p { editing_cats = none; domains_text = []; adding_domains = some id })

-- `d.length > 0 && d.includes('.')`
abbrev pub is_domain : Text → Bool
is_domain d = not (is_empty d) && has_char b'.' d

-- `domainsText.split('\n').map(d => d.trim().toLowerCase()).filter(...)`
unfoldable pub domains_of : Text → List Text
domains_of t = keep is_domain (map (λ d. to_lower (trim d)) (split 10 t))

-- The counter below the text area
unfoldable pub valid_count : Text → ℕ
valid_count t = length (keep (λ d. not (is_empty (trim d)) && has_char b'.' d) (split 10 t))

-- saveDomains: the part after the guard, on the domains found
save_found : ℕ → List Text → Lists → Next Lists Request
save_found id [] p = stay (record p { message = codes "Nenhum domínio válido encontrado" })
save_found id (d ∷ ds) p = asks (record p { saving_domains = true }) (post_entries id (d ∷ ds))

save_domains_of : Option ℕ → Lists → Next Lists Request
unfolding save_found
save_domains_of none p = stay p
save_domains_of (some id) p = save_found id (domains_of p.domains_text) p

unfoldable pub save_domains : Lists → Next Lists Request
unfolding save_domains_of save_found
save_domains p = save_domains_of p.adding_domains p

-- the answer's number of domains inserted
unfoldable pub domains_saved : Option ℕ → Lists → Next Lists Request
domains_saved none p =
    stay (record p { message = codes "Erro ao adicionar domínios"; saving_domains = false })
domains_saved (some inserted) p =
    let message = show inserted ++ codes " domínios adicionados com sucesso" in
    let page : Lists = record p {
      message = message;
      domains_text = [];
      adding_domains = none;
      saving_domains = false;
    } in
    record { page = page; requests = get_lists ∷ []; timers = 3000 ∷ [] }

-- the button's `disabled` and the number and word that it shows
abbrev pub can_save_domains : Lists → Bool
can_save_domains p = not p.saving_domains && not (is_empty (trim p.domains_text))
