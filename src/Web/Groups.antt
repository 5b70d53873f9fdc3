-- ===== src/Web/Groups.antt =====
-- web/src/pages/Groups.tsx: the page of groups and of the categories that each one blocks.
pub mod Policy
pub mod View
pub mod Clicks
use dns_filter.Prelude.{
  ℕ, ◌≡◌, Bool, true, false, List, [], ◌∷◌, ◌++◌, Option, none, some, Text, codes, length,
  if◌then◌else◌, ◌==◌, nat_eq,
}
use dns_filter.Web.Page.{Next, stay, asks, show, is_open, close_if, or_empty}
use dns_filter.Web.Toggle.{toggle}
use dns_filter.Web.Lists.{Category}

pub record Group : Type 0 where
  pub id : ℕ
  pub name : Text
  pub description : Text

pub data Request : Type 0 where
  get_groups : Request
  get_categories : Request
  post_group : Text → Text → Request
  delete_group : ℕ → Request
  get_policy : ℕ → Request
  put_policy : ℕ → List ℕ → Request

pub record Groups : Type 0 where
  pub groups : List Group
  pub categories : List Category
  pub name : Text
  pub description : Text
  pub message : Text
  pub editing_policy : Option ℕ
  pub blocked_cats : List ℕ
  pub saving_policy : Bool

abbrev pub mounted : Next Groups Request
mounted =
    let page : Groups = record {
      groups = [];
      categories = [];
      name = [];
      description = [];
      message = [];
      editing_policy = none;
      blocked_cats = [];
      saving_policy = false;
    } in
    record { page = page; requests = get_groups ∷ get_categories ∷ []; timers = [] }

-- fetchGroups and fetchCategories: the answer's data, none where it is not an array
unfoldable pub groups_fetched : Option (Option (List Group)) → Groups → Groups
groups_fetched none p = p
groups_fetched (some data_) p = record p { groups = or_empty data_ }

unfoldable pub categories_fetched : Option (Option (List Category)) → Groups → Groups
categories_fetched none p = p
categories_fetched (some data_) p = record p { categories = or_empty data_ }

-- handleCreate
unfoldable pub create : Groups → Next Groups Request
create p = asks p (post_group p.name p.description)

unfoldable pub created : Bool → Groups → Next Groups Request
created false p = stay (record p { message = codes "Erro ao criar grupo" })
created true p =
    let page : Groups = record p {
      name = [];
      description = [];
      message = codes "Grupo criado com sucesso";
    } in
    record { page = page; requests = get_groups ∷ []; timers = 3000 ∷ [] }

-- handleDelete
unfoldable pub delete_ : ℕ → Bool → Groups → Next Groups Request
delete_ id confirmed p = if confirmed then asks p (delete_group id) else stay p

unfoldable pub deleted : Groups → ℕ → Bool → Groups → Next Groups Request
deleted seen id false p = stay (record p { message = codes "Erro ao remover grupo" })
deleted seen id true p =
    let page : Groups = record p {
      message = codes "Grupo removido";
      editing_policy = close_if seen.editing_policy id p.editing_policy;
    } in
    record { page = page; requests = get_groups ∷ []; timers = 3000 ∷ [] }

-- openPolicy
unfoldable pub open_policy : ℕ → Groups → Next Groups Request
open_policy id p =
    if is_open p.editing_policy id
    then stay (record p { editing_policy = none })
    else asks p (get_policy id)

unfoldable pub policy_opened : ℕ → Option (Option (List ℕ)) → Groups → Groups
policy_opened id none p = record p { message = codes "Erro ao carregar política" }
policy_opened id (some cats) p = record p { blocked_cats = or_empty cats; editing_policy = some id }

-- toggleCategory
unfoldable pub toggle_category : ℕ → Groups → Groups
toggle_category cat p = record p { blocked_cats = toggle cat p.blocked_cats }

-- savePolicy
save_policy_of : Option ℕ → Groups → Next Groups Request
save_policy_of none p = stay p
save_policy_of (some id) p = asks (record p { saving_policy = true }) (put_policy id p.blocked_cats)

unfoldable pub save_policy : Groups → Next Groups Request
unfolding save_policy_of
save_policy p = save_policy_of p.editing_policy p

unfoldable pub policy_saved : Groups → Bool → Groups → Next Groups Request
policy_saved seen false p =
    stay (record p { message = codes "Erro ao salvar política"; saving_policy = false })
policy_saved seen true p =
    let message =
      codes "Política do grupo atualizada — "
      ++ show (length seen.blocked_cats)
      ++ codes " categorias bloqueadas" in
    let page : Groups = record p { message = message; saving_policy = false } in
    record { page = page; requests = []; timers = 3000 ∷ [] }
