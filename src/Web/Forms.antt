-- ===== src/Web/Forms.antt =====
-- The forms of web/src/pages/Users.tsx and Ranges.tsx.
pub mod UsersView
pub mod RangesView
pub mod Required
use dns_filter.Prelude.{
  ℕ, Bool, true, false, List, [], ◌∷◌, ◌++◌, Option, none, some, Text, codes, is_empty,
  if◌then◌else◌, ◌==◌, nat_eq,
}
use dns_filter.Web.Page.{Next, stay, asks, show, or_empty}

pub record User : Type 0 where
  pub id : ℕ
  pub username : Text
  pub role : ℕ
  pub active : Bool

pub data UsersRequest : Type 0 where
  get_users : UsersRequest
  post_user : Text → Text → ℕ → UsersRequest

pub record Users : Type 0 where
  pub users : List User
  pub username : Text
  pub password : Text
  pub role : ℕ
  pub message : Text

abbrev pub users_mounted : Next Users UsersRequest
users_mounted =
    let page : Users = record {
      users = [];
      username = [];
      password = [];
      role = 1;
      message = [];
    } in
    asks page get_users

-- fetchUsers: `res.data || []`, where the answer has its data or none
unfoldable pub users_fetched : Option (Option (List User)) → Users → Users
users_fetched none p = p
users_fetched (some data_) p = record p { users = or_empty data_ }

-- handleCreate
unfoldable pub create_user : Users → Next Users UsersRequest
create_user p = asks p (post_user p.username p.password p.role)

unfoldable pub user_created : Bool → Users → Next Users UsersRequest
user_created false p = stay (record p { message = codes "Erro ao criar usuário" })
user_created true p =
    let page : Users = record p {
      username = [];
      password = [];
      role = 1;
      message = codes "Usuário criado com sucesso";
    } in
    record { page = page; requests = get_users ∷ []; timers = 3000 ∷ [] }

-- `roleLabels[u.role] || 'Desconhecido'`
abbrev pub role_label : ℕ → Text
role_label role =
    if role == 0
    then codes "Administrador"
    else if role == 1
    then codes "Visualizador"
    else codes "Desconhecido"

pub record IpRange : Type 0 where
  pub id : ℕ
  pub cidr : Text
  pub group_id : ℕ
  pub auth_mode : ℕ
  pub description : Text

pub record GroupName : Type 0 where
  pub id : ℕ
  pub name : Text

pub data RangesRequest : Type 0 where
  get_ranges : RangesRequest
  get_groups : RangesRequest
  post_range : Text → ℕ → ℕ → Text → RangesRequest

pub record Ranges : Type 0 where
  pub ranges : List IpRange
  pub groups : List GroupName
  pub cidr : Text
  pub group_id : ℕ
  pub auth_mode : ℕ
  pub description : Text
  pub message : Text

abbrev pub ranges_mounted : Next Ranges RangesRequest
ranges_mounted =
    let page : Ranges = record {
      ranges = [];
      groups = [];
      cidr = [];
      group_id = 1;
      auth_mode = 0;
      description = [];
      message = [];
    } in
    record { page = page; requests = get_ranges ∷ get_groups ∷ []; timers = [] }

-- fetchRanges and fetchGroups: `res.data || []`, where the answer has its data or none
unfoldable pub ranges_fetched : Option (Option (List IpRange)) → Ranges → Ranges
ranges_fetched none p = p
ranges_fetched (some data_) p = record p { ranges = or_empty data_ }

unfoldable pub range_groups_fetched : Option (Option (List GroupName)) → Ranges → Ranges
range_groups_fetched none p = p
range_groups_fetched (some data_) p = record p { groups = or_empty data_ }

-- handleCreate, which keeps the group and the mode for the next range
unfoldable pub create_range : Ranges → Next Ranges RangesRequest
create_range p = asks p (post_range p.cidr p.group_id p.auth_mode p.description)

unfoldable pub range_created : Bool → Ranges → Next Ranges RangesRequest
range_created false p =
    stay (record p { message = codes "Erro ao criar range — verifique o formato CIDR" })
range_created true p =
    let page : Ranges = record p {
      cidr = [];
      description = [];
      message = codes "Range criado com sucesso";
    } in
    record { page = page; requests = get_ranges ∷ []; timers = 3000 ∷ [] }

-- groupName: the first group with the identifier, or its number where it has none or an empty name
unfoldable pub group_name : List GroupName → ℕ → Text
group_name [] id = codes "Grupo " ++ show id
group_name (g ∷ gs) id =
    if g.id == id
    then (if is_empty g.name then codes "Grupo " ++ show id else g.name)
    else group_name gs id
