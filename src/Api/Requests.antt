-- ===== src/Api/Requests.antt =====
-- The routes of internal/api/router.go with what their handlers read of a request, and the methods
-- of the store (internal/store) that they call. A body is none where its JSON does not decode.
use dns_filter.Prelude.{ℕ, Bool, List, Option, Text, ◌⊎◌}
use dns_filter.Api.Numbers.{ℤ}
use dns_filter.Api.Tokens.{AuthUser}

-- loginRequest
pub record Credentials : Type 0 where
  pub username : Text
  pub password : Text

-- createUserRequest
pub record NewUser : Type 0 where
  pub username : Text
  pub password : Text
  pub role : ℕ

-- updateUserRequest
pub record UserEdit : Type 0 where
  pub username : Text
  pub role : ℕ
  pub active : Bool

-- createGroupRequest
pub record GroupBody : Type 0 where
  pub name : Text
  pub description : Text

-- createBlocklistRequest
pub record NewBlocklist : Type 0 where
  pub name : Text
  pub source_url : Text
  pub list_type : ℕ

-- updateBlocklistRequest
pub record BlocklistEdit : Type 0 where
  pub name : Text
  pub active : Bool

-- createRangeRequest
pub record RangeBody : Type 0 where
  pub cidr : Text
  pub group_id : ℕ
  pub auth_mode : ℕ
  pub description : Text

-- the routes below AdminOnly, with the `{id}` of their path and their body
pub data AdminRoute : Type 0 where
  list_users : AdminRoute
  create_user : Option NewUser → AdminRoute
  update_user : Text → Option UserEdit → AdminRoute
  delete_user : Text → AdminRoute
  list_groups : AdminRoute
  create_group : Option GroupBody → AdminRoute
  update_group : Text → Option GroupBody → AdminRoute
  delete_group : Text → AdminRoute
  list_categories : AdminRoute
  get_group_policy : Text → AdminRoute
  set_group_policy : Text → Option (List ℕ) → AdminRoute
  list_blocklists : AdminRoute
  create_blocklist : Option NewBlocklist → AdminRoute
  update_blocklist : Text → Option BlocklistEdit → AdminRoute
  delete_blocklist : Text → AdminRoute
  add_entries : Text → Option (List Text) → AdminRoute
  reload_lists : AdminRoute
  download_lists : AdminRoute
  get_blocklist_categories : Text → AdminRoute
  set_blocklist_categories : Text → Option (List ℕ) → AdminRoute
  list_ranges : AdminRoute
  create_range : Option RangeBody → AdminRoute
  update_range : Text → Option RangeBody → AdminRoute
  delete_range : Text → AdminRoute

-- the routes below AuthMiddleware
pub data UserRoute : Type 0 where
  refresh_token : UserRoute
  get_dashboard_stats : UserRoute
  get_metrics : UserRoute
  get_logs : List (Text × Text) → UserRoute
  invalidate_cache : Text → UserRoute
  admin : AdminRoute → UserRoute

pub data Route : Type 0 where
  health_check : Route
  login : Option Credentials → Route
  api : UserRoute → Route

-- the header Authorization, the remote address and the header X-Real-IP
pub record Request : Type 0 where
  pub route : Route
  pub authorization : Text
  pub remote_addr : Text
  pub real_ip : Text

-- store.LogFilter
pub record LogFilter : Type 0 where
  pub client_ip : Text
  pub domain : Text
  pub action : Text
  pub date_from : Text
  pub date_to : Text
  pub limit : ℤ
  pub offset : ℤ

-- the methods of the store that read
pub data Query : Type 0 where
  get_dashboard_stats_ list_admin_users list_groups_ list_blocklists_ list_ip_ranges
        list_categories_ :
      Query
  get_group_blocked_categories get_blocklist_categories_ : ℤ → Query

-- those that write
pub data Command : Type 0 where
  create_admin_user : NewUser → Command
  update_admin_user : ℤ → UserEdit → Command
  delete_admin_user : ℤ → Command
  create_group_ : GroupBody → Command
  update_group_ : ℤ → GroupBody → Command
  delete_group_ : ℤ → Command
  set_group_policy_ : ℤ → List ℕ → Command
  insert_blocklist : NewBlocklist → Command
  update_blocklist_ : ℤ → BlocklistEdit → Command
  delete_blocklist_ : ℤ → Command
  insert_blocklist_entries : ℤ → List Text → Command
  set_blocklist_categories_ : ℤ → List ℕ → Command
  create_ip_range : RangeBody → Command
  update_ip_range : ℤ → RangeBody → Command
  delete_ip_range : ℤ → Command

-- internal/store over PostgreSQL: the results of its methods, an error as its text. Rows are none
-- for a nil slice.
pub record Store : Type 1 where
  pub Db : Type 0
  pub Rows : Type 0
  pub authenticate_admin : Db → Text → Text → Text ⊎ Option AuthUser
  pub query : Db → Query → Text ⊎ Option Rows
  -- the id of the new row or the number of rows, where the method returns one
  pub execute : Db → Command → Db × (Text ⊎ ℕ)
  pub query_logs : Db → LogFilter → Text ⊎ (Option Rows × ℕ)
  pub load_active_blocklist_entries : Db → Text ⊎ (List Text × List Text)
  -- the lists with a source, each with its id, name and URL
  pub external_lists : Db → Text ⊎ List (ℕ × Text × Text)
  -- the transaction that clears a list and inserts its domains: how many, none if it does not begin
  pub refill_list : Db → ℕ → List Text → Db × Option ℕ
