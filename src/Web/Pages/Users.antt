-- ===== src/Web/Pages/Users.antt =====
-- `AdminUsersPage` of web/src/workspace.
pub mod Refines
use proxer.Base.{Bool, List, [], ◌∷◌, map, get_or, or_else, ◌<>◌, ◌==◌, if◌then◌else◌, truthy}
use proxer.Json.{Json, object}
use proxer.Text.Uri.{encode_uri_component}
use proxer.Effect.{Request, get, send, Ask, Replies}
use proxer.Web.Types.{User, Tenant, Shape, Of, Action}
use proxer.Web.View.{
  Cell, Panel, badge_of, text, button, message_line, table, inputs, rows_or, when, guarded,
}
use proxer.Web.Page.{Page, FormData, form_text, load_page, mutate, set_message, reset}

pub record UsersData : Type 0 where
  pub users : List User
  pub tenants : List Tenant

abbrev pub user_form : FormData
user_form = ("username", "") ∷ ("password", "") ∷ ("role", "member") ∷ ("tenant_id", "") ∷ []

abbrev pub asks : List (Ask Shape)
asks = (Shape.users, get "/api/admin/users") ∷ (Shape.tenants, get "/api/tenants") ∷ []

abbrev pub store : Replies Shape Of asks → UsersData → UsersData
store (users_payload, (tenants_payload, _)) d = record {
  users = get_or users_payload [];
  tenants = get_or tenants_payload [];
}

unfoldable pub load : Action (Page UsersData)
unfolding load_page
load = load_page asks store

pub create_request : FormData → Request
create_request form = send "POST" "/api/admin/users" (
    object (
      ("username", Json.text (form_text form "username" ""))
      ∷ ("password", Json.text (form_text form "password" ""))
      ∷ ("role", Json.text (form_text form "role" "member"))
      ∷ ("tenant_id", Json.text (form_text form "tenant_id" ""))
      ∷ []))

-- `createUser`, for the values that the form holds
unfoldable pub create_user : FormData → Action (Page UsersData)
unfolding mutate load create_request
create_user form =
    mutate (Shape.message, create_request form)
      (λ _ s. set_message "User created." (reset user_form s)) load

-- `user.status === "disabled"`
abbrev pub is_disabled : User → Bool
is_disabled user = get_or user.status "" == "disabled"

unfoldable pub toggle_request : User → Request
toggle_request user =
    send "PATCH" ("/api/admin/users/" <> encode_uri_component user.username)
      (object (("status", Json.text (if is_disabled user then "active" else "disabled")) ∷ []))

-- `toggleUserStatus`
unfoldable pub toggle_user_status : User → Action (Page UsersData)
unfolding mutate load toggle_request
toggle_user_status user = mutate (Shape.message, toggle_request user) (λ _ s. s) load

user_row : User → List Cell
unfolding badge_of
user_row user =
    text user.username
    ∷ text user.role
    ∷ text (or_else user.tenant_id "-")
    ∷ badge_of (or_else user.status "active")
    ∷ button (if is_disabled user then "Enable" else "Disable")
    ∷ []

unfoldable pub view : Page UsersData → List Panel
unfolding user_row
view s =
    record {
      title = "Create User";
      actions = [];
      children =
          inputs ("username" ∷ "password" ∷ "role" ∷ "tenant_id" ∷ [])
          ∷ when (truthy s.message) (message_line s.message);
    }
    ∷ record {
      title = "Users";
      actions = "Refresh" ∷ [];
      children = guarded s.loading s.error (
          table ("Username" ∷ "Role" ∷ "Tenant" ∷ "Status" ∷ "Action" ∷ [])
            (rows_or "No users." (map user_row s.content.users)));
    }
    ∷ []
