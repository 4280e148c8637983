-- ===== src/Tests/Users.antt =====
-- A gateway that keeps a directory of users, and a session of its administrator.
use proxer.Base.{
  String, Bool, false, ◌||◌, ◌≡◌, refl, Option, none, some, List, [], ◌∷◌, ◌++◌, ◌<>◌, ◌==◌, map,
  if◌then◌else◌,
}
use proxer.Json.{Json, Fields, member}
use proxer.Text.Uri.{encode_uri_component}
use proxer.Effect.{Request, ok, fail}
use proxer.Effect.Run.{Server, run_all}
use proxer.Web.Types
use proxer.Web.Types.{User, Shape, Of}
use proxer.Web.Page.{Page, FormData, fresh}
use proxer.Web.Pages.Users
use proxer.Web.Pages.Users.{UsersData}
use proxer.Web.Pages.Users.Refines.{
  reply_of, Directory, UserChange, creates, toggles, handler, meant, users_refine,
}
use proxer.Tests.Site.{ann, root, acme, denied}

abbrev path_of : String → String
path_of name = "/api/admin/users/" <> encode_uri_component name

abbrev has : String → List User → Bool
has name [] = false
has name (u ∷ us) = u.username == name || has name us

-- a name is taken once
abbrev add : String → String → String → String → List User → Option (List User)
add name password role tenant us =
    if has name us
    then none
    else some (
        us
        ++ record { username = name; role = role; tenant_id = some tenant; status = some "active" }
          ∷ [])

abbrev set_at : String → String → List User → List User
set_at path status [] = []
set_at path status (u ∷ us) =
    (if path_of u.username == path then record u { status = some status } else u)
    ∷ set_at path status us

abbrev patch : String → String → List User → Option (List User)
patch path status us = some (set_at path status us)

abbrev text_at : String → Fields → String
text_at key body = elim (member key body) [ some (Json.text s) ↦ s | _ ↦ "" ]

abbrev changed : Request → List User → Option (List User)
changed r us = elim r.body [
  | some (Json.obj body) ↦
      if r.method == "POST"
      then add (text_at "username" body) (text_at "password" body) (text_at "role" body)
          (text_at "tenant_id" body) us
      else patch r.path (text_at "status" body) us
  | _ ↦ none
]

abbrev gateway : Server Shape Of (List User)
gateway Types.users r us = (ok (some us), us)
gateway Types.tenants r us = (ok (some (acme ∷ [])), us)
gateway Types.message r us = reply_of denied (changed r us) us
gateway t r us = (fail denied, us)

abbrev directory : Directory (List User)
directory = record {
  server = gateway;
  users_in = λ us. us;
  tenants_in = λ us. acme ∷ [];
  add = add;
  set_status = λ name status us. patch (path_of name) status us;
  refusal = denied;
  reads_users = λ us. refl;
  reads_tenants = λ us. refl;
  adds = λ name password role tenant us. refl;
  sets_status = λ name status us. refl;
}

abbrev bob_form : FormData
bob_form =
    ("username", "bob") ∷ ("password", "secret") ∷ ("role", "member") ∷ ("tenant_id", "acme") ∷ []

-- adds bob twice, and disables ann
abbrev changes : List UserChange
changes = creates bob_form ∷ creates bob_form ∷ toggles ann ∷ []

abbrev page : Page UsersData
page = fresh Users.user_form (record { users = []; tenants = [] })

abbrev bob : User
bob = record { username = "bob"; role = "member"; tenant_id = some "acme"; status = some "active" }

abbrev left : List User
left = root ∷ record ann { status = some "disabled" } ∷ bob ∷ []

users_refine_example :
    let after = run_all gateway (Users.load ∷ map handler changes) page (root ∷ ann ∷ []) in
    (after.1 ≡ left)
    × (after.0.loading ≡ false)
    × (after.0.error ≡ "")
    × (after.0.content.users ≡ left)
    × (after.0.content.tenants ≡ acme ∷ [])
unfolding meant encode_uri_component
users_refine_example = users_refine directory changes page (root ∷ ann ∷ [])
