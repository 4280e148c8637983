-- ===== src/Web/Session/View.antt =====
-- What `LoginView` and `SignupView` of web/src/App.tsx show, and the `onChange` handlers of their inputs.
use proxer.Base.{String, Bool, List, [], ◌∷◌, if◌then◌else◌, truthy}
use proxer.Web.Session.{Credentials}

-- An input with its label, `type` and value.
pub record Input : Type 0 where
  pub label : String
  pub type : String
  pub value : String

-- The card of one of the two forms. A `status` is shown in a line of its own, `disabled` is the button's.
pub record AuthCard : Type 0 where
  pub title : String
  pub text : String
  pub inputs : List Input
  pub button : String
  pub disabled : Bool
  pub status : List String
  pub links : List (String × String)

abbrev status_line : String → List String
status_line line = if truthy line then line ∷ [] else []

abbrev username_input : Credentials → Input
username_input c = record { label = "Username"; type = "text"; value = c.username }

abbrev password_input : Credentials → Input
password_input c = record { label = "Password"; type = "password"; value = c.password }

unfoldable pub login_view : Credentials → AuthCard
login_view c = record {
  title = "Proxer";
  text = "Route internet traffic to localhost with tenant-scoped governance.";
  inputs = username_input c ∷ password_input c ∷ [];
  button = if c.submitting then "Logging in..." else "Login";
  disabled = c.submitting;
  status = status_line c.status;
  links = ("/signup", "Create account") ∷ ("/", "Back to website") ∷ [];
}

unfoldable pub signup_view : Credentials → AuthCard
signup_view c = record {
  title = "Create Workspace";
  text = "Get instant access with a tenant admin account on the free plan.";
  inputs =
      username_input c
      ∷ password_input c
      ∷ record { label = "Confirm Password"; type = "password"; value = c.confirm_password }
      ∷ [];
  button = if c.submitting then "Creating account..." else "Sign up";
  disabled = c.submitting;
  status = status_line c.status;
  links = ("/login", "Already have an account?") ∷ ("/", "Back to website") ∷ [];
}

abbrev pub set_username : String → Credentials → Credentials
set_username value c = record c { username = value }

abbrev pub set_password : String → Credentials → Credentials
set_password value c = record c { password = value }

abbrev pub set_confirm_password : String → Credentials → Credentials
set_confirm_password value c = record c { confirm_password = value }
