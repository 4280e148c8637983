-- ===== src/Web/Session.antt =====
-- The session of web/src/App.js: the `App` component, and the login and signup forms that it shows.
-- A route change runs the effect `path_effect`; which `Route` a path matches is react-router's.
pub mod Laws
pub mod Races
pub mod Shown
pub mod Settled
pub mod View
pub mod Inside
use proxer.Base.{
  ℕ, String, starts_with, Bool, true, false, not, Option, none, some, List, [], ◌∷◌, ◌++◌, nat_eq,
  if◌then◌else◌, ◌==◌,
}
use proxer.Json.{text, object}
use proxer.Text.{trim}
use proxer.Effect.{
  Thrown, api_error, Request, get, send, bare, Ask, Replies, Prog, done, throw, spawn, ◌>>=◌, ◌>>◌,
  try_catch, finally, modify, all,
}
use proxer.Web.Types.{AuthMeResponse, PublicAnalyticsEvent, Shape, me_payload, message, Of, Action}
use proxer.Web.Format.{to_error_message}

-- The state of `LoginView` and `SignupView`.
pub record Credentials : Type 0 where
  pub username : String
  pub password : String
  pub confirm_password : String
  pub status : String
  pub submitting : Bool

-- `tracked` holds the events handed to the browser's beacon, each with its page path.
pub record AppState : Type 0 where
  pub me : Option AuthMeResponse
  pub checking_auth : Bool
  pub pathname : String
  pub credentials : Credentials
  pub tracked : List (String × PublicAnalyticsEvent)

abbrev pub set_me : Option AuthMeResponse → AppState → AppState
set_me me s = record s { me = me }

abbrev pub set_checking : Bool → AppState → AppState
set_checking b s = record s { checking_auth = b }

abbrev pub set_status : String → AppState → AppState
set_status line s = record s { credentials = record s.credentials { status = line } }

abbrev pub set_submitting : Bool → AppState → AppState
set_submitting b s = record s { credentials = record s.credentials { submitting = b } }

abbrev pub navigate : String → AppState → AppState
navigate path s = record s { pathname = path }

abbrev pub event_named : String → String → PublicAnalyticsEvent
event_named name outcome = record {
  event = name;
  plan_id = none;
  billing = none;
  platform = none;
  file_name = none;
  outcome = some outcome;
}

-- `trackPublicEvent`: an event with no name is dropped
unfoldable pub track : PublicAnalyticsEvent → AppState → AppState
unfolding trim
track event s =
    if trim event.event == ""
    then s
    else record s { tracked = s.tracked ++ (s.pathname, event) ∷ [] }

unfoldable pub refresh_session : Action AppState
refresh_session =
    modify (set_checking true)
    >> finally
        (try_catch
          (do
            (payload, _) ← all ((me_payload, get "/api/auth/me") ∷ [])
            modify (set_me (some payload)))
          (λ _. modify (set_me none)))
        (set_checking false)

-- the effect of `App` on `location.pathname`
unfoldable pub path_effect : String → Action AppState
unfolding refresh_session
path_effect pathname =
    if starts_with pathname "/app" then refresh_session else modify (set_checking false)

-- `navigate(path)` of a form that is on another path: the change of the path runs the effect on it
unfoldable pub go_to : String → Action AppState
unfolding path_effect
go_to path = modify (navigate path) >> spawn (path_effect path) (done tt)

abbrev pub is_401 : Thrown → Bool
is_401 (api_error _ status) = nat_eq status 401
is_401 _ = false

-- `api`, which the workspace pages call for their requests
unfoldable pub api : (t : Shape) → Request → Prog Shape Of AppState (Of t × Unit {0})
api t r =
    try_catch (all ((t, r) ∷ []))
      (λ e. if is_401 e then modify (set_me none) >> throw e else throw e)

unfoldable pub logout : Action AppState
logout =
    try_catch (do all ((message, bare "POST" "/api/auth/logout") ∷ []); done tt) (λ _. done tt)
    >> modify (set_me none)

abbrev credentials_body : Credentials → Request → Request
credentials_body c r = record r {
  body = some (object (("username", text c.username) ∷ ("password", text c.password) ∷ []));
}

-- `submit` of `LoginView`, with the values that the form had when it was rendered
unfoldable pub submit_login : Credentials → Action AppState
unfolding refresh_session go_to to_error_message
submit_login c =
    modify (λ s. set_status "" (set_submitting true s))
    >> finally
        (try_catch
          (do
            all ((message, credentials_body c (bare "POST" "/api/auth/login")) ∷ [])
            refresh_session
            go_to "/app")
          (λ e. modify (set_status (to_error_message e))))
        (set_submitting false)

-- `submit` of `SignupView`
unfoldable pub submit_signup : Credentials → Action AppState
unfolding refresh_session go_to to_error_message track
submit_signup c =
    modify (set_status "")
    >> (if not (c.password == c.confirm_password)
        then modify (set_status "Passwords do not match.")
        else modify (λ s. track (event_named "signup_submit" "attempt") (set_submitting true s))
          >> finally
              (try_catch
                (do
                  all ((message, credentials_body c (bare "POST" "/api/public/signup")) ∷ [])
                  modify (track (event_named "signup_success" "success"))
                  refresh_session
                  go_to "/app")
                (λ e. modify (λ s.
                  track (event_named "signup_failure" "error")
                    (set_status (to_error_message e) s))))
              (set_submitting false))

-- The `Route` of `App` that a path matches.
pub data RouteKey : Type 0 where
  root login signup app other : RouteKey

pub data Screen : Type 0 where
  landing : Option AuthMeResponse → Screen
  checking login_form signup_form : Screen
  workspace : AuthMeResponse → Screen
  redirect : String → Screen

abbrev guarded : Bool → Option AuthMeResponse → Screen → (AuthMeResponse → Screen) → Screen
guarded true me out inside = checking
guarded false none out inside = out
guarded false (some me) out inside = inside me

-- what the `Route` that was chosen renders
unfoldable pub route_screen : RouteKey → Bool → Option AuthMeResponse → Screen
route_screen root checking_auth me = landing me
route_screen login checking_auth me = guarded checking_auth me login_form (λ _. redirect "/app")
route_screen signup checking_auth me = guarded checking_auth me signup_form (λ _. redirect "/app")
route_screen app checking_auth me = guarded checking_auth me (redirect "/login") workspace
route_screen other checking_auth me = redirect "/"

-- what `App` renders, for react-router's choice of the `Route`
unfoldable pub screen : (String → RouteKey) → AppState → Screen
unfolding route_screen
screen router s = route_screen (router s.pathname) s.checking_auth s.me
