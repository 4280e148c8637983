-- ===== src/Tests/Sessions.antt =====
-- Sessions of the gateway in `Site`.
use mathlib.Core.List.{[], ◌∷◌}
use proxer.Base.{
  ℕ, String, true, false, ◌≡◌, refl, none, some, ◌⊎◌, starts_with, ◌==◌, if◌then◌else◌,
}
use proxer.Json.{Json, object}
use proxer.Number.{int}
use proxer.Effect.{api_error, ok, fail, get, bare, done}
use proxer.Effect.Ends.{NoStarts}
use proxer.Effect.Pool.{advance, Machine, Step, Reach, here, next, start, reply}
use proxer.Effect.Run.{run}
use proxer.Http.{Response, response, is_json}
use proxer.Web.Types.{AuthMeResponse, Shape, Of}
use proxer.Web.Format.{to_error_message}
use proxer.Web.Http.{request_json}
use proxer.Web.Http.Laws.{request_json_message}
use proxer.Web.Session
use proxer.Web.Session.{AppState, Credentials}
use proxer.Web.Session.Laws
use proxer.Web.Session.Races
use proxer.Web.Session.Shown.{workspace_vouched}
use proxer.Web.Workspace
use proxer.Web.Workspace.Laws.{Visits, opened, moved, render, click, Visits-allowed, Visits-content}
use proxer.Tests.Site.{ann_session, site, denied, refusing}

abbrev typed : Credentials
typed = record {
  username = "ann";
  password = "secret";
  confirm_password = "secret";
  status = "";
  submitting = false;
}

abbrev pub at : String → AppState
at path = record {
  me = none;
  checking_auth = false;
  pathname = path;
  credentials = typed;
  tracked = [];
}

abbrev pub router : String → Session.RouteKey
router path =
    if path == "/"
    then Session.root
    else if path == "/login"
    then Session.login
    else if path == "/signup"
    then Session.signup
    else if starts_with path "/app"
    then Session.app
    else Session.other

path_effect-screen_example :
    Session.screen router (run site (Session.path_effect "/app/x") (at "/app/x") 0).state
    ≡ Session.workspace ann_session
path_effect-screen_example =
    Laws.path_effect-screen site router "/app/x" (at "/app/x") 0 refl refl refl

submit_login_refused_example :
    ((run refusing (Session.submit_login typed) (at "/login") 0).state ≡ record (at "/login") {
      credentials = record typed { status = to_error_message denied; submitting = false };
    })
    × ((run refusing (Session.submit_login typed) (at "/login") 0).sent
        ≡ Laws.login_request refusing typed (at "/login") 0 ∷ [])
submit_login_refused_example =
    Laws.submit_login_refused refusing typed (at "/login") 0 denied 1 refl

sent-submit_signup_example :
    (run site (Session.submit_signup typed) (at "/signup") 0).sent
    ≡ Laws.signup_request site typed (at "/signup") 0 ∷ get "/api/auth/me" ∷ get "/api/auth/me" ∷ []
sent-submit_signup_example = Laws.sent-submit_signup site typed (at "/signup") 0

logout_example :
    ((run refusing Session.logout (at "/app") 0).result ≡ ok tt)
    × ((run refusing Session.logout (at "/app") 0).state ≡ record (at "/app") { me = none })
    × ((run refusing Session.logout (at "/app") 0).sent ≡ bare "POST" "/api/auth/logout" ∷ [])
logout_example = Laws.logout_lem refusing (at "/app") 0

-- the state after the reply to the check of `/app`
abbrev IsAnn : AuthMeResponse → Type 0
IsAnn p = p.user.username ≡ "ann"

abbrev checked : Machine Shape Of AppState
checked = record {
  state = record (at "/app") { me = some ann_session; checking_auth = false };
  tasks = done tt ∷ [];
}

check_run :
    Reach Races.Starts (Races.Vouched IsAnn) (record { state = at "/app"; tasks = [] }) checked
unfolding Session.path_effect Session.refresh_session
check_run =
    next (next here (start _ [] _ (Races.route_change "/app")))
      (reply _ [] [] _ _ (ok (ann_session, tt)) refl)

workspace_vouched_example : ann_session.user.username ≡ "ann"
unfolding Session.screen
workspace_vouched_example =
    workspace_vouched IsAnn router (at "/app") checked ann_session refl check_run refl

late_check_example :
    (before after : Machine Shape Of AppState) × Step NoStarts Races.AnyReply
      (Races.leaving_checked checked.state)
      before
    × (before.state.me ≡ none)
    × (before.tasks ≡ done tt ∷ (advance (Session.path_effect "/app") checked.state).1)
    × Step NoStarts Races.AnyReply before after
    × (after.state.me ≡ some ann_session)
    × (after.tasks ≡ done tt ∷ done tt ∷ [])
late_check_example = Races.late_check_restores_session checked.state ann_session

abbrev reply_of : ℕ → Json → Response
reply_of status payload = record {
  status = status;
  content_type = some "application/json; charset=utf-8";
  json = ok payload;
  text = ok "";
}

request_json_example :
    request_json (
      response (
        reply_of 404
          (object (("code", Json.num (int 7)) ∷ ("message", Json.text "no such route") ∷ []))))
    ≡ fail (api_error "no such route" 404)
unfolding is_json
request_json_example =
    request_json_message
      (reply_of 404
        (object (("code", Json.num (int 7)) ∷ ("message", Json.text "no such route") ∷ [])))
      (("code", Json.num (int 7)) ∷ []) [] "no such route" refl refl tt refl

-- a super admin opens the users, and then is one no longer
demoted :
    Visits true
      (false, Workspace.settle_page false (Workspace.settle_page true Workspace.admin_users))
unfolding Workspace.allowed Workspace.nav_items
demoted = moved (moved opened (click true _ Workspace.admin_users refl)) (render true false _)

Visits-allowed_example :
    Workspace.allowed
      (Workspace.nav_items false)
      (Workspace.settle_page false (Workspace.settle_page true Workspace.admin_users))
    ≡ true
Visits-allowed_example = Visits-allowed demoted

Visits-content_example :
    (Workspace.content Workspace.routes ≡ Workspace.tenant_dashboard_page)
    ⊎ (Workspace.content Workspace.routes ≡ Workspace.routes_page)
    ⊎ (Workspace.content Workspace.routes ≡ Workspace.connectors_page)
    ⊎ (Workspace.content Workspace.routes ≡ Workspace.tenant_config_page)
unfolding Workspace.allowed Workspace.nav_items Workspace.settle_page
Visits-content_example =
    Visits-content Workspace.routes (moved opened (click false _ Workspace.routes refl))
