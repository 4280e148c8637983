-- ===== src/Tests/Desk.antt =====
-- The agent's page against a local agent that answers, and one that refuses.
use proxer.Base.{ℕ, suc, String, false, ◌≡◌, refl, none, some, [], ◌∷◌, ◌<>◌, ◌==◌}
use proxer.Number.{Num, int}
use proxer.Json.{Json}
use proxer.Text.{trim}
use proxer.Text.Uri.{percent_decode, bytes}
use proxer.Text.Uri.Laws.{IsSegment}
use proxer.Effect.{Thrown, error, ok, fail, done}
use proxer.Effect.Run.{Server, run}
use proxer.Effect.Pool.{Machine, Reach, here, next, start, reply}
use proxer.Http.{Response, response, is_json}
use proxer.Agent.Types
use proxer.Agent.Types.{
  AgentSettings, TunnelConfig, AgentProfile, NativeStatusSnapshot, ProfileFormState, Shape, Of,
}
use proxer.Agent.Form.{profile_to_form}
use proxer.Agent.Form.Laws.{form_untargeted}
use proxer.Agent.Http.{api_request}
use proxer.Agent.Http.Laws.{api_request_refused}
use proxer.Agent.View.Form
use proxer.Agent.State.{AgentState, initial, stopped, set_error}
use proxer.Agent.Actions
use proxer.Agent.Actions.Laws
use proxer.Agent.Actions.Paths.{profile_path_lem}
use proxer.Agent.Actions.Notices

abbrev settings : AgentSettings
settings = record {
  schema_version = int 1;
  active_profile_id = some "p1";
  start_at_login = false;
  launch_mode = "tray_window";
}

abbrev tunnel : TunnelConfig
tunnel = record { id = some "app3000"; target_url = none; token = none }

abbrev pub home : AgentProfile
home = record {
  id = "p2";
  name = "home";
  gateway_base_url = "http://127.0.0.1:18080";
  agent_id = "laptop";
  mode = "legacy_tunnels";
  connector_id = none;
  runtime = none;
  legacy_tunnels = some (tunnel ∷ []);
  updated_at = none;
}

abbrev pub answer : (t : Shape) → Of t
answer Types.snapshot = stopped
answer Types.settings = settings
answer Types.profile = home
answer Types.profiles = home ∷ []
answer Types.logs = none
answer Types.deleted = tt
answer Types.update = record {
  current_version = "1.0.0";
  latest_version = none;
  download_url = none;
  message = "Up to date";
}

-- counts the requests
abbrev pub desk : Server Shape Of ℕ
desk t r n = (ok (answer t), suc n)

abbrev pub refused : Thrown
refused = error "profile is in use"

abbrev refusing : Server Shape Of ℕ
refusing t r n = (fail refused, suc n)

abbrev pub plain : Num → String
plain n = "20971520"

abbrev pub typed : ProfileFormState
typed = record {
  name = " home ";
  gateway_base_url = "";
  agent_id = "";
  mode = Types.connector;
  connector_id = "";
  connector_secret = "";
  agent_token = "";
  legacy_tunnels = "";
  request_timeout = "";
  poll_wait = "";
  heartbeat_interval = "";
  max_response_body_bytes = "64";
  proxy_url = "";
  no_proxy = "";
  tls_skip_verify = false;
  ca_file = "";
  log_level = "";
}

abbrev pub page : ProfileFormState → String → AgentState
page form editing = record {
  settings = none;
  profiles = [];
  status = stopped;
  logs = [];
  form = form;
  editing_profile_id = editing;
  runtime_profile = "";
  pair_profile = "";
  pair_token = "";
  update_result = none;
  error_message = "";
  success_message = "";
  loading = false;
}

submit_create_example :
    (run desk
      (Actions.handle_profile_submit plain (page typed ""))
      (page typed "")
      0).state.pair_profile
    ≡ "p1"
unfolding trim Actions.max_bytes_of proxer.Number.Parse.parse_int
submit_create_example =
    Laws.submit_create-pair_profile desk plain 64 home settings (home ∷ []) "p1" (page typed "")
      (page typed "") 0 1 2 3 refl refl refl refl refl refl refl refl refl

abbrev unlimited : AgentState
unlimited = page (record typed { max_response_body_bytes = "none" }) ""

profile_path_example :
    (segment : String) × (Actions.profile_path "a/b" ≡ "/api/profiles/" <> segment)
    × IsSegment segment
    × (percent_decode segment ≡ bytes "a/b")
profile_path_example = profile_path_lem "a/b"

form_untargeted_example : (profile_to_form plain home).legacy_tunnels ≡ ""
form_untargeted_example = form_untargeted plain home (tunnel ∷ []) refl (refl, tt)

abbrev gone : Response
gone = record { status = 500; content_type = none; json = fail refused; text = ok "  " }

api_request_refused_example :
    (line : String) × (api_request (response gone) ≡ fail (error line))
    × ((trim line == "") ≡ false)
unfolding is_json
api_request_refused_example = api_request_refused gone (Json.text "  ") refl refl

-- the first render, and a stop of the runtime that is refused
abbrev stopping : Machine Shape Of AgentState
stopping = record { state = set_error "profile is in use" (initial plain); tasks = done tt ∷ [] }

stop_run :
    Reach
      (Notices.Starts plain)
      Notices.AnyReply
      (record { state = initial plain; tasks = [] })
      stopping
unfolding Actions.handle_stop
stop_run = next (next here (start _ [] _ Notices.stops)) (reply _ [] [] _ _ (fail refused) tt)

notices_example : Notices.OneNotice stopping.state
notices_example = Notices.notices_exclusive plain stopping stop_run
