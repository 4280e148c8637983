-- ===== src/Agent/State.antt =====
-- The state of the `App` component of agentweb/src/App.tsx, and its setters.
use proxer.Base.{
  String, Bool, true, Option, none, some, List, [], ◌==◌, find, get_or, if◌then◌else◌,
}
use proxer.Number.{Num}
use proxer.Effect.{Prog}
use proxer.Agent.Types.{
  AgentSettings, AgentProfile, NativeStatusSnapshot, UpdateCheckResult, ProfileFormState, Shape, Of,
}
use proxer.Agent.Form.{default_form}

pub record AgentState : Type 0 where
  pub settings : Option AgentSettings
  pub profiles : List AgentProfile
  pub status : NativeStatusSnapshot
  pub logs : List String
  pub form : ProfileFormState
  pub editing_profile_id : String
  pub runtime_profile : String
  pub pair_profile : String
  pub pair_token : String
  pub update_result : Option UpdateCheckResult
  pub error_message : String
  pub success_message : String
  pub loading : Bool

abbrev pub Action : Type 0
Action = Prog Shape Of AgentState (Unit {0})

abbrev pub stopped : NativeStatusSnapshot
stopped = record {
  state = "stopped";
  message = none;
  error = none;
  agent_id = none;
  session_id = none;
  mode = none;
  updated_at = none;
}

-- the first render
unfoldable pub initial : (Num → String) → AgentState
unfolding default_form
initial show_number = record {
  settings = none;
  profiles = [];
  status = stopped;
  logs = [];
  form = default_form show_number;
  editing_profile_id = "";
  runtime_profile = "";
  pair_profile = "";
  pair_token = "";
  update_result = none;
  error_message = "";
  success_message = "";
  loading = true;
}

-- `setError`
abbrev pub set_error : String → AgentState → AgentState
set_error line s = record s { error_message = line; success_message = "" }

-- `setSuccess`
abbrev pub set_success : String → AgentState → AgentState
set_success line s = record s { success_message = line; error_message = "" }

-- `setErrorMessage("")` and `setSuccessMessage("")`
abbrev pub clear_notices : AgentState → AgentState
clear_notices s = record s { error_message = ""; success_message = "" }

abbrev pub set_loading : Bool → AgentState → AgentState
set_loading b s = record s { loading = b }

abbrev pub set_status : NativeStatusSnapshot → AgentState → AgentState
set_status snapshot s = record s { status = snapshot }

abbrev pub set_pair_profile : String → AgentState → AgentState
set_pair_profile id s = record s { pair_profile = id }

-- `activeProfile`
unfoldable pub active_profile : AgentState → Option AgentProfile
active_profile s = elim s.settings [
  | none ↦ none
  | some t ↦
      let id = get_or t.active_profile_id "" in
      if id == "" then none else find (λ p. p.id == id) s.profiles
]
