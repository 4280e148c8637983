-- ===== src/Agent/View/Form.antt =====
-- The inputs of the profile form of agentweb/src/App.tsx, their `onChange` handlers, and the panels
-- beside it.
pub mod Laws
use proxer.Base.{
  ℕ, String, Bool, true, false, ◌≡◌, refl, List, [], ◌∷◌, if◌then◌else◌, truthy, ◌<>◌, is_empty,
}
use proxer.Agent.Types.{ProfileFormState}
use proxer.Agent.Form.{to_mode, mode_name}
use proxer.Agent.State.{AgentState}

-- The inputs that hold a text, and the select of the mode.
pub data Field : Type 0 where
  name gateway_base_url agent_id mode connector_id connector_secret : Field
  agent_token legacy_tunnels request_timeout poll_wait heartbeat_interval : Field
  max_response_body_bytes proxy_url no_proxy ca_file log_level : Field

-- the labels and values, in the order of the form
unfoldable pub form_inputs : ProfileFormState → List (String × String)
form_inputs form =
    ("Name", form.name)
    ∷ ("Gateway URL", form.gateway_base_url)
    ∷ ("Agent ID", form.agent_id)
    ∷ ("Mode", mode_name form.mode)
    ∷ ("Connector ID", form.connector_id)
    ∷ ("Connector Secret", form.connector_secret)
    ∷ ("Legacy Agent Token", form.agent_token)
    ∷ ("Legacy Tunnels (id=url,id2@token=url)", form.legacy_tunnels)
    ∷ ("Request Timeout", form.request_timeout)
    ∷ ("Poll Wait", form.poll_wait)
    ∷ ("Heartbeat Interval", form.heartbeat_interval)
    ∷ ("Max Response Bytes", form.max_response_body_bytes)
    ∷ ("Proxy URL", form.proxy_url)
    ∷ ("No Proxy", form.no_proxy)
    ∷ ("CA File", form.ca_file)
    ∷ ("Log Level", form.log_level)
    ∷ []

-- `onChange` with `event.target.value`
unfoldable pub edit_field : Field → String → ProfileFormState → ProfileFormState
edit_field name value form = record form { name = value }
edit_field gateway_base_url value form = record form { gateway_base_url = value }
edit_field agent_id value form = record form { agent_id = value }
edit_field mode value form = record form { mode = to_mode value }
edit_field connector_id value form = record form { connector_id = value }
edit_field connector_secret value form = record form { connector_secret = value }
edit_field agent_token value form = record form { agent_token = value }
edit_field legacy_tunnels value form = record form { legacy_tunnels = value }
edit_field request_timeout value form = record form { request_timeout = value }
edit_field poll_wait value form = record form { poll_wait = value }
edit_field heartbeat_interval value form = record form { heartbeat_interval = value }
edit_field max_response_body_bytes value form = record form { max_response_body_bytes = value }
edit_field proxy_url value form = record form { proxy_url = value }
edit_field no_proxy value form = record form { no_proxy = value }
edit_field ca_file value form = record form { ca_file = value }
edit_field log_level value form = record form { log_level = value }

-- the check box
abbrev pub edit_tls_skip_verify : Bool → ProfileFormState → ProfileFormState
edit_tls_skip_verify checked form = record form { tls_skip_verify = checked }

-- The panel of the profile form: its title, its inputs, the check box and its buttons.
pub record FormPanel : Type 0 where
  pub title : String
  pub inputs : List (String × String)
  pub tls_skip_verify : Bool
  pub buttons : List String

unfoldable pub form_panel : AgentState → FormPanel
unfolding form_inputs
form_panel s = record {
  title = if truthy s.editing_profile_id then "Edit Profile" else "Create Profile";
  inputs = form_inputs s.form;
  tls_skip_verify = s.form.tls_skip_verify;
  buttons =
      if truthy s.editing_profile_id
      then "Save Profile" ∷ "Cancel Edit" ∷ []
      else "Create Profile" ∷ [];
}

-- The inputs of the pairing form, and of the runtime panel.
unfoldable pub pair_inputs : AgentState → List (String × String)
pair_inputs s = ("Profile ID or Name", s.pair_profile) ∷ ("Pair Token", s.pair_token) ∷ []

abbrev pub set_pair_token : String → AgentState → AgentState
set_pair_token value s = record s { pair_token = value }

abbrev pub set_runtime_profile : String → AgentState → AgentState
set_runtime_profile value s = record s { runtime_profile = value }

-- the refresh button of the header: its text, and whether it is disabled
unfoldable pub refresh_button : AgentState → String × Bool
refresh_button s = (if s.loading then "Refreshing..." else "Refresh", s.loading)

abbrev join_lines : List String → String
join_lines [] = ""
join_lines (line ∷ []) = line
join_lines (line ∷ next ∷ rest) = line <> "\n" <> join_lines (next ∷ rest)

-- `logs.length > 0 ? logs.join("\n") : "(no logs yet)"`
unfoldable pub log_box : List String → String
log_box lines = if is_empty lines then "(no logs yet)" else join_lines lines
