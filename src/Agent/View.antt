-- ===== src/Agent/View.antt =====
-- What the `App` component of agentweb/src/App.tsx renders of its state.
pub mod Form
use proxer.Base.{
  String, Bool, true, false, Option, none, some, List, [], ◌∷◌, ◌++◌, map, get_or, or_else, ◌==◌,
  ◌<>◌, truthy, if◌then◌else◌,
}
use proxer.Text.{to_lower_case}
use proxer.Agent.Types.{AgentSettings, AgentProfile, UpdateCheckResult}
use proxer.Agent.State.{AgentState, active_profile}

unfoldable pub state_class_name : String → String
unfolding to_lower_case
state_class_name state =
    let value = to_lower_case (if truthy state then state else "stopped") in
    if value == "running"
    then "status running"
    else if value == "degraded"
    then "status degraded"
    else if value == "error"
    then "status error"
    else "status idle"

-- `show_date` is `new Date(…).toLocaleString()`, and nothing where the date is not valid
abbrev pub format_date : (String → Option String) → Option String → String
format_date show_date value =
    let line = get_or value "" in if truthy line then get_or (show_date line) line else "-"

-- the notices above the panels
unfoldable pub notices : AgentState → List String
notices s =
    (if truthy s.error_message then s.error_message ∷ [] else [])
    ++ (if truthy s.success_message then s.success_message ∷ [] else [])

-- The runtime panel: the profile's name, the badge, the details and the extra lines.
pub record RuntimePanel : Type 0 where
  pub profile : String
  pub class : String
  pub badge : String
  pub details : List (String × String)
  pub extra : List String

abbrev some_line : Option String → List String
some_line value = if truthy (get_or value "") then get_or value "" ∷ [] else []

unfoldable pub runtime_panel : (String → Option String) → AgentState → RuntimePanel
unfolding active_profile state_class_name
runtime_panel show_date s = record {
  profile = elim (active_profile s) [ none ↦ "-" | some p ↦ p.name ];
  class = state_class_name s.status.state;
  badge = if truthy s.status.state then s.status.state else "stopped";
  details =
      ("Mode", or_else s.status.mode "-")
      ∷ ("Agent ID", or_else s.status.agent_id "-")
      ∷ ("Session", or_else s.status.session_id "-")
      ∷ ("Updated", format_date show_date s.status.updated_at)
      ∷ [];
  extra = some_line s.status.message ++ some_line s.status.error;
}

-- The row of a profile; `active` is the pill beside its name.
pub record ProfileRow : Type 0 where
  pub name : String
  pub active : Bool
  pub id : String
  pub mode : String
  pub gateway : String
  pub connector : String
  pub updated : String

-- `settings?.active_profile_id === profile.id`
unfoldable pub is_active : Option AgentSettings → String → Bool
is_active none id = false
is_active (some t) id = elim t.active_profile_id [ none ↦ false | some active ↦ active == id ]

unfoldable pub profile_row : (String → Option String) → AgentState → AgentProfile → ProfileRow
unfolding is_active
profile_row show_date s p = record {
  name = p.name;
  active = is_active s.settings p.id;
  id = p.id;
  mode = p.mode;
  gateway = p.gateway_base_url;
  connector = or_else p.connector_id "-";
  updated = format_date show_date p.updated_at;
}

-- The rows, and the text of the empty table.
unfoldable pub profile_table : (String → Option String) → AgentState → List ProfileRow × String
unfolding profile_row
profile_table show_date s = (
  map (profile_row show_date s) s.profiles,
  elim s.profiles [ [] ↦ "No profiles created yet." | _ ∷ _ ↦ "" ],
)

-- `updateResult`
unfoldable pub update_block : Option UpdateCheckResult → List String
update_block none = []
update_block (some r) =
    r.message
      ∷ ("Current: " <> r.current_version)
      ∷ (if truthy (get_or r.latest_version "")
          then ("Latest: " <> get_or r.latest_version "") ∷ []
          else [])
    ++ (if truthy (get_or r.download_url "")
        then ("Download: " <> get_or r.download_url "") ∷ []
        else [])

-- The inputs of the settings form: nothing is edited before the settings are there.
abbrev pub edit_launch_mode : String → AgentState → AgentState
edit_launch_mode value s = elim s.settings [
  | none ↦ s
  | some t ↦ record s { settings = some (record t { launch_mode = value }) }
]

abbrev pub edit_start_at_login : Bool → AgentState → AgentState
edit_start_at_login value s = elim s.settings [
  | none ↦ s
  | some t ↦ record s { settings = some (record t { start_at_login = value }) }
]

-- The launch mode and the check box of the settings form, and whether its button can be pressed.
abbrev pub settings_form : AgentState → String × Bool × Bool
settings_form s = elim s.settings [
  | none ↦ ("tray_window", false, false)
  | some t ↦ (t.launch_mode, t.start_at_login, true)
]
