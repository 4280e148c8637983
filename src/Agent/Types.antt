-- ===== src/Agent/Types.antt =====
-- The interfaces of agentweb/src/App.tsx. A payload is taken to have the type that its
-- `apiRequest<T>` call names; a profile's `runtime` may be missing, as `profileToForm` allows.
use proxer.Base.{String, Bool, Option, List}
use proxer.Number.{Num}

pub record AgentSettings : Type 0 where
  pub schema_version : Num
  pub active_profile_id : Option String
  pub start_at_login : Bool
  pub launch_mode : String

pub record TunnelConfig : Type 0 where
  pub id : Option String
  pub target_url : Option String
  pub token : Option String

pub record RuntimeOptions : Type 0 where
  pub request_timeout : Option String
  pub poll_wait : Option String
  pub heartbeat_interval : Option String
  pub max_response_body_bytes : Option Num
  pub proxy_url : Option String
  pub no_proxy : Option String
  pub tls_skip_verify : Option Bool
  pub ca_file : Option String
  pub log_level : Option String

pub record AgentProfile : Type 0 where
  pub id : String
  pub name : String
  pub gateway_base_url : String
  pub agent_id : String
  pub mode : String
  pub connector_id : Option String
  pub runtime : Option RuntimeOptions
  pub legacy_tunnels : Option (List TunnelConfig)
  pub updated_at : Option String

pub record NativeStatusSnapshot : Type 0 where
  pub state : String
  pub message : Option String
  pub error : Option String
  pub agent_id : Option String
  pub session_id : Option String
  pub mode : Option String
  pub updated_at : Option String

pub record UpdateCheckResult : Type 0 where
  pub current_version : String
  pub latest_version : Option String
  pub download_url : Option String
  pub message : String

pub data Mode : Type 0 where
  connector legacy_tunnels : Mode

pub record ProfileFormState : Type 0 where
  pub name : String
  pub gateway_base_url : String
  pub agent_id : String
  pub mode : Mode
  pub connector_id : String
  pub connector_secret : String
  pub agent_token : String
  pub legacy_tunnels : String
  pub request_timeout : String
  pub poll_wait : String
  pub heartbeat_interval : String
  pub max_response_body_bytes : String
  pub proxy_url : String
  pub no_proxy : String
  pub tls_skip_verify : Bool
  pub ca_file : String
  pub log_level : String

-- The types `T` of the calls `apiRequest<T>(…)`.
pub data Shape : Type 0 where
  snapshot settings profile profiles logs deleted update : Shape

abbrev pub Of : Shape → Type 0
Of snapshot = NativeStatusSnapshot
Of settings = AgentSettings
Of profile = AgentProfile
Of profiles = List AgentProfile
Of logs = Option (List String)
Of deleted = Unit {0}
Of update = UpdateCheckResult
