-- ===== src/Agent/Form.antt =====
-- `defaultForm`, `profileToForm` and `tunnelsToString` of agentweb/src/App.tsx, and the payload that
-- `handleProfileSubmit` builds from the form. Numbers print by a parameter, `String(number)`.
pub mod Laws
use proxer.Base.{
  ℕ, ◌^◌, ◌*◌, String, Bool, true, false, not, ◌||◌, Option, none, some, List, [], ◌∷◌, get_or,
  ◌==◌, ◌<>◌, if◌then◌else◌,
}
use proxer.Number.{Num, int}
use proxer.Json.{Json, object}
use proxer.Json
use proxer.Text.{trim}
use proxer.Agent.Types
use proxer.Agent.Types.{TunnelConfig, RuntimeOptions, AgentProfile, Mode, ProfileFormState}

-- `20 << 20`
abbrev pub default_bytes : ℕ
default_bytes = 20 * 2 ^ 20

unfoldable pub default_form : (Num → String) → ProfileFormState
default_form show_number = record {
  name = "";
  gateway_base_url = "http://127.0.0.1:18080";
  agent_id = "";
  mode = Types.connector;
  connector_id = "";
  connector_secret = "";
  agent_token = "";
  legacy_tunnels = "";
  request_timeout = "45s";
  poll_wait = "25s";
  heartbeat_interval = "10s";
  max_response_body_bytes = show_number (int default_bytes);
  proxy_url = "";
  no_proxy = "";
  tls_skip_verify = false;
  ca_file = "";
  log_level = "info";
}

-- one entry of the list, or the empty text for a tunnel without an id or a target
unfoldable pub tunnel_entry : TunnelConfig → String
unfolding trim
tunnel_entry tunnel =
    let id = trim (get_or tunnel.id "") in
    let target = trim (get_or tunnel.target_url "") in
    let token = trim (get_or tunnel.token "") in
    if id == "" || target == ""
    then ""
    else if not (token == "")
    then id <> "@" <> token <> "=" <> target
    else id <> "=" <> target

-- `.filter((entry) => entry !== "")`
abbrev pub non_empty : List String → List String
non_empty [] = []
non_empty (entry ∷ rest) = if entry == "" then non_empty rest else entry ∷ non_empty rest

-- `.join(",")`
abbrev pub join : List String → String
join [] = ""
join (entry ∷ []) = entry
join (entry ∷ next ∷ rest) = entry <> "," <> join (next ∷ rest)

abbrev pub entries : List TunnelConfig → List String
entries [] = []
entries (tunnel ∷ rest) = tunnel_entry tunnel ∷ entries rest

unfoldable pub tunnels_to_string : Option (List TunnelConfig) → String
unfolding tunnel_entry
tunnels_to_string none = ""
tunnels_to_string (some tunnels) = join (non_empty (entries tunnels))

-- `profile.runtime?.name ?? fallback`
abbrev option_of : Option RuntimeOptions → (RuntimeOptions → Option String) → String → String
option_of none name fallback = fallback
option_of (some r) name fallback = get_or (name r) fallback

abbrev bytes_of : Option RuntimeOptions → Num
bytes_of none = int default_bytes
bytes_of (some r) = get_or r.max_response_body_bytes (int default_bytes)

abbrev skip_verify : Option RuntimeOptions → Bool
skip_verify none = false
skip_verify (some r) = get_or r.tls_skip_verify false

abbrev pub to_mode : String → Mode
to_mode s = if s == "legacy_tunnels" then Types.legacy_tunnels else Types.connector

-- secrets are never shown again: the two inputs start empty
unfoldable pub profile_to_form : (Num → String) → AgentProfile → ProfileFormState
unfolding tunnels_to_string
profile_to_form show_number p = record {
  name = p.name;
  gateway_base_url = p.gateway_base_url;
  agent_id = p.agent_id;
  mode = to_mode p.mode;
  connector_id = get_or p.connector_id "";
  connector_secret = "";
  agent_token = "";
  legacy_tunnels = tunnels_to_string p.legacy_tunnels;
  request_timeout = option_of p.runtime (λ r. r.request_timeout) "45s";
  poll_wait = option_of p.runtime (λ r. r.poll_wait) "25s";
  heartbeat_interval = option_of p.runtime (λ r. r.heartbeat_interval) "10s";
  max_response_body_bytes = show_number (bytes_of p.runtime);
  proxy_url = option_of p.runtime (λ r. r.proxy_url) "";
  no_proxy = option_of p.runtime (λ r. r.no_proxy) "";
  tls_skip_verify = skip_verify p.runtime;
  ca_file = option_of p.runtime (λ r. r.ca_file) "";
  log_level = option_of p.runtime (λ r. r.log_level) "info";
}

abbrev pub mode_name : Mode → String
mode_name Types.connector = "connector"
mode_name Types.legacy_tunnels = "legacy_tunnels"

abbrev trimmed : String → Json
trimmed s = Json.text (trim s)

-- the `payload` of `handleProfileSubmit`, for a parsed `maxBytes`
unfoldable pub profile_payload : ProfileFormState → ℕ → Json
unfolding trim
profile_payload form max_bytes = object (
    ("name", trimmed form.name)
    ∷ ("gateway_base_url", trimmed form.gateway_base_url)
    ∷ ("agent_id", trimmed form.agent_id)
    ∷ ("mode", Json.text (mode_name form.mode))
    ∷ ("connector_id", trimmed form.connector_id)
    ∷ ("connector_secret", trimmed form.connector_secret)
    ∷ ("agent_token", trimmed form.agent_token)
    ∷ ("legacy_tunnels", trimmed form.legacy_tunnels)
    ∷ (
      "runtime",
      object (
          ("request_timeout", trimmed form.request_timeout)
          ∷ ("poll_wait", trimmed form.poll_wait)
          ∷ ("heartbeat_interval", trimmed form.heartbeat_interval)
          ∷ ("max_response_body_bytes", Json.num (int max_bytes))
          ∷ ("proxy_url", trimmed form.proxy_url)
          ∷ ("no_proxy", trimmed form.no_proxy)
          ∷ ("tls_skip_verify", Json.bool form.tls_skip_verify)
          ∷ ("ca_file", trimmed form.ca_file)
          ∷ ("log_level", trimmed form.log_level)
          ∷ []),
    )
    ∷ [])
