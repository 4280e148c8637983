-- ===== src/Agent/Actions/Store/Drafts.antt =====
-- What the profile form of the agent's page means: the values of a profile, and the limit it names.
use proxer.Base.{ℕ, zero, suc, String, Bool, true, false, ◌≡◌, refl, Option, none, some, arith}
use proxer.Text.{trim}
use proxer.Number.Parse.{parse_int}
use proxer.Agent.Types
use proxer.Agent.Types.{ProfileFormState, Mode}
use proxer.Agent.Form.{profile_payload, mode_name}
use proxer.Agent.Actions
use proxer.Agent.Actions.{max_bytes_of}
use proxer.Agent.Actions.Store.{Draft, draft_body}

-- what is meant by a form: its values without their outer white space
abbrev pub drafted : ProfileFormState → ℕ → Draft
drafted form n = record {
  name = trim form.name;
  gateway_base_url = trim form.gateway_base_url;
  agent_id = trim form.agent_id;
  mode = elim form.mode [ Types.connector ↦ "connector" | Types.legacy_tunnels ↦ "legacy_tunnels" ];
  connector_id = trim form.connector_id;
  connector_secret = trim form.connector_secret;
  agent_token = trim form.agent_token;
  legacy_tunnels = trim form.legacy_tunnels;
  request_timeout = trim form.request_timeout;
  poll_wait = trim form.poll_wait;
  heartbeat_interval = trim form.heartbeat_interval;
  max_response_body_bytes = n;
  proxy_url = trim form.proxy_url;
  no_proxy = trim form.no_proxy;
  tls_skip_verify = form.tls_skip_verify;
  ca_file = trim form.ca_file;
  log_level = trim form.log_level;
}

-- the limit that a form names, above zero
unfoldable pub limit_of : String → Option ℕ
limit_of line = elim (parse_int line) [ some (false, suc n) ↦ some (suc n) | _ ↦ none ]

positive_limit :
    (o : Option (Bool × ℕ))
    → Actions.positive o ≡ elim o [ some (false, suc n) ↦ some (suc n) | _ ↦ none ]
positive_limit none = refl
positive_limit (some (true, n)) = refl
positive_limit (some (false, zero)) = refl
positive_limit (some (false, suc n)) = ground arith

pub max_bytes_of-limit : (line : String) → max_bytes_of line ≡ limit_of line
unfolding max_bytes_of limit_of
max_bytes_of-limit line = positive_limit (parse_int line)

mode_shown :
    (mode : Mode)
    → mode_name mode
      ≡ elim mode [ Types.connector ↦ "connector" | Types.legacy_tunnels ↦ "legacy_tunnels" ]
mode_shown Types.connector = refl
mode_shown Types.legacy_tunnels = refl

pub payload-drafted :
    (form : ProfileFormState) (n : ℕ) → profile_payload form n ≡ draft_body (drafted form n)
unfolding profile_payload
payload-drafted form n = rw (mode_shown form.mode) refl
