-- ===== src/Agent/View/Form/Laws.antt =====
-- Each input of the profile form is wired to its own field.
use proxer.Base.{ℕ, zero, suc, String, List, [], ◌∷◌}
use proxer.Agent.Form.{to_mode, mode_name}
use proxer.Agent.View.Form
use proxer.Agent.View.Form.{Field}

-- the place of an input in the form
abbrev pub place : Field → ℕ
place Form.name = 0
place Form.gateway_base_url = 1
place Form.agent_id = 2
place Form.mode = 3
place Form.connector_id = 4
place Form.connector_secret = 5
place Form.agent_token = 6
place Form.legacy_tunnels = 7
place Form.request_timeout = 8
place Form.poll_wait = 9
place Form.heartbeat_interval = 10
place Form.max_response_body_bytes = 11
place Form.proxy_url = 12
place Form.no_proxy = 13
place Form.ca_file = 14
place Form.log_level = 15

-- the input at this place shows another value
abbrev pub with_value : ℕ → String → List (String × String) → List (String × String)
with_value n value [] = []
with_value zero value ((label, old) ∷ rest) = (label, value) ∷ rest
with_value (suc n) value (input ∷ rest) = input ∷ with_value n value rest

-- the select of the mode has two options only
abbrev pub accepted : Field → String → String
accepted Form.mode value = mode_name (to_mode value)
accepted field value = value
