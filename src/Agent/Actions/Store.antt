-- ===== src/Agent/Actions/Store.antt =====
-- The local agent behind its HTTP interface: what it stores, and how it reads and changes it.
pub mod Drafts
pub mod Runs
pub mod Refines
use proxer.Base.{ℕ, String, Bool, ◌≡◌, List, [], ◌∷◌, ◌<>◌}
use proxer.Number.{int}
use proxer.Json
use proxer.Json.{Json, object}
use proxer.Text.Uri.{encode_uri_component}
use proxer.Effect.{Result, ok, get, send, bare}
use proxer.Effect.Run.{Server}
use proxer.Agent.Types
use proxer.Agent.Types.{AgentSettings, AgentProfile, Shape, Of}

-- The values of a profile that the page sends to be stored, and the body of that request.
pub record Draft : Type 0 where
  pub name : String
  pub gateway_base_url : String
  pub agent_id : String
  pub mode : String
  pub connector_id : String
  pub connector_secret : String
  pub agent_token : String
  pub legacy_tunnels : String
  pub request_timeout : String
  pub poll_wait : String
  pub heartbeat_interval : String
  pub max_response_body_bytes : ℕ
  pub proxy_url : String
  pub no_proxy : String
  pub tls_skip_verify : Bool
  pub ca_file : String
  pub log_level : String

abbrev pub draft_body : Draft → Json
draft_body d = object (
    ("name", Json.text d.name)
    ∷ ("gateway_base_url", Json.text d.gateway_base_url)
    ∷ ("agent_id", Json.text d.agent_id)
    ∷ ("mode", Json.text d.mode)
    ∷ ("connector_id", Json.text d.connector_id)
    ∷ ("connector_secret", Json.text d.connector_secret)
    ∷ ("agent_token", Json.text d.agent_token)
    ∷ ("legacy_tunnels", Json.text d.legacy_tunnels)
    ∷ (
      "runtime",
      object (
          ("request_timeout", Json.text d.request_timeout)
          ∷ ("poll_wait", Json.text d.poll_wait)
          ∷ ("heartbeat_interval", Json.text d.heartbeat_interval)
          ∷ ("max_response_body_bytes", Json.num (int d.max_response_body_bytes))
          ∷ ("proxy_url", Json.text d.proxy_url)
          ∷ ("no_proxy", Json.text d.no_proxy)
          ∷ ("tls_skip_verify", Json.bool d.tls_skip_verify)
          ∷ ("ca_file", Json.text d.ca_file)
          ∷ ("log_level", Json.text d.log_level)
          ∷ []),
    )
    ∷ [])

abbrev pub path_of : String → String
path_of id = "/api/profiles/" <> encode_uri_component id

-- What the local agent stores, and how it reads and changes it on the page's requests. A change is
-- answered by a reply and the store behind it; a change that is answered by an error may have changed
-- the store all the same, as when the profile was saved and then its secret was not.
pub record Store (W : Type 0) : Type 0 where
  pub server : Server Shape Of W
  pub settings_in : W → AgentSettings
  pub profiles_in : W → List AgentProfile
  pub create : Draft → W → Result AgentProfile × W
  pub update : String → Draft → W → Result AgentProfile × W
  pub delete : String → W → Result (Unit {0}) × W
  pub use_profile : String → W → Result AgentProfile × W
  pub pair : String → String → W → Result AgentProfile × W
  pub reads_settings :
      (w : W) → server Types.settings (get "/api/settings") w ≡ (ok (settings_in w), w)
  pub reads_profiles :
      (w : W) → server Types.profiles (get "/api/profiles") w ≡ (ok (profiles_in w), w)
  pub creates :
      (draft : Draft) (w : W)
      → server Types.profile (send "POST" "/api/profiles" (draft_body draft)) w ≡ create draft w
  pub updates :
      (id : String) (draft : Draft) (w : W)
      → server Types.profile (send "PUT" (path_of id) (draft_body draft)) w ≡ update id draft w
  pub deletes :
      (id : String) (w : W) → server Types.deleted (bare "DELETE" (path_of id)) w ≡ delete id w
  pub uses :
      (id : String) (w : W)
      → server Types.profile (bare "POST" (path_of id <> "/use")) w ≡ use_profile id w
  pub pairs :
      (id token : String) (w : W)
      → server Types.profile
          (send "POST" (path_of id <> "/pair") (object (("pair_token", Json.text token) ∷ [])))
          w
        ≡ pair id token w
