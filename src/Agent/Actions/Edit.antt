-- ===== src/Agent/Actions/Edit.antt =====
-- Editing a profile and saving the form as it was filled in.
use package.text.Mathlib.TextLemmas.{cons-append}
use proxer.Base.{
  All, map, List, Option, none, ◌<>◌, ℕ, String, false, ◌≡◌, refl, ap, ◌∙◌, some, [], ◌∷◌, arith,
  ◌==◌, ◌⊎◌, inl, inr, get_or, first,
}
use proxer.Number.{Num, int}
use proxer.Json.{Json, object, text}
use proxer.Text.{trim}
use proxer.Text.Trim.{ne_empty}
use proxer.Effect.{send}
use proxer.Effect.Run.{Server, run}
use proxer.Agent.Types.{TunnelConfig, AgentProfile, RuntimeOptions, Shape, Of}
use proxer.Agent.Form.{
  profile_to_form, profile_payload, to_mode, mode_name, tunnels_to_string, tunnel_entry, join,
  non_empty, entries,
}
use proxer.Agent.State.{AgentState}
use proxer.Agent.Actions

-- A tunnel of a profile that has an id, perhaps a token, and a target.
pub data Mapping : Type 0 where
  mapping : String → Option String → String → Mapping

-- a text that is not empty and has no outer white space
abbrev pub IsTrimmed : String → Type 0
IsTrimmed s = ((s == "") ≡ false) × (trim s ≡ s)

abbrev pub IsClean : Mapping → Type 0
IsClean (mapping id none target) = IsTrimmed id × IsTrimmed target
IsClean (mapping id (some token) target) = IsTrimmed id × IsTrimmed target × IsTrimmed token

abbrev pub config_of : Mapping → TunnelConfig
config_of (mapping id token target) = record {
  id = some id;
  target_url = some target;
  token = token;
}

-- `id=target`, or `id@token=target`
abbrev pub mapping_text : Mapping → String
mapping_text (mapping id none target) = id <> "=" <> target
mapping_text (mapping id (some token) target) = id <> "@" <> token <> "=" <> target

-- separated by commas
abbrev pub mappings_text : List Mapping → String
mappings_text [] = ""
mappings_text (m ∷ []) = mapping_text m
mappings_text (m ∷ n ∷ rest) = mapping_text m <> "," <> mappings_text (n ∷ rest)

append_shown : (s t : String) → (s == "") ≡ false → (s <> t == "") ≡ false
append_shown String.[] t h = cc
append_shown (String.◌∷◌ c s) t h = rw (cons-append c s t) (ne_empty c (s <> t))

mapping_shown : (m : Mapping) → IsClean m → (mapping_text m == "") ≡ false
mapping_shown (mapping id none target) (a, b) = append_shown id ("=" <> target) a.0
mapping_shown (mapping id (some t) target) (a, b, c) =
    append_shown id ("@" <> t <> "=" <> target) a.0

tunnel_entry-config : (m : Mapping) → IsClean m → tunnel_entry (config_of m) ≡ mapping_text m
unfolding tunnel_entry
tunnel_entry-config (mapping id none target) ((a, b), (c, d)) = rw (b, d, a, c) refl
tunnel_entry-config (mapping id (some t) target) ((a, b), (c, d), (e, f)) =
    rw (b, d, f, a, c, e) refl

entries_shown :
    (ms : List Mapping)
    → All IsClean ms
    → non_empty (entries (map config_of ms)) ≡ map mapping_text ms
entries_shown [] h = refl
entries_shown (m ∷ rest) (a, b) =
    rw (tunnel_entry-config m a, mapping_shown m a)
      (ap (λ texts. mapping_text m ∷ texts) (entries_shown rest b))

join-map : (ms : List Mapping) → join (map mapping_text ms) ≡ mappings_text ms
join-map [] = refl
join-map (m ∷ []) = refl
join-map (m ∷ n ∷ rest) = ap (λ s. mapping_text m <> "," <> s) (join-map (n ∷ rest))

tunnels_text :
    (tunnels : Option (List TunnelConfig)) (ms : List Mapping)
    → get_or tunnels [] ≡ map config_of ms
    → All IsClean ms
    → tunnels_to_string tunnels ≡ mappings_text ms
unfolding tunnels_to_string
tunnels_text none [] h k = refl
tunnels_text none (m ∷ rest) h k = cc
tunnels_text (some tunnels) ms h k = rw h (ap join (entries_shown ms k) ∙ join-map ms)

-- What is stored of a profile and its runtime options, each text without its outer white space, an
-- option that is missing with its default, the tunnels `ms` as one text, and no secret.
abbrev pub stored_body : AgentProfile → List Mapping → RuntimeOptions → ℕ → Json
stored_body p ms rt max_bytes = object (
    ("name", text (trim p.name))
    ∷ ("gateway_base_url", text (trim p.gateway_base_url))
    ∷ ("agent_id", text (trim p.agent_id))
    ∷ ("mode", text p.mode)
    ∷ ("connector_id", text (trim (get_or p.connector_id "")))
    ∷ ("connector_secret", text "")
    ∷ ("agent_token", text "")
    ∷ ("legacy_tunnels", text (trim (mappings_text ms)))
    ∷ (
      "runtime",
      object (
          ("request_timeout", text (trim (get_or rt.request_timeout "45s")))
          ∷ ("poll_wait", text (trim (get_or rt.poll_wait "25s")))
          ∷ ("heartbeat_interval", text (trim (get_or rt.heartbeat_interval "10s")))
          ∷ ("max_response_body_bytes", Json.num (int max_bytes))
          ∷ ("proxy_url", text (trim (get_or rt.proxy_url "")))
          ∷ ("no_proxy", text (trim (get_or rt.no_proxy "")))
          ∷ ("tls_skip_verify", Json.bool (get_or rt.tls_skip_verify false))
          ∷ ("ca_file", text (trim (get_or rt.ca_file "")))
          ∷ ("log_level", text (trim (get_or rt.log_level "info")))
          ∷ []),
    )
    ∷ [])

mode_name-to_mode :
    (mode : String)
    → (mode ≡ "connector") ⊎ (mode ≡ "legacy_tunnels")
    → mode_name (to_mode mode) ≡ mode
mode_name-to_mode mode (inl e) = rw e refl
mode_name-to_mode mode (inr e) = rw e refl

payload-form :
    (show_number : Num → String) (p : AgentProfile) (ms : List Mapping) (rt : RuntimeOptions)
    (n : ℕ)
    → (p.mode ≡ "connector") ⊎ (p.mode ≡ "legacy_tunnels")
    → get_or p.legacy_tunnels [] ≡ map config_of ms
    → All IsClean ms
    → p.runtime ≡ some rt
    → profile_payload (profile_to_form show_number p) n ≡ stored_body p ms rt n
unfolding profile_payload profile_to_form trim
payload-form show_number p ms rt n m h k e =
    rw (tunnels_text p.legacy_tunnels ms h k, e, mode_name-to_mode p.mode m) refl

first_sent :
    {W : Type 0} (server : Server Shape Of W) (show_number : Num → String) (n : ℕ)
    (r s : AgentState) (w : W)
    → (trim r.form.name == "") ≡ false
    → (r.editing_profile_id == "") ≡ false
    → Actions.max_bytes_of r.form.max_response_body_bytes ≡ some n
    → first (run server (Actions.handle_profile_submit show_number r) s w).sent
      ≡ some (send "PUT" (Actions.profile_path r.editing_profile_id) (profile_payload r.form n))
unfolding Actions.handle_profile_submit
first_sent server show_number n r s w a b h = ground arith

shown_bytes :
    (show_number : Num → String) (p : AgentProfile) (rt : RuntimeOptions) (bytes : Num)
    → p.runtime ≡ some rt
    → rt.max_response_body_bytes ≡ some bytes
    → (profile_to_form show_number p).max_response_body_bytes ≡ show_number bytes
unfolding profile_to_form
shown_bytes show_number p rt bytes e f = rw (e, f) refl

-- Editing a profile and saving the form unchanged sends a PUT for that profile first, whose body is
-- what is stored of the profile, its limit of bytes included: for a profile with a name that is not
-- blank, an id, one of the two modes, runtime options, tunnels that each have an id and a target and
-- no outer white space, and a limit that is read back from its printed form.
pub submit-edit_profile :
    {W : Type 0} (server : Server Shape Of W) (show_number : Num → String) (p : AgentProfile)
    (ms : List Mapping) (rt : RuntimeOptions) (n : ℕ) (s : AgentState) (w : W)
    → (trim p.name == "") ≡ false
    → (p.id == "") ≡ false
    → (p.mode ≡ "connector") ⊎ (p.mode ≡ "legacy_tunnels")
    → get_or p.legacy_tunnels [] ≡ map config_of ms
    → All IsClean ms
    → p.runtime ≡ some rt
    → rt.max_response_body_bytes ≡ some (int n)
    → Actions.max_bytes_of (show_number (int n)) ≡ some n
    → (let filled = (run server (Actions.handle_edit_profile show_number p) s w).state in
        first (run server (Actions.handle_profile_submit show_number filled) filled w).sent
        ≡ some (send "PUT" (Actions.profile_path p.id) (stored_body p ms rt n)))
unfolding Actions.handle_edit_profile Actions.handle_profile_submit profile_to_form
submit-edit_profile server show_number p ms rt n s w a b m c k e f h =
    let filled = (run server (Actions.handle_edit_profile show_number p) s w).state in
    first_sent server show_number n filled filled w a b
      (ap Actions.max_bytes_of (shown_bytes show_number p rt (int n) e f) ∙ h)
    ∙ ap (λ body. some (send "PUT" (Actions.profile_path p.id) body))
        (payload-form show_number p ms rt n m c k e)
