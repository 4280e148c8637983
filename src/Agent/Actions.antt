-- ===== src/Agent/Actions.antt =====
-- The handlers and effects of the `App` component of agentweb/src/App.tsx. A handler takes the state
-- that it was rendered with, `r`, and changes the state as it is when it runs.
pub mod Laws
pub mod Paths
pub mod Edit
pub mod Settled
pub mod Notices
pub mod Order
pub mod Store
use proxer.Base.{
  ℕ, String, Bool, true, false, not, ◌&&◌, ◌||◌, Option, none, some, List, [], ◌∷◌, get_or, ◌==◌,
  ◌<>◌, truthy, nat_eq, if◌then◌else◌,
}
use proxer.Number.{Num}
use proxer.Number.Parse.{parse_int}
use proxer.Json
use proxer.Json.{object}
use proxer.Text.{trim}
use proxer.Text.Uri.{encode_uri_component}
use proxer.Effect.{
  Thrown, api_error, error, Request, get, send, bare, done, ◌>>=◌, ◌>>◌, try_catch, finally, modify,
  all, together,
}
use proxer.Agent.Types
use proxer.Agent.Types.{AgentSettings, AgentProfile, NativeStatusSnapshot, ProfileFormState}
use proxer.Agent.Form.{default_form, profile_to_form, profile_payload}
use proxer.Agent.State.{
  AgentState, Action, set_error, set_success, clear_notices, set_loading, set_status,
  set_pair_profile,
}

-- `error instanceof Error ? error.message : fallback`
abbrev pub message_or : String → Thrown → String
message_or fallback (api_error line status) = line
message_or fallback (error line) = line
message_or fallback _ = fallback

abbrev pub failing : String → Thrown → Action
failing fallback e = modify (set_error (message_or fallback e))

unfoldable pub refresh_status : Action
refresh_status = do
  (snapshot, _) ← all ((Types.snapshot, get "/api/status") ∷ [])
  modify (set_status snapshot)

-- `!pairProfile && nextSettings.active_profile_id`, for the `pairProfile` of the render
unfoldable pub fill_pair : AgentState → AgentSettings → AgentState → AgentState
fill_pair r next s =
    let active = get_or next.active_profile_id "" in
    if not (truthy r.pair_profile) && truthy active then set_pair_profile active s else s

unfoldable pub refresh_settings_and_profiles : AgentState → Action
refresh_settings_and_profiles r = do
  (next, (profiles, _)) ←
      all ((Types.settings, get "/api/settings") ∷ (Types.profiles, get "/api/profiles") ∷ [])
  modify (λ s. fill_pair r next (record s { settings = some next; profiles = profiles }))

unfoldable pub refresh_logs : Action
refresh_logs = do
  (lines, _) ← all ((Types.logs, get "/api/logs?tail=250") ∷ [])
  modify (λ s. record s { logs = get_or lines [] })

unfoldable pub refresh_all : AgentState → Action
unfolding refresh_settings_and_profiles refresh_status refresh_logs
refresh_all r =
    modify (set_loading true)
    >> finally
        (try_catch
          (do
            together (refresh_settings_and_profiles r) (together refresh_status refresh_logs)
            modify (λ s. record s { error_message = "" }))
          (failing "Failed to refresh data"))
        (set_loading false)

-- a `runtime` event of the event source; what cannot be parsed is ignored
abbrev pub runtime_event : Option NativeStatusSnapshot → Action
runtime_event none = done tt
runtime_event (some snapshot) = modify (set_status snapshot)

abbrev pub clear_form : (Num → String) → AgentState → AgentState
clear_form show_number s = record s { editing_profile_id = ""; form = default_form show_number }

abbrev pub profile_path : String → String
profile_path id = "/api/profiles/" <> encode_uri_component id

-- the request that `handleProfileSubmit` sends, and what it does with the reply
abbrev pub save_profile : AgentState → ℕ → Action
save_profile r max_bytes =
    let payload = profile_payload r.form max_bytes in
    if truthy r.editing_profile_id
    then (do
      all ((Types.profile, send "PUT" (profile_path r.editing_profile_id) payload) ∷ [])
      modify (set_success ("Profile updated: " <> trim r.form.name)))
    else do
      (created, _) ← all ((Types.profile, send "POST" "/api/profiles" payload) ∷ [])
      modify
          (λ s. set_success ("Profile created: " <> created.name) (set_pair_profile created.id s))

-- finite and above 0
abbrev pub positive : Option (Bool × ℕ) → Option ℕ
positive none = none
positive (some (neg, n)) = if neg || nat_eq n 0 then none else some n

-- `maxBytes`
unfoldable pub max_bytes_of : String → Option ℕ
max_bytes_of line = positive (parse_int line)

abbrev pub submit_valid : (Num → String) → AgentState → Option ℕ → Action
submit_valid show_number r none =
    modify (set_error "Max response body bytes must be a positive integer")
submit_valid show_number r (some max_bytes) =
    try_catch
      (do
        save_profile r max_bytes
        modify (clear_form show_number)
        refresh_settings_and_profiles r)
      (failing "Failed to save profile")

unfoldable pub handle_profile_submit : (Num → String) → AgentState → Action
unfolding refresh_settings_and_profiles
handle_profile_submit show_number r =
    modify clear_notices
    >> (if trim r.form.name == ""
        then modify (set_error "Profile name is required")
        else submit_valid show_number r (max_bytes_of r.form.max_response_body_bytes))

unfoldable pub handle_use_profile : AgentState → String → Action
unfolding refresh_settings_and_profiles
handle_use_profile r id =
    try_catch
      (do
        all ((Types.profile, bare "POST" (profile_path id <> "/use")) ∷ [])
        refresh_settings_and_profiles r
        modify (set_success "Active profile updated"))
      (failing "Failed to set active profile")

-- a deleted profile is no longer edited
unfoldable pub clear_if_editing : (Num → String) → AgentState → String → AgentState → AgentState
clear_if_editing show_number r id s =
    if r.editing_profile_id == id then clear_form show_number s else s

-- `confirmed` is the answer of `window.confirm`
unfoldable pub handle_delete_profile : (Num → String) → AgentState → Bool → String → Action
unfolding refresh_settings_and_profiles
handle_delete_profile show_number r confirmed id =
    if not confirmed
    then done tt
    else try_catch
        (do
          all ((Types.deleted, bare "DELETE" (profile_path id)) ∷ [])
          modify (clear_if_editing show_number r id)
          refresh_settings_and_profiles r
          modify (set_success "Profile deleted"))
        (failing "Failed to delete profile")

unfoldable pub handle_edit_profile : (Num → String) → AgentProfile → Action
unfolding profile_to_form
handle_edit_profile show_number profile = modify (λ s.
    clear_notices
      (record s { editing_profile_id = profile.id; form = profile_to_form show_number profile }))

unfoldable pub handle_pair : AgentState → Action
unfolding refresh_settings_and_profiles
handle_pair r =
    if trim r.pair_profile == ""
    then modify (set_error "Profile is required for pairing")
    else if trim r.pair_token == ""
    then modify (set_error "Pair token is required")
    else try_catch
        (do
          (updated, _) ← all (
              (
                Types.profile,
                send "POST" (profile_path (trim r.pair_profile) <> "/pair")
                    (object (("pair_token", Json.text (trim r.pair_token)) ∷ [])),
              )
              ∷ [])
          modify (λ s.
              set_success ("Pairing complete for profile " <> updated.name)
                (record s { pair_token = "" }))
          refresh_settings_and_profiles r)
        (failing "Pairing failed")

unfoldable pub handle_start : AgentState → Action
unfolding refresh_status refresh_logs
handle_start r =
    try_catch
      (do
        all (
            (
              Types.snapshot,
              send "POST" "/api/runtime/start"
                  (object (("profile", Json.text (trim r.runtime_profile)) ∷ [])),
            )
            ∷ [])
        together refresh_status refresh_logs
        modify (set_success "Runtime started"))
      (failing "Failed to start runtime")

unfoldable pub handle_stop : Action
unfolding refresh_status refresh_logs
handle_stop =
    try_catch
      (do
        all ((Types.snapshot, bare "POST" "/api/runtime/stop") ∷ [])
        together refresh_status refresh_logs
        modify (set_success "Runtime stopped"))
      (failing "Failed to stop runtime")

abbrev pub save_settings : Option AgentSettings → Action
save_settings none = done tt
save_settings (some t) =
    try_catch
      (do
        (updated, _) ← all (
            (
              Types.settings,
              send "PUT" "/api/settings" (
                  object (
                    ("launch_mode", Json.text t.launch_mode)
                    ∷ ("start_at_login", Json.bool t.start_at_login)
                    ∷ [])),
            )
            ∷ [])
        modify (λ s. set_success "Settings saved" (record s { settings = some updated })))
      (failing "Failed to save settings")

unfoldable pub handle_save_settings : AgentState → Action
handle_save_settings r = save_settings r.settings

unfoldable pub handle_check_updates : Action
handle_check_updates =
    try_catch
      (do
        (result, _) ← all ((Types.update, get "/api/update/check") ∷ [])
        modify
            (λ s. set_success "Update check completed" (record s { update_result = some result })))
      (failing "Update check failed")
