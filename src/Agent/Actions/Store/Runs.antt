-- ===== src/Agent/Actions/Store/Runs.antt =====
-- What the handlers of profiles leave on the page and in the store, where the agent accepts their
-- request and where it refuses.
use proxer.Base.{ℕ, List, [], ◌∷◌, String, true, false, ◌≡◌, ◌<>◌, ◌==◌, some, arith}
use proxer.Number.{Num}
use proxer.Json
use proxer.Json.{object}
use proxer.Text.{trim}
use proxer.Effect.{Thrown, ok, fail, get, send, bare}
use proxer.Effect.Run.{Server, run}
use proxer.Agent.Types
use proxer.Agent.Types.{AgentSettings, AgentProfile, Shape, Of}
use proxer.Agent.Form.{profile_payload}
use proxer.Agent.State.{AgentState, Action}
use proxer.Agent.Actions
use proxer.Agent.Actions.{profile_path, max_bytes_of}

module _ {W : Type 0} (server : Server Shape Of W) (w w' : W) (t : AgentSettings)
    (ps : List AgentProfile) where
  -- a run that leaves the store `w'`, and these settings and profiles on the page
  abbrev pub Leaves : Action → AgentState → Type 0
  Leaves p s =
      ((run server p s w).world ≡ w')
      × ((run server p s w).state.settings ≡ some t)
      × ((run server p s w).state.profiles ≡ ps)

  module _ (settings_read : server Types.settings (get "/api/settings") w' ≡ (ok t, w'))
      (profiles_read : server Types.profiles (get "/api/profiles") w' ≡ (ok ps, w'))
      (r s : AgentState) where
    pub use_accepted :
        (id : String) (p : AgentProfile)
        → server Types.profile (bare "POST" (profile_path id <> "/use")) w ≡ (ok p, w')
        → Leaves (Actions.handle_use_profile r id) s
    unfolding Actions.handle_use_profile Actions.refresh_settings_and_profiles Actions.fill_pair
    use_accepted id p h = (ground arith, ground arith, ground arith)

    pub delete_accepted :
        (show_number : Num → String) (id : String) (x : Unit {0})
        → server Types.deleted (bare "DELETE" (profile_path id)) w ≡ (ok x, w')
        → Leaves (Actions.handle_delete_profile show_number r true id) s
    unfolding Actions.handle_delete_profile Actions.refresh_settings_and_profiles Actions.fill_pair
        Actions.clear_if_editing
    delete_accepted show_number id x h = (ground arith, ground arith, ground arith)

    pub update_accepted :
        (show_number : Num → String) (n : ℕ) (x : AgentProfile)
        → (trim r.form.name == "") ≡ false
        → max_bytes_of r.form.max_response_body_bytes ≡ some n
        → (r.editing_profile_id == "") ≡ false
        → server Types.profile
            (send "PUT" (profile_path r.editing_profile_id) (profile_payload r.form n))
            w
          ≡ (ok x, w')
        → Leaves (Actions.handle_profile_submit show_number r) s
    unfolding Actions.handle_profile_submit Actions.refresh_settings_and_profiles Actions.fill_pair
    update_accepted show_number n x h j k l = (ground arith, ground arith, ground arith)

    pub create_accepted :
        (show_number : Num → String) (n : ℕ) (x : AgentProfile)
        → (trim r.form.name == "") ≡ false
        → max_bytes_of r.form.max_response_body_bytes ≡ some n
        → (r.editing_profile_id == "") ≡ true
        → server Types.profile (send "POST" "/api/profiles" (profile_payload r.form n)) w
          ≡ (ok x, w')
        → Leaves (Actions.handle_profile_submit show_number r) s
    unfolding Actions.handle_profile_submit Actions.refresh_settings_and_profiles Actions.fill_pair
    create_accepted show_number n x h j k l = (ground arith, ground arith, ground arith)

    pub pair_accepted :
        (x : AgentProfile)
        → (trim r.pair_profile == "") ≡ false
        → (trim r.pair_token == "") ≡ false
        → server Types.profile
            (send "POST"
              (profile_path (trim r.pair_profile) <> "/pair")
              (object (("pair_token", Json.text (trim r.pair_token)) ∷ [])))
            w
          ≡ (ok x, w')
        → Leaves (Actions.handle_pair r) s
    unfolding Actions.handle_pair Actions.refresh_settings_and_profiles Actions.fill_pair
    pair_accepted x h j k = (ground arith, ground arith, ground arith)

module _ {W : Type 0} (server : Server Shape Of W) (w w' : W) (t : AgentSettings)
    (ps : List AgentProfile) (r s : AgentState) (settings_shown : s.settings ≡ some t)
    (profiles_shown : s.profiles ≡ ps) (e : Thrown) where
  pub use_refused :
      (id : String)
      → server Types.profile (bare "POST" (profile_path id <> "/use")) w ≡ (fail e, w')
      → Leaves server w w' t ps (Actions.handle_use_profile r id) s
  unfolding Actions.handle_use_profile
  use_refused id h = (ground arith, ground arith, ground arith)

  pub delete_refused :
      (show_number : Num → String) (id : String)
      → server Types.deleted (bare "DELETE" (profile_path id)) w ≡ (fail e, w')
      → Leaves server w w' t ps (Actions.handle_delete_profile show_number r true id) s
  unfolding Actions.handle_delete_profile
  delete_refused show_number id h = (ground arith, ground arith, ground arith)

  pub update_refused :
      (show_number : Num → String) (n : ℕ)
      → (trim r.form.name == "") ≡ false
      → max_bytes_of r.form.max_response_body_bytes ≡ some n
      → (r.editing_profile_id == "") ≡ false
      → server Types.profile
          (send "PUT" (profile_path r.editing_profile_id) (profile_payload r.form n))
          w
        ≡ (fail e, w')
      → Leaves server w w' t ps (Actions.handle_profile_submit show_number r) s
  unfolding Actions.handle_profile_submit
  update_refused show_number n h j k l = (ground arith, ground arith, ground arith)

  pub create_refused :
      (show_number : Num → String) (n : ℕ)
      → (trim r.form.name == "") ≡ false
      → max_bytes_of r.form.max_response_body_bytes ≡ some n
      → (r.editing_profile_id == "") ≡ true
      → server Types.profile (send "POST" "/api/profiles" (profile_payload r.form n)) w
        ≡ (fail e, w')
      → Leaves server w w' t ps (Actions.handle_profile_submit show_number r) s
  unfolding Actions.handle_profile_submit
  create_refused show_number n h j k l = (ground arith, ground arith, ground arith)

  pub pair_refused :
      (trim r.pair_profile == "") ≡ false
      → (trim r.pair_token == "") ≡ false
      → server Types.profile
          (send "POST"
            (profile_path (trim r.pair_profile) <> "/pair")
            (object (("pair_token", Json.text (trim r.pair_token)) ∷ [])))
          w
        ≡ (fail e, w')
      → Leaves server w w' t ps (Actions.handle_pair r) s
  unfolding Actions.handle_pair
  pair_refused h j k = (ground arith, ground arith, ground arith)
