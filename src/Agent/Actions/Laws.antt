-- ===== src/Agent/Actions/Laws.antt =====
-- The handlers of the agent's page against a server.
use proxer.Base.{ℕ, String, true, false, ◌≡◌, refl, some, List, [], ◌∷◌, arith, ◌==◌, ◌<>◌}
use proxer.Number.{Num}
use proxer.Text.{trim}
use proxer.Effect.{Thrown, ok, fail, Request, get, send, bare}
use proxer.Effect.Run.{Server, run}
use proxer.Agent.Types
use proxer.Agent.Types.{AgentSettings, AgentProfile, Shape, Of}
use proxer.Agent.Form.{profile_payload}
use proxer.Agent.State.{AgentState, set_error}
use proxer.Agent.Actions
use proxer.Agent.Actions.{max_bytes_of}

module _ {W : Type 0} (server : Server Shape Of W) (show_number : Num → String) where
  abbrev pub put_request : ℕ → AgentState → Request
  put_request n r =
      send "PUT" (Actions.profile_path r.editing_profile_id) (profile_payload r.form n)

  -- Saving the profile that is edited, with a name and a positive limit, sends one PUT with the
  -- form's payload and then reads settings and profiles. If all three succeed, the editor is
  -- closed, the profiles are those that were read, and the success names the profile.
  submit_update :
      (n : ℕ) (p : AgentProfile) (t : AgentSettings) (ps : List AgentProfile) (r s : AgentState)
      (w w₁ w₂ w₃ : W)
      → (trim r.form.name == "") ≡ false
      → max_bytes_of r.form.max_response_body_bytes ≡ some n
      → (r.editing_profile_id == "") ≡ false
      → server Types.profile (put_request n r) w ≡ (ok p, w₁)
      → server Types.settings (get "/api/settings") w₁ ≡ (ok t, w₂)
      → server Types.profiles (get "/api/profiles") w₂ ≡ (ok ps, w₃)
      → (let done = run server (Actions.handle_profile_submit show_number r) s w in
          (done.sent ≡ put_request n r ∷ get "/api/settings" ∷ get "/api/profiles" ∷ [])
          × (done.state.editing_profile_id ≡ "")
          × (done.state.profiles ≡ ps)
          × (done.state.success_message ≡ "Profile updated: " <> trim r.form.name))
  unfolding Actions.handle_profile_submit Actions.fill_pair
  submit_update n p t ps r s w w₁ w₂ w₃ a b c x y z =
      (ground arith, ground arith, ground arith, ground arith)

  -- Creating a profile while the pairing field is empty, where the requests succeed and the
  -- settings name an active profile, fills that field with the active profile, not with the one
  -- that was created.
  pub submit_create-pair_profile :
      (n : ℕ) (p : AgentProfile) (t : AgentSettings) (ps : List AgentProfile) (active : String)
      (r s : AgentState) (w w₁ w₂ w₃ : W)
      → (trim r.form.name == "") ≡ false
      → max_bytes_of r.form.max_response_body_bytes ≡ some n
      → (r.editing_profile_id == "") ≡ true
      → (r.pair_profile == "") ≡ true
      → t.active_profile_id ≡ some active
      → (active == "") ≡ false
      → server Types.profile (send "POST" "/api/profiles" (profile_payload r.form n)) w ≡ (ok p, w₁)
      → server Types.settings (get "/api/settings") w₁ ≡ (ok t, w₂)
      → server Types.profiles (get "/api/profiles") w₂ ≡ (ok ps, w₃)
      → (run server (Actions.handle_profile_submit show_number r) s w).state.pair_profile ≡ active
  unfolding Actions.handle_profile_submit Actions.fill_pair
  submit_create-pair_profile n p t ps active r s w w₁ w₂ w₃ a b c d e f x y z = ground arith

  -- A deletion that is not confirmed does nothing.
  pub delete_unconfirmed :
      (r s : AgentState) (id : String) (w : W)
      → run server (Actions.handle_delete_profile show_number r false id) s w
        ≡ record { result = ok tt; state = s; world = w; sent = [] }
  unfolding Actions.handle_delete_profile
  delete_unconfirmed r s id w = refl

  -- After a confirmed deletion that the server refuses, the error is shown, and everything but the
  -- two notices is what it was; nothing else is sent.
  delete_refused :
      (r s : AgentState) (id : String) (e : Thrown) (w w₁ : W)
      → server Types.deleted (bare "DELETE" (Actions.profile_path id)) w ≡ (fail e, w₁)
      → run server (Actions.handle_delete_profile show_number r true id) s w ≡ record {
        result = ok tt;
        state = set_error (Actions.message_or "Failed to delete profile" e) s;
        world = w₁;
        sent = bare "DELETE" (Actions.profile_path id) ∷ [];
      }
  unfolding Actions.handle_delete_profile
  delete_refused r s id e w w₁ h = ground arith
