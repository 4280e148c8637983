-- ===== src/Agent/Actions/Settled.antt =====
-- `loading` of the agent's page when its handlers overlap.
use proxer.Base.{
  ℕ, String, Bool-cases, inl, inr, Bool, false, ◌≡◌, refl, Option, none, some, List, All, arith,
  truthy,
}
use proxer.Number.{Num}
use proxer.Effect.{Thrown, ◌>>=◌, try_catch, modify, together}
use proxer.Effect.Safe.{Safe, Safe-if, returns, sets, awaits, safe_rules, bind-Safe, try_catch-Safe}
use proxer.Effect.Safe.Together.{together-Safe}
use proxer.Effect.Settle.{Clears, later, Settles, keeps, clears, finally-Clears}
use proxer.Effect.Settle.Laws.{IsOver, opened, Reach-settled}
use proxer.Effect.Pool.{Machine, Reach}
use proxer.Agent.Types.{AgentSettings, AgentProfile, NativeStatusSnapshot, Shape, Of}
use proxer.Agent.State.{AgentState, Action, initial, set_success}
use proxer.Agent.Actions
use proxer.Agent.Actions.Notices.{Starts, AnyReply}

abbrev pub Loaded : AgentState → Type 0
Loaded s = s.loading ≡ false

fill_keeps :
    (r : AgentState) (next : AgentSettings) (profiles : List AgentProfile) (s : AgentState)
    → Loaded s
    → Loaded (Actions.fill_pair r next (record s { settings = some next; profiles = profiles }))
unfolding Actions.fill_pair
fill_keeps r next profiles s h = ground arith

clear_keeps :
    (show_number : Num → String) (r : AgentState) (id : String) (s : AgentState)
    → Loaded s
    → Loaded (Actions.clear_if_editing show_number r id s)
unfolding Actions.clear_if_editing
clear_keeps show_number r id s h = ground arith

ruleset loading_rules = (safe_rules, fill_keeps, clear_keeps)

failing_keeps : (line : String) (e : Thrown) → Safe Loaded AnyReply (Actions.failing line e)
failing_keeps line e = search loading_rules

refresh_status-Safe : Safe Loaded AnyReply Actions.refresh_status
unfolding Actions.refresh_status
refresh_status-Safe = search loading_rules

refresh_logs-Safe : Safe Loaded AnyReply Actions.refresh_logs
unfolding Actions.refresh_logs
refresh_logs-Safe = search loading_rules

-- both parts of the refresh run at once, and the success follows when both have ended
refreshed-Safe :
    (line fallback : String)
    → Safe Loaded AnyReply (
        try_catch
          (together Actions.refresh_status Actions.refresh_logs >>= λ _. modify (set_success line))
          (Actions.failing fallback))
refreshed-Safe line fallback =
    try_catch-Safe _ _
      (bind-Safe (together Actions.refresh_status Actions.refresh_logs) _
        (together-Safe Shape Of AnyReply _ _ refresh_status-Safe refresh_logs-Safe)
        (λ _. search loading_rules))
      (failing_keeps fallback)

save-Safe : (o : Option AgentSettings) → Safe Loaded AnyReply (Actions.save_settings o)
save-Safe none = returns tt
save-Safe (some t) = search loading_rules depth 14

stop-Safe : Safe Loaded AnyReply Actions.handle_stop
unfolding Actions.handle_stop
stop-Safe =
    awaits _ _ (λ x y. refreshed-Safe "Runtime stopped" "Failed to stop runtime")
      (failing_keeps "Failed to stop runtime")

check-Safe : Safe Loaded AnyReply Actions.handle_check_updates
unfolding Actions.handle_check_updates
check-Safe = search loading_rules depth 14

module _ (r : AgentState) where
  settings-Safe : Safe Loaded AnyReply (Actions.refresh_settings_and_profiles r)
  unfolding Actions.refresh_settings_and_profiles
  settings-Safe = search loading_rules

  refresh_all-Clears : Clears Loaded AnyReply (Actions.refresh_all r)
  unfolding Actions.refresh_all
  refresh_all-Clears = later _ _ (
      finally-Clears _ _
        (try_catch-Safe _ _
          (bind-Safe _ _
            (together-Safe Shape Of AnyReply _ _ settings-Safe
              (together-Safe Shape Of AnyReply _ _ refresh_status-Safe refresh_logs-Safe))
            (λ _. search loading_rules))
          (failing_keeps "Failed to refresh data"))
        (λ s. refl))

  start-Safe : Safe Loaded AnyReply (Actions.handle_start r)
  unfolding Actions.handle_start
  start-Safe =
      awaits _ _ (λ x y. refreshed-Safe "Runtime started" "Failed to start runtime")
        (failing_keeps "Failed to start runtime")

  use-Safe : (id : String) → Safe Loaded AnyReply (Actions.handle_use_profile r id)
  unfolding Actions.handle_use_profile
  use-Safe id = search loading_rules depth 14

  pair-Safe : Safe Loaded AnyReply (Actions.handle_pair r)
  unfolding Actions.handle_pair
  pair-Safe = search loading_rules depth 16

module _ (show_number : Num → String) (r : AgentState) where
  delete-Safe :
      (confirmed : Bool) (id : String)
      → Safe Loaded AnyReply (Actions.handle_delete_profile show_number r confirmed id)
  unfolding Actions.handle_delete_profile
  delete-Safe confirmed id = search loading_rules depth 16

  submit_valid-Safe : (o : Option ℕ) → Safe Loaded AnyReply (Actions.submit_valid show_number r o)
  unfolding Actions.refresh_settings_and_profiles
  submit_valid-Safe none = search loading_rules
  submit_valid-Safe (some n) = elim (Bool-cases (truthy r.editing_profile_id)) [
    | inl e ↦ rw e (search loading_rules depth 16)
    | inr e ↦ rw e (search loading_rules depth 16)
  ]

  submit-Safe : Safe Loaded AnyReply (Actions.handle_profile_submit show_number r)
  unfolding Actions.handle_profile_submit
  submit-Safe =
      sets _ _ (λ s h. h) (Safe-if _ _ _ (sets _ _ (λ s h. h) (returns tt)) (submit_valid-Safe _))

edit-Safe :
    (show_number : Num → String) (p : AgentProfile)
    → Safe Loaded AnyReply (Actions.handle_edit_profile show_number p)
unfolding Actions.handle_edit_profile
edit-Safe show_number p = sets _ _ (λ s h. h) (returns tt)

event-Safe : (o : Option NativeStatusSnapshot) → Safe Loaded AnyReply (Actions.runtime_event o)
event-Safe none = returns tt
event-Safe (some snapshot) = search loading_rules

Starts-Settles :
    (show_number : Num → String) (s : AgentState) (p : Action)
    → Starts show_number s p
    → Settles Loaded AnyReply p
unfolding Actions.handle_save_settings
Starts-Settles show_number s p (Starts.refreshes r) = clears _ (refresh_all-Clears r)
Starts-Settles show_number s p Starts.reconnects = keeps _ refresh_status-Safe
Starts-Settles show_number s p Starts.ticks = keeps _ refresh_logs-Safe
Starts-Settles show_number s p (Starts.event o) = keeps _ (event-Safe o)
Starts-Settles show_number s p (Starts.submits r) = keeps _ (submit-Safe show_number r)
Starts-Settles show_number s p (Starts.uses r id) = keeps _ (use-Safe r id)
Starts-Settles show_number s p (Starts.deletes r c id) = keeps _ (delete-Safe show_number r c id)
Starts-Settles show_number s p (Starts.edits q) = keeps _ (edit-Safe show_number q)
Starts-Settles show_number s p (Starts.pairs r) = keeps _ (pair-Safe r)
Starts-Settles show_number s p (Starts.starts r) = keeps _ (start-Safe r)
Starts-Settles show_number s p Starts.stops = keeps _ stop-Safe
Starts-Settles show_number s p (Starts.saves r) = keeps _ (save-Safe r.settings)
Starts-Settles show_number s p Starts.checks = keeps _ check-Safe

-- The agent's page opens with a refresh and is never left loading: whatever its handlers, timers and
-- events start meanwhile, whatever is answered and in whatever order, it is not loading once all of
-- them have ended.
pub agent_settles :
    (show_number : Num → String) (m : Machine Shape Of AgentState)
    → Reach
        (Starts show_number)
        AnyReply
        (opened (initial show_number) (Actions.refresh_all (initial show_number)))
        m
    → All IsOver m.tasks
    → m.state.loading ≡ false
agent_settles show_number m r o =
    Reach-settled Loaded AnyReply (Starts show_number) (Starts-Settles show_number)
      (initial show_number) (Actions.refresh_all (initial show_number)) m
      (refresh_all-Clears (initial show_number)) r o
