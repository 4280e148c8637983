-- ===== src/Agent/Actions/Notices.antt =====
-- The two notices of the agent's page, in every history of its handlers, effects and events.
use proxer.Base.{
  ℕ, Bool-cases, String, Bool, ◌≡◌, refl, ◌⊎◌, inl, inr, Option, none, some, List, [], arith,
  truthy,
}
use proxer.Number.{Num}
use proxer.Effect.{Thrown, ◌>>=◌, try_catch, modify, together}
use proxer.Effect.Safe.{
  Answers, Safe, Safe-if, returns, sets, awaits, safe_rules, bind-Safe, try_catch-Safe,
  finally-Safe,
}
use proxer.Effect.Safe.Together.{together-Safe}
use proxer.Effect.Pool.{Machine, Reach, Reach-invariant}
use proxer.Agent.Types.{AgentSettings, AgentProfile, NativeStatusSnapshot, Shape, Of}
use proxer.Agent.State.{AgentState, Action, initial, set_error, set_success}
use proxer.Agent.Actions

-- What the page can start: its effects, an event of the runtime, and each handler in any render `r`.
pub data Starts (show_number : Num → String) (s : AgentState) : Action → Type 0 where
  refreshes : (r : AgentState) → Starts show_number s (Actions.refresh_all r)
  reconnects : Starts show_number s Actions.refresh_status
  ticks : Starts show_number s Actions.refresh_logs
  event : (o : Option NativeStatusSnapshot) → Starts show_number s (Actions.runtime_event o)
  submits : (r : AgentState) → Starts show_number s (Actions.handle_profile_submit show_number r)
  uses : (r : AgentState) (id : String) → Starts show_number s (Actions.handle_use_profile r id)
  deletes :
      (r : AgentState) (confirmed : Bool) (id : String)
      → Starts show_number s (Actions.handle_delete_profile show_number r confirmed id)
  edits : (p : AgentProfile) → Starts show_number s (Actions.handle_edit_profile show_number p)
  pairs : (r : AgentState) → Starts show_number s (Actions.handle_pair r)
  starts : (r : AgentState) → Starts show_number s (Actions.handle_start r)
  stops : Starts show_number s Actions.handle_stop
  saves : (r : AgentState) → Starts show_number s (Actions.handle_save_settings r)
  checks : Starts show_number s Actions.handle_check_updates

abbrev pub AnyReply : Answers Shape Of
AnyReply asks x = Unit {0}

-- At most one of the two notices is shown.
abbrev pub OneNotice : AgentState → Type 0
OneNotice s = (s.error_message ≡ "") ⊎ (s.success_message ≡ "")

error_keeps : (line : String) (s : AgentState) → OneNotice s → OneNotice (set_error line s)
error_keeps line s h = inr refl

success_keeps :
    (line : String) (f : AgentState → AgentState) (s : AgentState)
    → OneNotice s
    → OneNotice (set_success line (f s))
success_keeps line f s h = inl refl

no_error_keeps : (s : AgentState) → OneNotice s → OneNotice (record s { error_message = "" })
no_error_keeps s h = inl refl

refresh_status-Safe : Safe OneNotice AnyReply Actions.refresh_status
unfolding Actions.refresh_status
refresh_status-Safe = search (safe_rules)

refresh_logs-Safe : Safe OneNotice AnyReply Actions.refresh_logs
unfolding Actions.refresh_logs
refresh_logs-Safe = search (safe_rules)

fill_keeps :
    (r : AgentState) (next : AgentSettings) (profiles : List AgentProfile) (s : AgentState)
    → OneNotice s
    → OneNotice (Actions.fill_pair r next (record s { settings = some next; profiles = profiles }))
unfolding Actions.fill_pair
fill_keeps r next profiles s h = ground arith

clear_keeps :
    (show_number : Num → String) (r : AgentState) (id : String) (s : AgentState)
    → OneNotice s
    → OneNotice (Actions.clear_if_editing show_number r id s)
unfolding Actions.clear_if_editing
clear_keeps show_number r id s h = ground arith

ruleset notice_rules =
    (safe_rules, error_keeps, success_keeps, no_error_keeps, fill_keeps, clear_keeps)

failing_keeps : (line : String) (e : Thrown) → Safe OneNotice AnyReply (Actions.failing line e)
failing_keeps line e = search notice_rules

-- both parts of the refresh run at once, and the success follows when both have ended
refreshed-Safe :
    (line fallback : String)
    → Safe OneNotice AnyReply (
        try_catch
          (together Actions.refresh_status Actions.refresh_logs >>= λ _. modify (set_success line))
          (Actions.failing fallback))
refreshed-Safe line fallback =
    try_catch-Safe _ _
      (bind-Safe (together Actions.refresh_status Actions.refresh_logs) _
        (together-Safe Shape Of AnyReply _ _ refresh_status-Safe refresh_logs-Safe)
        (λ _. search notice_rules))
      (failing_keeps fallback)

stop-Safe : Safe OneNotice AnyReply Actions.handle_stop
unfolding Actions.handle_stop
stop-Safe =
    awaits _ _ (λ x y. refreshed-Safe "Runtime stopped" "Failed to stop runtime")
      (failing_keeps "Failed to stop runtime")

check-Safe : Safe OneNotice AnyReply Actions.handle_check_updates
unfolding Actions.handle_check_updates
check-Safe = search notice_rules depth 14

event-Safe : (o : Option NativeStatusSnapshot) → Safe OneNotice AnyReply (Actions.runtime_event o)
event-Safe none = returns tt
event-Safe (some snapshot) = search notice_rules

save-Safe : (o : Option AgentSettings) → Safe OneNotice AnyReply (Actions.save_settings o)
save-Safe none = returns tt
save-Safe (some t) = search notice_rules depth 14

module _ (r : AgentState) where
  start-Safe : Safe OneNotice AnyReply (Actions.handle_start r)
  unfolding Actions.handle_start
  start-Safe =
      awaits _ _ (λ x y. refreshed-Safe "Runtime started" "Failed to start runtime")
        (failing_keeps "Failed to start runtime")

  settings-Safe : Safe OneNotice AnyReply (Actions.refresh_settings_and_profiles r)
  unfolding Actions.refresh_settings_and_profiles
  settings-Safe = search notice_rules

  refresh_all-Safe : Safe OneNotice AnyReply (Actions.refresh_all r)
  unfolding Actions.refresh_all
  refresh_all-Safe =
      sets _ _ (λ s h. h)
        (finally-Safe _ _
          (try_catch-Safe _ _
            (bind-Safe _ _
              (together-Safe Shape Of AnyReply _ _ settings-Safe
                (together-Safe Shape Of AnyReply _ _ refresh_status-Safe refresh_logs-Safe))
              (λ _. search notice_rules))
            (failing_keeps "Failed to refresh data"))
          (λ s h. h))

  use-Safe : (id : String) → Safe OneNotice AnyReply (Actions.handle_use_profile r id)
  unfolding Actions.handle_use_profile
  use-Safe id = search notice_rules depth 14

  pair-Safe : Safe OneNotice AnyReply (Actions.handle_pair r)
  unfolding Actions.handle_pair
  pair-Safe = search notice_rules depth 16

module _ (show_number : Num → String) (r : AgentState) where
  delete-Safe :
      (confirmed : Bool) (id : String)
      → Safe OneNotice AnyReply (Actions.handle_delete_profile show_number r confirmed id)
  unfolding Actions.handle_delete_profile
  delete-Safe confirmed id = search notice_rules depth 16

  submit_valid-Safe :
      (o : Option ℕ) → Safe OneNotice AnyReply (Actions.submit_valid show_number r o)
  unfolding Actions.refresh_settings_and_profiles
  submit_valid-Safe none = search notice_rules
  submit_valid-Safe (some n) = elim (Bool-cases (truthy r.editing_profile_id)) [
    | inl e ↦ rw e (search notice_rules depth 16)
    | inr e ↦ rw e (search notice_rules depth 16)
  ]

  submit-Safe : Safe OneNotice AnyReply (Actions.handle_profile_submit show_number r)
  unfolding Actions.handle_profile_submit
  submit-Safe =
      sets _ _ (λ s h. inl refl)
        (Safe-if _ _ _ (sets _ _ (error_keeps _) (returns tt)) (submit_valid-Safe _))

edit-Safe :
    (show_number : Num → String) (p : AgentProfile)
    → Safe OneNotice AnyReply (Actions.handle_edit_profile show_number p)
unfolding Actions.handle_edit_profile
edit-Safe show_number p = sets _ _ (λ s h. inl refl) (returns tt)

Starts-Safe :
    (show_number : Num → String) (s : AgentState) (p : Action)
    → Starts show_number s p
    → OneNotice s
    → Safe OneNotice AnyReply p
Starts-Safe f s p (refreshes r) h = refresh_all-Safe r
Starts-Safe f s p reconnects h = refresh_status-Safe
Starts-Safe f s p ticks h = refresh_logs-Safe
Starts-Safe f s p (event o) h = event-Safe o
Starts-Safe f s p (submits r) h = submit-Safe f r
Starts-Safe f s p (uses r id) h = use-Safe r id
Starts-Safe f s p (deletes r confirmed id) h = delete-Safe f r confirmed id
Starts-Safe f s p (edits q) h = edit-Safe f q
Starts-Safe f s p (pairs r) h = pair-Safe r
Starts-Safe f s p (starts r) h = start-Safe r
Starts-Safe f s p stops h = stop-Safe
Starts-Safe f s p (saves r) h = unfold Actions.handle_save_settings in save-Safe r.settings
Starts-Safe f s p checks h = check-Safe

-- From the first render on, whatever the user does, whatever the server answers and in whatever
-- order its replies come: the page never shows an error and a success at the same time.
pub notices_exclusive :
    (show_number : Num → String) (m : Machine Shape Of AgentState)
    → Reach (Starts show_number) AnyReply (record { state = initial show_number; tasks = [] }) m
    → OneNotice m.state
unfolding initial
notices_exclusive show_number m r =
    (Reach-invariant OneNotice (Starts show_number) AnyReply (Starts-Safe show_number)
      (inl refl, tt) r).0
