-- ===== src/Agent/Actions/Order.antt =====
-- The three parts of the refresh of the agent's page, answered in any order.
use proxer.Base.{String, ◌==◌, ◌∙◌, if◌then◌else◌, ◌≡◌, All, false, [], some, arith, get_or}
use proxer.Effect.{ok}
use proxer.Effect.Run.{Server}
use proxer.Effect.Pool.{Machine, Reach}
use proxer.Effect.Settle.Laws.{IsOver, opened}
use proxer.Effect.Ends.{NoStarts, Ends-over, EachOrder, Served, EachOrder-Ends}
use proxer.Agent.Types
use proxer.Agent.Types.{Shape, Of}
use proxer.Agent.State.{AgentState}
use proxer.Agent.Actions

module _ (value : (t : Shape) → Of t) where
  -- an agent that answers every request
  abbrev pub answering : Server Shape Of (Unit {0})
  answering t r w = (ok (value t), w)

  -- the page with all that was fetched
  abbrev filled : AgentState → AgentState → AgentState
  filled r s = Actions.fill_pair r (value Types.settings) (record s {
    settings = some (value Types.settings);
    profiles = value Types.profiles;
    status = value Types.snapshot;
    logs = get_or (value Types.logs) [];
    error_message = "";
    loading = false;
  })

  abbrev pub active : String
  active = get_or (value Types.settings).active_profile_id ""

  -- The page with all that was fetched. The profile to pair stays if the render `r` had one, or if no
  -- profile is active, and is else the active profile.
  abbrev pub refreshed : AgentState → AgentState → AgentState
  refreshed r s = record s {
    settings = some (value Types.settings);
    profiles = value Types.profiles;
    status = value Types.snapshot;
    logs = get_or (value Types.logs) [];
    error_message = "";
    loading = false;
    pair_profile =
        if r.pair_profile == ""
        then (if active == "" then s.pair_profile else active)
        else s.pair_profile;
  }

  filled-refreshed : (r s : AgentState) → filled r s ≡ refreshed r s
  unfolding Actions.fill_pair
  filled-refreshed r s = ground arith

  refresh_all-EachOrder :
      (r s : AgentState) → EachOrder (λ t. t ≡ filled r s) answering (Actions.refresh_all r) s
  unfolding Actions.refresh_all Actions.fill_pair
  refresh_all-EachOrder r s = (
    (ground arith, (ground arith, tt)),
    ((ground arith, (ground arith, tt)), ((ground arith, (ground arith, tt)), tt)),
  )

-- A refresh whose requests all succeed shows the settings, profiles, status and logs that were
-- fetched, and no error, in whatever order the answers come; the profile to pair is then the active
-- one of the settings, if they name one and the render that refreshes had none, and is else kept.
pub refresh_all_order :
    (value : (t : Shape) → Of t) (r s : AgentState) (m : Machine Shape Of AgentState)
    → Reach NoStarts (Served (answering value)) (opened s (Actions.refresh_all r)) m
    → All IsOver m.tasks
    → m.state ≡ refreshed value r s
refresh_all_order value r s m h o =
    let Same : AgentState → Type 0 = λ t. t ≡ filled value r s in
    Ends-over Same (Served (answering value)) (Actions.refresh_all r) s m
      (EachOrder-Ends Same (answering value) (Actions.refresh_all r) s
        (refresh_all-EachOrder value r s))
      h o
    ∙ filled-refreshed value r s
