-- ===== src/Tests/Settled.antt =====
-- Components whose tasks have all ended: a page and the agent's page after a failed load, and a
-- session that no one has.
use proxer.Base.{Bool, String, inl, inr, ◌≡◌, ◌≢◌, refl, [], ◌∷◌}
use proxer.Number.{Num}
use proxer.Effect.{ok, fail, error}
use proxer.Effect.Pool.{Machine, Reach, here, next, start, reply, settles}
use proxer.Effect.Settle.Laws.{opened}
use proxer.Web.Types
use proxer.Web.Types.{Action}
use proxer.Web.Page.{Page, fresh, load_page, mutate}
use proxer.Web.Page.Settled
use proxer.Web.Page.Settled.{page_settles}
use proxer.Web.Pages.Users
use proxer.Web.Pages.Users.{UsersData}
use proxer.Web.Session
use proxer.Web.Session.{AppState}
use proxer.Web.Session.Races
use proxer.Web.Session.Settled.{session_settles}
use proxer.Agent.Types.{Shape, Of}
use proxer.Agent.State.{AgentState, initial}
use proxer.Agent.Actions
use proxer.Agent.Actions.Notices
use proxer.Agent.Actions.Settled.{agent_settles}
use proxer.Agent.Actions.Order.{answering, refreshed, refresh_all_order}
use proxer.Effect.Ends.{NoStarts, Served}
use proxer.Tests.Site.{ann}
use proxer.Tests.Desk.{answer}
use proxer.Tests.Sessions.{at, router}

abbrev page : Page UsersData
page = fresh Users.user_form (record { users = []; tenants = [] })

-- the load fails after the user has sent a request, which fails, too
page_history :
    (m : Machine Types.Shape Types.Of (Page UsersData)) × Reach
      (Settled.Starts UsersData)
      (Settled.AnyReply UsersData)
      (opened page (load_page Users.asks Users.store))
      m
unfolding load_page mutate
page_history = (
  _,
  next
      (next
        (next here (
          start _ _ _
            (Settled.sends (Types.message, Users.toggle_request ann) (λ _ s. s) (λ x t. refl))))
        (reply _ [] _ _ _ (fail (error "network error")) tt))
      (reply _ (_ ∷ []) [] _ _ (fail (error "network error")) tt),
)

page_settles_example : page_history.0.state.loading ≡ Bool.false
unfolding page_history
page_settles_example =
    page_settles UsersData page Users.asks Users.store page_history.0 page_history.1 (tt, (tt, tt))

-- no session, and a user who logs in in vain
session_history :
    (m : Machine Types.Shape Types.Of AppState) × Reach Races.Starts
      (Races.AnyReply)
      (opened (at "/app/routes") (Session.path_effect "/app/routes"))
      m
unfolding Session.path_effect Session.refresh_session Session.submit_login
session_history = (
  _,
  next
      (next (next here (start _ _ _ (Races.logs_in (at "/login").credentials)))
        (reply _ [] _ _ _ (fail (error "network error")) tt))
      (reply _ (_ ∷ []) [] _ _ (fail (error "network error")) tt),
)

session_settles_example : Session.screen router session_history.0.state ≢ Session.checking
unfolding session_history
session_settles_example =
    session_settles router (at "/app/routes") "/app/routes" session_history.0 session_history.1
      (tt, (tt, tt))

abbrev no_number : Num → String
no_number n = ""

-- the settings cannot be read, then the other parts of the refresh come in
desk_history :
    (m : Machine Shape Of AgentState) × Reach
      (Notices.Starts no_number)
      Notices.AnyReply
      (opened (initial no_number) (Actions.refresh_all (initial no_number)))
      m
unfolding Actions.refresh_all Actions.handle_stop
desk_history = (
  _,
  next
      (next
        (next
          (next (next here (start _ _ _ Notices.stops))
            (settles _ [] _ _ _ _ (inl (fail (error "network error"))) tt))
          (settles _ (_ ∷ []) _ _ _ _ (inl (fail (error "network error"))) tt))
        (reply _ (_ ∷ _ ∷ []) (_ ∷ []) _ _ (fail (error "network error")) tt))
      (reply _ (_ ∷ _ ∷ _ ∷ []) [] _ _ (fail (error "network error")) tt),
)

agent_settles_example : desk_history.0.state.loading ≡ Bool.false
unfolding desk_history
agent_settles_example =
    agent_settles no_number desk_history.0 desk_history.1 (tt, (tt, (tt, (tt, tt))))

-- the logs come first and the settings last
refreshed_history :
    (m : Machine Shape Of AgentState) × Reach NoStarts
      (Served (answering answer))
      (opened (initial no_number) (Actions.refresh_all (initial no_number)))
      m
unfolding Actions.refresh_all
refreshed_history = (
  _,
  next
      (next (next here (settles _ [] [] _ _ _ (inr (inr (inl (ok (answer Shape.logs, tt))))) refl))
        (settles _ [] [] _ _ _ (inr (inl (ok (answer Shape.snapshot, tt)))) refl))
      (reply _ [] [] _ _ (ok (answer Shape.settings, (answer Shape.profiles, tt))) refl),
)

refresh_all_order_example :
    refreshed_history.0.state ≡ refreshed answer (initial no_number) (initial no_number)
unfolding refreshed_history
refresh_all_order_example =
    refresh_all_order answer (initial no_number) (initial no_number) refreshed_history.0
      refreshed_history.1 (tt, tt)
