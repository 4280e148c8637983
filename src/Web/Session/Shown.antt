-- ===== src/Web/Session/Shown.antt =====
-- Whose workspace the `App` of web/src/App.js can show.
use proxer.Base.{String, Bool, true, false, ◌≡◌, Option, none, some, []}
use proxer.Effect.Pool.{Machine, Reach}
use proxer.Web.Types.{AuthMeResponse, Shape, Of}
use proxer.Web.Session
use proxer.Web.Session.{AppState, Screen, RouteKey, workspace}
use proxer.Web.Session.Races.{Starts, Vouched, me_vouched}

-- the route `/app/*` shows the workspace of `me` only, and the others show none
shown_by :
    (key : RouteKey) (checking : Bool) (me : Option AuthMeResponse) (p : AuthMeResponse)
    → Session.route_screen key checking me ≡ workspace p
    → me ≡ some p
unfolding Session.route_screen
shown_by Session.root checking me p h = cc
shown_by Session.login true me p h = cc
shown_by Session.login false none p h = cc
shown_by Session.login false (some q) p h = cc
shown_by Session.signup true me p h = cc
shown_by Session.signup false none p h = cc
shown_by Session.signup false (some q) p h = cc
shown_by Session.app true me p h = cc
shown_by Session.app false none p h = cc
shown_by Session.app false (some q) p h = cc
shown_by Session.other checking me p h = cc

-- From a component without a session, in every history of route changes, logins, signups, logouts
-- and requests whose replies come in any order, and on every path: a workspace that is shown is the
-- workspace of a user that a reply of the server named.
pub workspace_vouched :
    (Valid : AuthMeResponse → Type 0) (router : String → RouteKey) (s : AppState)
    (m : Machine Shape Of AppState) (p : AuthMeResponse)
    → s.me ≡ none
    → Reach Starts (Vouched Valid) (record { state = s; tasks = [] }) m
    → Session.screen router m.state ≡ workspace p
    → Valid p
unfolding Session.screen
workspace_vouched Valid router s m p e r h =
    me_vouched Valid s m e r p
      (shown_by (router m.state.pathname) m.state.checking_auth m.state.me p h)
