-- ===== src/Web/Session/Settled.antt =====
-- The flags of the session when its actions overlap: the check of the session, and the form that is
-- being submitted.
use proxer.Base.{
  String, Bool-cases, inl, inr, true, false, ◌≡◌, ◌≢◌, refl, subst, Option, none, some, All, not,
  ◌==◌, arith,
}
use proxer.Effect.{Thrown, Request, done, ◌>>◌}
use proxer.Effect.Safe.{Safe, returns, throws, sets, awaits, safe_rules}
use proxer.Effect.Settle.{
  Clears, lowers, later, on_reply, handed, Settles, Settles-if, keeps, clears, behind, replied,
  finally-Clears, finally_after, try_catch-Clears,
}
use proxer.Effect.Settle.Laws.{IsOver, opened, Reach-settled}
use proxer.Effect.Pool.{Machine, Reach}
use proxer.Web.Types.{AuthMeResponse, Shape, Of, Action}
use proxer.Web.Format.{to_error_message}
use proxer.Web.Session
use proxer.Web.Session.{AppState, Credentials}
use proxer.Web.Session.Races.{Starts, AnyReply}

abbrev pub Checked : AppState → Type 0
Checked s = s.checking_auth ≡ false

track_keeps :
    (name outcome : String) (s : AppState)
    → Checked s
    → Checked (Session.track (Session.event_named name outcome) s)
unfolding Session.track
track_keeps name outcome s h = ground arith

refresh-Clears : Clears Checked AnyReply Session.refresh_session
unfolding Session.refresh_session
refresh-Clears = later _ _ (
    finally-Clears _ _
      (awaits _ _ (λ x y. sets _ _ (λ s h. h) (returns tt)) (λ e. sets _ _ (λ s h. h) (returns tt)))
      (λ s. refl))

path_effect-Settles : (path : String) → Clears Checked AnyReply (Session.path_effect path)
unfolding Session.path_effect
path_effect-Settles path = elim (Bool-cases (Session.starts_with path "/app")) [
  | inl e ↦ rw e refresh-Clears
  | inr e ↦ rw e (lowers _ _ (λ s. refl) (returns tt))
]

go_to-Clears : (path : String) → Clears Checked AnyReply (Session.go_to path)
unfolding Session.go_to
go_to-Clears path = later _ _ (handed _ _ (path_effect-Settles path) (returns tt))

-- the end of the two forms: the check, and the check that the new path starts
enter-Clears : Clears Checked AnyReply (Session.refresh_session >> Session.go_to "/app")
unfolding Session.refresh_session
enter-Clears = later _ _ (
    on_reply _ _ (λ x y. later _ _ (later _ _ (go_to-Clears "/app")))
      (λ e. later _ _ (later _ _ (go_to-Clears "/app"))))

logout-Safe : Safe Checked AnyReply Session.logout
unfolding Session.logout
logout-Safe = search safe_rules

login-Settles : (c : Credentials) → Settles Checked AnyReply (Session.submit_login c)
unfolding Session.submit_login
login-Settles c =
    behind _ _ (λ s h. h)
      (replied _ _
        (λ x y. clears _ (
          finally_after _ _
            (try_catch-Clears _ _ enter-Clears (λ e. sets _ _ (λ s h. h) (returns tt))) (λ s h. h)))
        (λ e. keeps _ (sets _ _ (λ s h. h) (sets _ _ (λ s h. h) (returns tt)))))

signup-Settles : (c : Credentials) → Settles Checked AnyReply (Session.submit_signup c)
unfolding Session.submit_signup
signup-Settles c =
    behind _ _ (λ s h. h)
      (Settles-if (not (c.password == c.confirm_password)) _ _
        (keeps _ (sets _ _ (λ s h. h) (returns tt)))
        (behind _ _ (λ s h. track_keeps "signup_submit" "attempt" (Session.set_submitting true s) h)
          (replied _ _
            (λ x y. behind _ _ (track_keeps "signup_success" "success") (
              clears _ (
                finally_after _ _
                  (try_catch-Clears _ _ enter-Clears (λ e. sets _ _ (failed_keeps e) (returns tt)))
                  (λ s h. h))))
            (λ e. keeps _ (sets _ _ (failed_keeps e) (sets _ _ (λ s h. h) (returns tt)))))))
  where
    failed_keeps :
        (e : Thrown) (s : AppState)
        → Checked s
        → Checked (
            Session.track
              (Session.event_named "signup_failure" "error")
              (Session.set_status (to_error_message e) s))
    failed_keeps e s h =
        track_keeps "signup_failure" "error" (Session.set_status (to_error_message e) s) h

api-Safe : (t : Shape) (r : Request) → Safe Checked AnyReply (Session.api t r >> done tt)
unfolding Session.api
api-Safe t r =
    awaits _ _ (λ x y. returns tt)
      (λ e. elim (Bool-cases (Session.is_401 e)) [
        | inl yes_401 ↦ rw yes_401 (sets _ _ (λ s h. h) (throws e))
        | inr not_401 ↦ rw not_401 (throws e)
      ])

Starts-Settles : (s : AppState) (p : Action AppState) → Starts s p → Settles Checked AnyReply p
Starts-Settles s p (Starts.route_change path) = clears _ (path_effect-Settles path)
Starts-Settles s p Starts.logs_out = keeps _ logout-Safe
Starts-Settles s p (Starts.logs_in c) = login-Settles c
Starts-Settles s p (Starts.signs_up c) = signup-Settles c
Starts-Settles s p (Starts.requests t r) = keeps _ (api-Safe t r)

not_checking :
    (key : Session.RouteKey) (me : Option AuthMeResponse)
    → Session.route_screen key false me ≢ Session.checking
unfolding Session.route_screen
not_checking Session.root me h = cc
not_checking Session.login none h = cc
not_checking Session.login (some p) h = cc
not_checking Session.signup none h = cc
not_checking Session.signup (some p) h = cc
not_checking Session.app none h = cc
not_checking Session.app (some p) h = cc
not_checking Session.other me h = cc

-- The app opens with the effect of its path and is never left at "Checking session...": whatever route
-- changes, logins, signups, logouts and requests follow, whatever is answered and in whatever order,
-- another screen is shown once all of them have ended, on every path.
pub session_settles :
    (router : String → Session.RouteKey) (s : AppState) (path : String)
    (m : Machine Shape Of AppState)
    → Reach Starts AnyReply (opened s (Session.path_effect path)) m
    → All IsOver m.tasks
    → Session.screen router m.state ≢ Session.checking
unfolding Session.screen
session_settles router s path m r o h =
    let over : m.state.checking_auth ≡ false =
      Reach-settled Checked AnyReply Starts Starts-Settles s (Session.path_effect path) m
        (path_effect-Settles path) r o in
    not_checking (router m.state.pathname) m.state.me (
      subst (λ b. Session.route_screen (router m.state.pathname) b m.state.me ≡ Session.checking)
        over h)
