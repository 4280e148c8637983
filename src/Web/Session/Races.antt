-- ===== src/Web/Session/Races.antt =====
-- The session when several of its actions run at the same time, in every order of the replies.
use proxer.Base.{
  String, Bool-cases, inl, inr, true, ◌≡◌, refl, subst, sym, ◌∙◌, none, some, [], ◌∷◌, ◌++◌, arith,
}
use proxer.Effect.{ok, Request, ◌>>◌, done}
use proxer.Effect.Safe.{Answers, Safe, safe_rules, Safe-if, returns, throws, sets, awaits, spawns}
use proxer.Effect.Settle.Laws.{opened}
use proxer.Effect.Ends.{NoStarts}
use proxer.Effect.Pool.{advance, Machine, Step, Reach, reply, Reach-invariant}
use proxer.Web.Types.{AuthMeResponse, Shape, me_payload, Of, Action}
use proxer.Web.Format.{to_error_message}
use proxer.Web.Session
use proxer.Web.Session.{AppState, Credentials}

-- What the user and the router can start: a route change, the three forms, a request of a page.
pub data Starts (s : AppState) : Action AppState → Type 0 where
  route_change : (path : String) → Starts s (Session.path_effect path)
  logs_out : Starts s Session.logout
  logs_in : (c : Credentials) → Starts s (Session.submit_login c)
  signs_up : (c : Credentials) → Starts s (Session.submit_signup c)
  requests : (t : Shape) (r : Request) → Starts s (Session.api t r >> done tt)

module _ (Valid : AuthMeResponse → Type 0) where
  -- A server that names only valid users in its replies to `/api/auth/me`.
  abbrev pub Vouched : Answers Shape Of
  Vouched ((me_payload, r) ∷ []) (ok (p, u)) = Valid p
  Vouched _ _ = Unit {0}

  abbrev pub OnlyVouched : AppState → Type 0
  OnlyVouched s = (p : AuthMeResponse) → s.me ≡ some p → Valid p

  clear_keeps : (s : AppState) → OnlyVouched s → OnlyVouched (Session.set_me none s)
  clear_keeps s h p e = cc

  take_keeps :
      (q : AuthMeResponse)
      → Valid q
      → (s : AppState) → OnlyVouched s
      → OnlyVouched (Session.set_me (some q) s)
  take_keeps q v s h p e = let same : q ≡ p = cc in subst Valid same v

  -- tracking an event leaves `me` alone, behind a setter that does
  track_keeps :
      (name outcome : String) (f : AppState → AppState)
      → ((s : AppState) → (f s).me ≡ s.me)
      → (s : AppState) → OnlyVouched s
      → OnlyVouched (Session.track (Session.event_named name outcome) (f s))
  unfolding Session.track
  track_keeps name outcome f same s h p e = h p (sym (same s) ∙ ground arith)

  logout-Safe : Safe OnlyVouched Vouched Session.logout
  unfolding Session.logout
  logout-Safe = search (safe_rules, clear_keeps)

  refresh-Safe : Safe OnlyVouched Vouched Session.refresh_session
  unfolding Session.refresh_session
  refresh-Safe = search (safe_rules, clear_keeps, take_keeps) depth 9

  path_effect-Safe : (path : String) → Safe OnlyVouched Vouched (Session.path_effect path)
  unfolding Session.path_effect
  path_effect-Safe path = Safe-if _ _ _ refresh-Safe (sets _ _ (λ s h. h) (returns tt))

  -- the change of the path at the end of a form
  go_to-Safe : (path : String) → Safe OnlyVouched Vouched (Session.go_to path)
  unfolding Session.go_to
  go_to-Safe path = sets _ _ (λ s h. h) (spawns _ _ (path_effect-Safe path) (returns tt))

  login-Safe : (c : Credentials) → Safe OnlyVouched Vouched (Session.submit_login c)
  unfolding Session.submit_login
  login-Safe c = search (safe_rules, clear_keeps, take_keeps) depth 14

  signup-Safe : (c : Credentials) → Safe OnlyVouched Vouched (Session.submit_signup c)
  unfolding Session.submit_signup
  signup-Safe c =
      sets _ _ (λ s h. h)
        (Safe-if _ _ _ (sets _ _ (λ s h. h) (returns tt)) (
          sets _ _ (track_keeps "signup_submit" "attempt" (Session.set_submitting true) (λ s. refl))
            (awaits _ _
              (λ x y.
                sets _ _ (track_keeps "signup_success" "success" (λ s. s) (λ s. refl))
                  (search (safe_rules, clear_keeps, take_keeps) depth 14))
              (λ e.
                sets _ _
                  (track_keeps "signup_failure" "error" (Session.set_status (to_error_message e))
                    (λ s. refl))
                  (sets _ _ (λ s h. h) (returns tt))))))

  api-Safe : (t : Shape) (r : Request) → Safe OnlyVouched Vouched (Session.api t r >> done tt)
  unfolding Session.api
  api-Safe t r =
      awaits _ _ (λ x y. returns tt)
        (λ e. elim (Bool-cases (Session.is_401 e)) [
          | inl yes_401 ↦ rw yes_401 (sets _ _ clear_keeps (throws e))
          | inr not_401 ↦ rw not_401 (throws e)
        ])

  Starts-Safe :
      (s : AppState) (p : Action AppState) → Starts s p → OnlyVouched s → Safe OnlyVouched Vouched p
  Starts-Safe s p (route_change path) h = path_effect-Safe path
  Starts-Safe s p logs_out h = logout-Safe
  Starts-Safe s p (logs_in c) h = login-Safe c
  Starts-Safe s p (signs_up c) h = signup-Safe c
  Starts-Safe s p (requests t r) h = api-Safe t r

  -- From a component without a session, in every history of route changes, logins, signups,
  -- logouts and requests whose replies come in any order: the session shown is one that a reply of
  -- the server named.
  pub me_vouched :
      (s : AppState) (m : Machine Shape Of AppState)
      → s.me ≡ none
      → Reach Starts Vouched (record { state = s; tasks = [] }) m
      → OnlyVouched m.state
  me_vouched s m e r =
      (Reach-invariant OnlyVouched Starts Vouched Starts-Safe ((λ p f. cc), tt) r).0

-- a server and a network that may answer anything
abbrev pub AnyReply : Answers Shape Of
AnyReply asks x = Unit {0}

-- the app behind a logout that was sent, and a route change to a path of the workspace behind that
abbrev pub leaving : AppState → Machine Shape Of AppState
leaving s = opened s Session.logout

abbrev pub leaving_checked : AppState → Machine Shape Of AppState
leaving_checked s = record {
  state = (advance (Session.path_effect "/app") (leaving s).state).0;
  tasks = (leaving s).tasks ++ (advance (Session.path_effect "/app") (leaving s).state).1;
}

-- A logout and a session check that a route change starts while the logout is under way: the logout is
-- answered, ends and clears `me`, with the check still waiting; then the reply to the check, which
-- names a user, sets `me` again, and no action is left that would clear it.
pub late_check_restores_session :
    (s : AppState) (p : AuthMeResponse)
    → (before after : Machine Shape Of AppState) × Step NoStarts AnyReply (leaving_checked s) before
      × (before.state.me ≡ none)
      × (before.tasks ≡ done tt ∷ (advance (Session.path_effect "/app") s).1)
      × Step NoStarts AnyReply before after
      × (after.state.me ≡ some p)
      × (after.tasks ≡ done tt ∷ done tt ∷ [])
unfolding Session.path_effect Session.refresh_session Session.logout
late_check_restores_session s p = (
  _,
  _,
  reply _ [] (_ ∷ []) _ _ (ok (tt, tt)) tt,
  refl,
  refl,
  reply _ (done tt ∷ []) [] _ _ (ok (p, tt)) tt,
  refl,
  refl,
)
