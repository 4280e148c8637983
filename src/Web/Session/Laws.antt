-- ===== src/Web/Session/Laws.antt =====
-- The session against a server, one action at a time: what each action leaves behind on every reply.
use proxer.Base.{
  String, true, false, ◌≡◌, none, some, [], ◌∷◌, arith, if◌then◌else◌, starts_with, ◌==◌,
}
use proxer.Effect.{Thrown, ok, fail, Request, get, bare}
use proxer.Effect.Run.{Server, run}
use proxer.Web.Types.{Shape, me_payload, message, Of}
use proxer.Web.Format.{to_error_message}
use proxer.Web.Session

module _ {W : Type 0} (server : Server Shape Of W) where
  -- After `refreshSession` no check is under way, and `me` is the payload of a reply, or none after
  -- a rejection; one request is sent and nothing is thrown.
  refresh_session_lem :
      (s : Session.AppState) (w : W)
      → run server Session.refresh_session s w ≡ record {
        result = ok tt;
        state = record s {
          me = elim (server me_payload (get "/api/auth/me") w).0 [ ok p ↦ some p | fail e ↦ none ];
          checking_auth = false;
        };
        world = (server me_payload (get "/api/auth/me") w).1;
        sent = get "/api/auth/me" ∷ [];
      }
  unfolding Session.refresh_session
  refresh_session_lem s w = ground arith

  -- Opening a path that begins with /app, for which react-router picks the route of the workspace,
  -- shows the workspace of the user that the server names once the check has ended, and the login
  -- page if the server names none.
  pub path_effect-screen :
      (router : String → Session.RouteKey) (path : String) (s : Session.AppState) (w : W)
      → starts_with path "/app" ≡ true
      → router path ≡ Session.app
      → s.pathname ≡ path
      → Session.screen router (run server (Session.path_effect path) s w).state
        ≡ elim (server me_payload (get "/api/auth/me") w).0 [
          | ok p ↦ Session.workspace p
          | fail e ↦ Session.redirect "/login"
        ]
  unfolding Session.path_effect Session.screen
  path_effect-screen router path s w a b c = ground arith

  -- `logout` sends one request, clears the session, changes nothing else and throws nothing,
  -- whether or not the server could be told.
  pub logout_lem :
      (s : Session.AppState) (w : W)
      → ((run server Session.logout s w).result ≡ ok tt)
        × ((run server Session.logout s w).state ≡ record s { me = none })
        × ((run server Session.logout s w).sent ≡ bare "POST" "/api/auth/logout" ∷ [])
  unfolding Session.logout
  logout_lem s w = (ground arith, ground arith, ground arith)

  -- A request of the workspace clears the session if it is answered by 401, and only then; its
  -- value or its error is passed on.
  api_lem :
      (t : Shape) (r : Request) (s : Session.AppState) (w : W)
      → run server (Session.api t r) s w ≡ record {
        result = elim (server t r w).0 [ ok a ↦ ok (a, tt) | fail e ↦ fail e ];
        state = elim (server t r w).0 [
          | ok a ↦ s
          | fail e ↦ if Session.is_401 e then record s { me = none } else s
        ];
        world = (server t r w).1;
        sent = r ∷ [];
      }
  unfolding Session.api
  api_lem t r s w = ground arith

  module _ (c : Session.Credentials) (s : Session.AppState) (w : W) where
    abbrev pub login_request : Request
    login_request = Session.credentials_body c (bare "POST" "/api/auth/login")

    -- A refused login changes nothing but the form: it shows the error and can be sent again; `me`
    -- is not asked for.
    pub submit_login_refused :
        (e : Thrown) (w' : W)
        → server message login_request w ≡ (fail e, w')
        → ((run server (Session.submit_login c) s w).state ≡ record s {
          credentials = record s.credentials { status = to_error_message e; submitting = false };
        })
          × ((run server (Session.submit_login c) s w).sent ≡ login_request ∷ [])
    unfolding Session.submit_login
    submit_login_refused e w' h = (ground arith, ground arith)

    abbrev pub signup_request : Request
    signup_request = Session.credentials_body c (bare "POST" "/api/public/signup")

    -- Signing up sends nothing if the passwords differ; else it sends the credentials once and, only
    -- if they are accepted, asks for the session, once itself and once for the change of the path.
    pub sent-submit_signup : (run server (Session.submit_signup c) s w).sent ≡ (
        if c.password == c.confirm_password
        then signup_request ∷ elim (server message signup_request w).0 [
          | ok x ↦ get "/api/auth/me" ∷ get "/api/auth/me" ∷ []
          | fail e ↦ []
        ]
        else [])
    unfolding Session.submit_signup Session.path_effect
    sent-submit_signup = ground arith
