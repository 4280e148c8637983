-- ===== src/Tests/Inside.antt =====
-- The page of the users inside the app, at a gateway where the session has expired.
use proxer.Base.{false, ◌≡◌, none, some, []}
use proxer.Effect.{ok}
use proxer.Web.Format.{to_error_message}
use proxer.Web.Page.{Page, fresh, load_page}
use proxer.Web.Pages.Users
use proxer.Web.Pages.Users.{UsersData}
use proxer.Web.Session
use proxer.Web.Session.{AppState}
use proxer.Web.Session.Inside.{run_inside}
use proxer.Web.Session.Inside.Laws.{run_inside_lem}
use proxer.Tests.Sessions.{at}
use proxer.Tests.Site.{ann_session, expiring, expired}

abbrev page : Page UsersData
page = fresh Users.user_form (record { users = []; tenants = [] })

-- a session that the gateway has ended meanwhile
abbrev inside : AppState
inside = record (at "/app/users") { me = some ann_session }

run_inside_example : run_inside expiring (load_page Users.asks Users.store) page inside 0 ≡ record {
  result = ok tt;
  page = record page { loading = false; error = to_error_message expired };
  session = record inside { me = none };
  world = 2;
}
unfolding load_page
run_inside_example = run_inside_lem expiring (load_page Users.asks Users.store) page inside 0
