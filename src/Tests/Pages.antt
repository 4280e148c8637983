-- ===== src/Tests/Pages.antt =====
-- The pages of the workspace against the gateways in `Site`.
use proxer.Base.{◌≤◌, String, false, ◌≡◌, refl, none, some, [], ◌∷◌, ◌<>◌}
use proxer.Number.{frac}
use proxer.Effect.{ok, get}
use proxer.Effect.Run.{run}
use proxer.Text.Uri.{percent_decode, bytes}
use proxer.Text.Uri.Laws.{IsSegment}
use proxer.Web.Types
use proxer.Web.Types.{Shape, Of, RouteView}
use proxer.Web.Format.{to_error_message, ring_percent}
use proxer.Web.Format.Laws.{ring_percent_bound}
use proxer.Web.Page.{Page, fresh, load_page, mutate, set_message}
use proxer.Web.Page.Laws.{load_page_lem, mutate_refused, mutate_accepted}
use proxer.Web.Pages.Users
use proxer.Web.Pages.Users.{UsersData}
use proxer.Web.Pages.Routes
use proxer.Web.Pages.Routes.Paths.{delete_path_lem}
use proxer.Tests.Site.{ann, root, acme, beta, site, refusing, denied}

abbrev opened : Page UsersData
opened = fresh Users.user_form (record { users = []; tenants = [] })

load_page_example : run site (load_page Users.asks Users.store) opened 0 ≡ record {
  result = ok tt;
  state = record opened {
    loading = false;
    content = record { users = root ∷ ann ∷ []; tenants = beta ∷ acme ∷ [] };
  };
  world = 2;
  sent = get "/api/admin/users" ∷ get "/api/tenants" ∷ [];
}
load_page_example = load_page_lem site Users.asks Users.store opened 0

mutate_refused_example :
    run refusing
      (mutate
        (Types.message, Users.toggle_request ann)
        (λ _ s. s)
        (load_page Users.asks Users.store))
      opened
      0
    ≡ record {
      result = ok tt;
      state = set_message (to_error_message denied) opened;
      world = 1;
      sent = Users.toggle_request ann ∷ [];
    }
mutate_refused_example =
    mutate_refused refusing (Types.message, Users.toggle_request ann) (λ _ s. s)
      (load_page Users.asks Users.store) opened 0 1 denied refl

mutate_accepted_example :
    run site
      (mutate
        (Types.message, Users.toggle_request ann)
        (λ _ s. s)
        (load_page Users.asks Users.store))
      opened
      0
    ≡ record {
      result = ok tt;
      state = record opened {
        loading = false;
        content = record { users = root ∷ ann ∷ []; tenants = beta ∷ acme ∷ [] };
      };
      world = 3;
      sent = Users.toggle_request ann ∷ get "/api/admin/users" ∷ get "/api/tenants" ∷ [];
    }
mutate_accepted_example =
    mutate_accepted site (Types.message, Users.toggle_request ann) (λ _ s. s)
      (load_page Users.asks Users.store) opened 0 1 Users.asks Users.store tt refl

abbrev odd_route : RouteView
odd_route = record {
  tenant_id = "acme/eu";
  id = "a?b";
  connector_id = none;
  max_rps = none;
  connected = none;
  public_url = none;
}

delete_path_example :
    (tenant id : String) × (Routes.delete_path odd_route
      ≡ ("/api/tenants/" <> tenant <> "/routes") <> "/" <> id)
    × (IsSegment tenant × IsSegment id)
    × (percent_decode tenant ≡ bytes "acme/eu")
    × (percent_decode id ≡ bytes "a?b")
delete_path_example = delete_path_lem odd_route

ring_percent_bound_example : ring_percent (some (frac false 7 1)) ≤ 100
ring_percent_bound_example = ring_percent_bound (some (frac false 7 1))
