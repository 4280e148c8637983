-- ===== src/Web/Pages/Routes/Paths.antt =====
-- The request paths of the routes page.
use proxer.Base.{String, ◌≡◌, refl, ◌<>◌}
use proxer.Text.Uri.{encode_uri_component, percent_decode, bytes}
use proxer.Text.Uri.Laws.{IsSegment, percent_decode-encode, encode-IsSegment}
use proxer.Web.Types.{RouteView}
use proxer.Web.Pages.Routes.{route_path, delete_path}

-- The path that deletes a route has one segment for the tenant and one for the route. Neither holds
-- a `/`, `?` or `#`, and each is percent-decoded to the bytes of its id.
pub delete_path_lem :
    (route : RouteView)
    → (tenant id : String) × (delete_path route
        ≡ ("/api/tenants/" <> tenant <> "/routes") <> "/" <> id)
      × (IsSegment tenant × IsSegment id)
      × (percent_decode tenant ≡ bytes route.tenant_id)
      × (percent_decode id ≡ bytes route.id)
unfolding delete_path route_path
delete_path_lem route = (
  encode_uri_component route.tenant_id,
  encode_uri_component route.id,
  refl,
  (encode-IsSegment route.tenant_id, encode-IsSegment route.id),
  percent_decode-encode route.tenant_id,
  percent_decode-encode route.id,
)
