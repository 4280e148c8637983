-- ===== src/Web/Workspace/Laws.antt =====
-- Which pages a user can come to in the workspace.
use proxer.Base.{Bool, true, false, ◌≡◌, ◌⊎◌, arith}
use proxer.Web.Workspace.{
  PageKey, nav_items, allowed, settle_page, initial_page, content, tenant_dashboard_page,
  routes_page, connectors_page, tenant_config_page,
}

-- A render with the role's `isSuper`, and a click on a button that the navigation shows. The effect
-- runs after both.
pub data Navigate : Bool × PageKey → Bool × PageKey → Type 0 where
  render :
      (super super' : Bool) (page : PageKey)
      → Navigate (super, page) (super', settle_page super' page)
  click :
      (super : Bool) (page key : PageKey)
      → allowed (nav_items super) key ≡ true
      → Navigate (super, page) (super, settle_page super key)

pub data Visits (super : Bool) : Bool × PageKey → Type 0 where
  opened : Visits super (super, settle_page super (initial_page super))
  moved : {a b : Bool × PageKey} → Visits super a → Navigate a b → Visits super b

-- The effect leaves a page that the role may see, and moves from any other page to one that it may.
pub settle_page_lem :
    (super : Bool) (page : PageKey)
    → (allowed (nav_items super) (settle_page super page) ≡ true)
      × (allowed (nav_items super) page ≡ true → settle_page super page ≡ page)
unfolding settle_page
settle_page_lem true page = (ground arith, ground arith)
settle_page_lem false page = (ground arith, ground arith)

Navigate-allowed : {a b : Bool × PageKey} → Navigate a b → allowed (nav_items b.0) b.1 ≡ true
Navigate-allowed (render super super' page) = (settle_page_lem super' page).0
Navigate-allowed (click super page key h) = (settle_page_lem super key).0

-- Whatever a user clicks and however the role changes on the way, the page shown is in the
-- navigation of the role that the user has then.
pub Visits-allowed :
    {super : Bool} {at : Bool × PageKey} → Visits super at → allowed (nav_items at.0) at.1 ≡ true
Visits-allowed opened = (settle_page_lem _ _).0
Visits-allowed (moved v n) = Navigate-allowed n

tenant_pages :
    (page : PageKey)
    → allowed (nav_items false) page ≡ true
    → (content page ≡ tenant_dashboard_page)
      ⊎ (content page ≡ routes_page)
      ⊎ (content page ≡ connectors_page)
      ⊎ (content page ≡ tenant_config_page)
unfolding allowed nav_items content
tenant_pages page h = ground arith

-- A user who is no super admin comes to the dashboard, the routes, the connectors and the tenant
-- configuration, and to no page of the administration.
pub Visits-content :
    {super : Bool} (page : PageKey)
    → Visits super (false, page)
    → (content page ≡ tenant_dashboard_page)
      ⊎ (content page ≡ routes_page)
      ⊎ (content page ≡ connectors_page)
      ⊎ (content page ≡ tenant_config_page)
Visits-content page v = tenant_pages page (Visits-allowed v)
