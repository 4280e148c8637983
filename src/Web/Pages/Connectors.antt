-- ===== src/Web/Pages/Connectors.antt =====
-- `ConnectorsPage` of web/src/workspace.
use proxer.Base.{
  String, false, List, [], ◌∷◌, ◌++◌, map, get_or, or_else, ◌<>◌, if◌then◌else◌, truthy,
}
use proxer.Json.{Json, object}
use proxer.Text.Uri.{encode_uri_component}
use proxer.Effect.{get, send, bare, Ask, Replies, done}
use proxer.Web.Types.{Tenant, AuthMeResponse, ConnectorView, Shape, Of, Action}
use proxer.Web.Pages.Routes.{is_super, default_tenant}
use proxer.Web.View.{
  Cell, Panel, badge_of, text, button, message_line, output_line, table, inputs, rows_or, when,
  guarded,
}
use proxer.Web.Page.{Page, FormData, form_text, load_page, mutate, set_message, reset}

pub record ConnectorsData : Type 0 where
  pub connectors : List ConnectorView
  pub tenants : List Tenant
  pub output : String

abbrev pub asks : List (Ask Shape)
asks = (Shape.connectors, get "/api/me/connectors") ∷ (Shape.tenants, get "/api/tenants") ∷ []

abbrev pub store : Replies Shape Of asks → ConnectorsData → ConnectorsData
store (connectors_payload, (tenants_payload, _)) d = record d {
  connectors = get_or connectors_payload [];
  tenants = get_or tenants_payload [];
}

unfoldable pub load : Action (Page ConnectorsData)
unfolding load_page
load = load_page asks store

abbrev pub connector_form : String → FormData
connector_form tenant = ("tenant_id", tenant) ∷ ("id", "") ∷ ("name", "") ∷ []

-- the tenant that `createConnector` names
unfoldable pub target_tenant : AuthMeResponse → Page ConnectorsData → String
unfolding default_tenant
target_tenant me s =
    if is_super me then form_text s.form "tenant_id" "" else default_tenant me s.content.tenants

-- `createConnector`, in the page as it was rendered
unfoldable pub create_connector :
    AuthMeResponse → Page ConnectorsData → Action (Page ConnectorsData)
unfolding mutate load target_tenant
create_connector me s =
    mutate
      (
        Shape.message,
        send "POST" "/api/connectors" (
            object (
              ("tenant_id", Json.text (target_tenant me s))
              ∷ ("id", Json.text (form_text s.form "id" ""))
              ∷ ("name", Json.text (form_text s.form "name" ""))
              ∷ [])),
      )
      (λ _ t.
        set_message "Connector created."
          (reset (connector_form (default_tenant me t.content.tenants)) t))
      load

abbrev pub connector_path : String → String
connector_path id = "/api/connectors/" <> encode_uri_component id

abbrev pub set_output : String → Page ConnectorsData → Page ConnectorsData
set_output line s = record s { content = record s.content { output = line } }

-- `pair`
unfoldable pub pair : String → Action (Page ConnectorsData)
unfolding mutate
pair id =
    mutate (Shape.command, bare "POST" (connector_path id <> "/pair"))
      (λ command. set_output (get_or command "")) (done tt)

-- `rotate`
unfoldable pub rotate : String → Action (Page ConnectorsData)
unfolding mutate
rotate id =
    mutate (Shape.secret, bare "POST" (connector_path id <> "/rotate"))
      (λ secret. set_output ("connector_secret=" <> get_or secret "")) (done tt)

-- `remove`
unfoldable pub remove : String → Action (Page ConnectorsData)
unfolding mutate load
remove id = mutate (Shape.nothing, bare "DELETE" (connector_path id)) (λ _ s. s) load

connector_row : ConnectorView → List Cell
unfolding badge_of
connector_row connector =
    text connector.id
    ∷ text connector.tenant_id
    ∷ badge_of (if get_or connector.connected false then "online" else "offline")
    ∷ text (or_else connector.agent_id "-")
    ∷ button "Pair"
    ∷ button "Rotate"
    ∷ button "Delete"
    ∷ []

unfoldable pub view : AuthMeResponse → Page ConnectorsData → List Panel
unfolding connector_row
view me s =
    record {
      title = "Create Connector";
      actions = [];
      children =
          inputs ((if is_super me then "tenant_id" ∷ [] else []) ++ "id" ∷ "name" ∷ [])
            ∷ when (truthy s.message) (message_line s.message)
          ++ when (truthy s.content.output) (output_line s.content.output);
    }
    ∷ record {
      title = "Connectors";
      actions = "Refresh" ∷ [];
      children = guarded s.loading s.error (
          table ("ID" ∷ "Tenant" ∷ "Status" ∷ "Agent" ∷ "Actions" ∷ [])
            (rows_or "No connectors." (map connector_row s.content.connectors)));
    }
    ∷ []
