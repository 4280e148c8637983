-- ===== src/Web/Pages/Tls.antt =====
-- `AdminTLSPage` of web/src/workspace.
use proxer.Base.{ℕ, String, Bool, List, [], ◌∷◌, map, get_or, ◌<>◌, if◌then◌else◌, truthy}
use proxer.Json.{Json, object}
use proxer.Text.Uri.{encode_uri_component}
use proxer.Effect.{Request, get, send, bare, Ask, Replies}
use proxer.Web.Types.{TlsCertificate, Shape, Of, Action}
use proxer.Web.View.{
  Cell, Panel, badge_of, text, button, message_line, table, inputs, rows_or, when, guarded,
}
use proxer.Web.Page.{Page, FormData, form_text, form_checked, load_page, mutate, set_message, reset}

abbrev pub certificate_form : FormData
certificate_form = ("id", "") ∷ ("hostname", "") ∷ ("cert_pem", "") ∷ ("key_pem", "") ∷ []

abbrev pub asks : List (Ask Shape)
asks = (Shape.certificates, get "/api/admin/tls/certificates") ∷ []

abbrev pub store : Replies Shape Of asks → List TlsCertificate → List TlsCertificate
store (payload, _) d = get_or payload []

unfoldable pub load : Action (Page (List TlsCertificate))
unfolding load_page
load = load_page asks store

pub upload_request : FormData → Request
upload_request form = send "POST" "/api/admin/tls/certificates" (
    object (
      ("id", Json.text (form_text form "id" ""))
      ∷ ("hostname", Json.text (form_text form "hostname" ""))
      ∷ ("cert_pem", Json.text (form_text form "cert_pem" ""))
      ∷ ("key_pem", Json.text (form_text form "key_pem" ""))
      ∷ ("active", Json.bool (form_checked form "active"))
      ∷ []))

-- `upload`
unfoldable pub upload : FormData → Action (Page (List TlsCertificate))
unfolding mutate load upload_request
upload form =
    mutate (Shape.message, upload_request form)
      (λ _ s. set_message "Certificate uploaded." (reset certificate_form s)) load

abbrev pub certificate_path : TlsCertificate → String
certificate_path cert = "/api/admin/tls/certificates/" <> encode_uri_component cert.id

unfoldable pub active_request : TlsCertificate → Bool → Request
active_request cert active =
    send "PATCH" (certificate_path cert) (object (("active", Json.bool active) ∷ []))

-- `setActive`
unfoldable pub set_active : TlsCertificate → Bool → Action (Page (List TlsCertificate))
unfolding mutate load active_request
set_active cert active = mutate (Shape.message, active_request cert active) (λ _ s. s) load

-- `remove`
unfoldable pub remove : TlsCertificate → Action (Page (List TlsCertificate))
unfolding mutate load
remove cert = mutate (Shape.nothing, bare "DELETE" (certificate_path cert)) (λ _ s. s) load

-- `text.slice(0, n)`, for text in the Basic Multilingual Plane
abbrev pub slice_to : ℕ → String → String
slice_to ℕ.zero s = ""
slice_to (ℕ.suc n) String.[] = ""
slice_to (ℕ.suc n) (String.◌∷◌ c s) = String.◌∷◌ c (slice_to n s)

certificate_row : TlsCertificate → List Cell
unfolding badge_of
certificate_row cert =
    text cert.id
    ∷ text cert.hostname
    ∷ badge_of (if cert.active then "active" else "inactive")
    ∷ text (
        if truthy (get_or cert.expires_at "") then slice_to 10 (get_or cert.expires_at "") else "-")
    ∷ button (if cert.active then "Deactivate" else "Activate")
    ∷ button "Delete"
    ∷ []

unfoldable pub view : Page (List TlsCertificate) → List Panel
unfolding certificate_row
view s =
    record {
      title = "Upload Certificate";
      actions = [];
      children =
          inputs ("id" ∷ "hostname" ∷ "active" ∷ "cert_pem" ∷ "key_pem" ∷ [])
          ∷ when (truthy s.message) (message_line s.message);
    }
    ∷ record {
      title = "Certificates";
      actions = "Refresh" ∷ [];
      children = guarded s.loading s.error (
          table ("ID" ∷ "Hostname" ∷ "Status" ∷ "Expires" ∷ "Actions" ∷ [])
            (rows_or "No certificates." (map certificate_row s.content)));
    }
    ∷ []
