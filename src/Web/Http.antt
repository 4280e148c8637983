-- ===== src/Web/Http.antt =====
-- `ApiError` and `requestJSON` of web/src/App.js.
pub mod Laws
use proxer.Base.{
  ℕ, String, Bool, true, false, not, ◌&&◌, Option, none, some, nat_eq, if◌then◌else◌, ◌==◌, ◌<>◌,
  List, [], ◌∷◌,
}
use proxer.Json.{Json, null, text, obj, member}
use proxer.Effect.{Thrown, api_error, Result, ok, fail}
use proxer.Http.{Response, Fetched, rejected, response, is_ok, is_json, Headers}
use proxer.Text.{trim, show, to_lower_case}

-- `headers.has("Content-Type")`: the names of headers have no case
has_content_type : Headers → Bool
unfolding to_lower_case
has_content_type [] = false
has_content_type ((name, value) ∷ rest) =
    if to_lower_case name == "content-type" then true else has_content_type rest

-- the headers that are sent: a body that names no type is JSON
unfoldable pub request_headers : Headers → Bool → Headers
unfolding has_content_type
request_headers headers has_body =
    if has_body && not (has_content_type headers)
    then ("Content-Type", "application/json") ∷ headers
    else headers

-- the message of an error reply
unfoldable pub error_message : ℕ → Json → String
unfolding trim
error_message status (text payload) =
    if not (trim payload == "") then payload else "Request failed (" <> show status <> ")"
error_message status (obj members) = elim (member "message" members) [
  | some (text message) ↦ message
  | _ ↦ "Request failed (" <> show status <> ")"
]
error_message status payload = "Request failed (" <> show status <> ")"

-- `asJSON ? await response.json() : await response.text()`
unfoldable pub payload_of : Response → Result Json
payload_of r = if is_json r then r.json else elim r.text [ ok s ↦ ok (text s) | fail e ↦ fail e ]

settle_payload : Response → Result Json → Result Json
unfolding error_message
settle_payload r (fail e) = fail e
settle_payload r (ok payload) =
    if not (is_ok r.status)
    then fail (api_error (error_message r.status payload) r.status)
    else ok payload

unfoldable pub request_json : Fetched → Result Json
unfolding settle_payload payload_of
request_json (rejected e) = fail e
request_json (response r) = if nat_eq r.status 204 then ok null else settle_payload r (payload_of r)
