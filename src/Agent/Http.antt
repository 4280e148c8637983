-- ===== src/Agent/Http.antt =====
-- `apiRequest` of agentweb/src/App.tsx.
pub mod Laws
use proxer.Base.{
  String, Bool, true, false, not, ◌&&◌, Option, none, some, ℕ, if◌then◌else◌, ◌==◌, ◌<>◌,
}
use proxer.Json.{Json, text, obj, member}
use proxer.Effect.{Thrown, error, Result, ok, fail}
use proxer.Http.{Response, Fetched, rejected, response, is_ok, is_json}
use proxer.Text.{trim, show}

-- the message of an error reply: a text, or the text `error` of an object, if it is not blank
pub error_message : ℕ → Json → String
unfolding trim
error_message status (text payload) =
    if not (trim payload == "") then payload else "Request failed (" <> show status <> ")"
error_message status (obj members) = elim (member "error" members) [
  | some (text line) ↦
      if not (trim line == "") then line else "Request failed (" <> show status <> ")"
  | _ ↦ "Request failed (" <> show status <> ")"
]
error_message status payload = "Request failed (" <> show status <> ")"

settle_payload : Response → Result Json → Result Json
unfolding error_message
settle_payload r (fail e) = fail e
settle_payload r (ok payload) =
    if not (is_ok r.status) then fail (error (error_message r.status payload)) else ok payload

unfoldable pub api_request : Fetched → Result Json
unfolding settle_payload
api_request (rejected e) = fail e
api_request (response r) =
    settle_payload r
      (if is_json r then r.json else elim r.text [ ok s ↦ ok (text s) | fail e ↦ fail e ])
