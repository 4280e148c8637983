-- ===== src/Agent/Http/Laws.antt =====
-- The messages of `apiRequest` are never blank.
use text.Mathlib.TextLemmas.{cons-append}
use proxer.Base.{
  String, false, ◌≡◌, refl, sym, subst, ℕ, ◌==◌, ◌<>◌, arith, Bool-cases, inl, inr, not, some,
  Option, if◌then◌else◌,
}
use proxer.Json.{Json, obj, member}
use proxer.Effect.{error, ok, fail}
use proxer.Http.{Response, response, is_ok, is_json}
use proxer.Text.{trim, show}
use proxer.Text.Trim.{trim-cons}
use proxer.Agent.Http.{api_request, error_message}

abbrev NotBlank : String → Type 0
NotBlank s = (trim s == "") ≡ false

-- the message that stands in for an error without one
fallback_shown : (status : ℕ) → NotBlank ("Request failed (" <> show status <> ")")
fallback_shown status =
    subst NotBlank (sym (cons-append "R" "equest failed (" (show status <> ")")))
      (trim-cons "R" ("equest failed (" <> show status <> ")") refl)

checked :
    (line other : String)
    → NotBlank other
    → NotBlank (if not (trim line == "") then line else other)
checked line other h = elim (Bool-cases (trim line == "")) [
  | inl blank ↦ rw blank h
  | inr shown ↦ rw shown shown
]

of_member :
    (status : ℕ) (o : Option Json)
    → NotBlank (elim o [
      | some (Json.text line) ↦
          if not (trim line == "") then line else "Request failed (" <> show status <> ")"
      | _ ↦ "Request failed (" <> show status <> ")"
    ])
of_member status (some (Json.text line)) = checked line _ (fallback_shown status)
of_member status _ = fallback_shown status

-- The message of an error reply is never blank, whatever the reply holds.
pub error_message-NotBlank :
    (status : ℕ) (payload : Json) → (trim (error_message status payload) == "") ≡ false
unfolding error_message
error_message-NotBlank status (Json.text line) = checked line _ (fallback_shown status)
error_message-NotBlank status (obj members) = of_member status (member "error" members)
error_message-NotBlank status _ = fallback_shown status

-- A reply outside 200..299 whose body can be read is thrown as an error whose message is not blank,
-- whatever the body holds.
pub api_request_refused :
    (r : Response) (payload : Json)
    → (if is_json r then r.json else elim r.text [ ok s ↦ ok (Json.text s) | fail e ↦ fail e ])
      ≡ ok payload
    → is_ok r.status ≡ false
    → (line : String) × (api_request (response r) ≡ fail (error line)) × ((trim line == "") ≡ false)
unfolding api_request
api_request_refused r payload h n =
    (error_message r.status payload, ground arith, error_message-NotBlank r.status payload)
