-- ===== src/Web/Http/Laws.antt =====
-- The message of an error reply to the web app.
use proxer.Base.{
  ℕ, String, true, false, ◌≡◌, refl, ap, ◌∙◌, some, none, List, [], ◌∷◌, ◌++◌, ◌==◌, All, arith,
}
use proxer.Json.{Json, fields, object, member}
use proxer.Effect.{api_error, ok, fail}
use proxer.Http.{Response, response, is_ok, is_json}
use proxer.Web.Http.{request_json, payload_of, error_message}

-- a member by another name
abbrev pub IsOther : String → String × Json → Type 0
IsOther name entry = (entry.0 == name) ≡ false

member-missing :
    (name : String) (back : List (String × Json))
    → All (IsOther name) back
    → member name (fields back) ≡ none
member-missing name [] h = refl
member-missing name ((key, v) ∷ back) (h, k) = rw (member-missing name back k, h) refl

member-last :
    (name : String) (v : Json) (front back : List (String × Json))
    → (name == name) ≡ true
    → All (IsOther name) back
    → member name (fields (front ++ (name, v) ∷ back)) ≡ some v
member-last name v [] back e h = rw (member-missing name back h, e) refl
member-last name v (entry ∷ front) back e h = rw (member-last name v front back e h) refl

refused :
    (r : Response) (payload : Json)
    → payload_of r ≡ ok payload
    → is_ok r.status ≡ false
    → request_json (response r) ≡ fail (api_error (error_message r.status payload) r.status)
unfolding request_json
refused r payload h k = ground arith

message_read :
    (status : ℕ) (front back : List (String × Json)) (message : String)
    → All (IsOther "message") back
    → error_message status (object (front ++ ("message", Json.text message) ∷ back)) ≡ message
unfolding error_message
message_read status front back message h =
    rw (error_message, member-last "message" (Json.text message) front back refl h) refl

-- A reply with an error status whose body is a JSON object with a text as its last member `message` is
-- thrown as an `ApiError` with that text as its message, the empty text too, and with the status.
pub request_json_message :
    (r : Response) (front back : List (String × Json)) (message : String)
    → is_json r ≡ true
    → r.json ≡ ok (object (front ++ ("message", Json.text message) ∷ back))
    → All (IsOther "message") back
    → is_ok r.status ≡ false
    → request_json (response r) ≡ fail (api_error message r.status)
unfolding payload_of
request_json_message r front back message j b h k =
    refused r (object (front ++ ("message", Json.text message) ∷ back)) (rw j b) k
    ∙ ap (λ m. fail (api_error m r.status)) (message_read r.status front back message h)
