-- ===== src/Http.antt =====
-- What `fetch` gives to `requestJSON` of web/src/App.js and to `apiRequest` of agentweb/src/App.tsx,
-- and the tests that both make on it. The browser's network and its JSON parser are not modelled:
-- their results are the fields of a `Response`.
use text.Mathlib.Text.{starts_with}
use Prim.Native.String.{[], ◌∷◌}
use proxer.Base.{ℕ, String, Bool, ◌&&◌, ◌||◌, Option, List, leb, get_or, ◌==◌}
use mathlib.Core.List.{[], ◌∷◌}
use proxer.Effect.{Thrown, Result}
use proxer.Json.{Json}

-- `json` and `text` are what the two body readers settle with.
pub record Response : Type 0 where
  pub status : ℕ
  pub content_type : Option String
  pub json : Result Json
  pub text : Result String

-- `fetch` rejects, as when the network is down, or is fulfilled with any status.
pub data Fetched : Type 0 where
  rejected : Thrown → Fetched
  response : Response → Fetched

-- `response.ok`
abbrev pub is_ok : ℕ → Bool
is_ok status = leb 200 status && leb status 299

-- `s.includes(t)`
pub includes : String → String → Bool
includes [] t = t == ""
includes (c ∷ s) t = let later = includes s t in starts_with (c ∷ s) t || later

unfoldable pub is_json : Response → Bool
unfolding includes
is_json r = includes (get_or r.content_type "") "application/json"

-- the `headers` of a `fetch` call, by name
abbrev pub Headers : Type 0
Headers = List (String × String)
