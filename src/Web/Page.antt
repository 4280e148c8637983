-- ===== src/Web/Page.antt =====
-- What the pages of web/src/workspace/WorkspaceApp.js have in common: `loading`, `error` and
-- `message`, the values of the page's form, and the shape of their handlers. `content` is what else
-- the page keeps in state. A page without a message or a form leaves those fields alone.
pub mod Laws
pub mod Settled
pub mod Sync
use proxer.Base.{
  String, Bool, true, false, Option, none, some, List, [], ◌∷◌, get_or, if◌then◌else◌, ◌==◌,
}
use proxer.Json
use proxer.Number.Parse.{to_number}
use proxer.Effect.{Ask, Replies, ◌>>=◌, ◌>>◌, try_catch, finally, modify, all}
use proxer.Web.Types.{Shape, Of, Action}
use proxer.Web.Format.{to_error_message}

-- the values of a form by the names of its inputs; an unchecked box and a disabled input have none
abbrev pub FormData : Type 0
FormData = List (String × String)

abbrev pub form_get : String → FormData → Option String
form_get key [] = none
form_get key ((name, value) ∷ rest) = if name == key then some value else form_get key rest

-- `String(formData.get(key) ?? fallback)`
abbrev pub form_text : FormData → String → String → String
form_text form key fallback = get_or (form_get key form) fallback

-- `Number(formData.get(key) ?? 0)`
abbrev pub form_number : FormData → String → Json.Json
form_number form key = Json.num (to_number (get_or (form_get key form) "0"))

-- `formData.get(key) === "on"`
abbrev pub form_checked : FormData → String → Bool
form_checked form key = elim (form_get key form) [ none ↦ false | some value ↦ value == "on" ]

pub record Page (D : Type 0) : Type 0 where
  pub loading : Bool
  pub error : String
  pub message : String
  pub form : FormData
  pub content : D

-- the first render of a page
abbrev pub fresh : {D : Type 0} → FormData → D → Page D
fresh defaults d = record { loading = true; error = ""; message = ""; form = defaults; content = d }

abbrev pub set_error : {D : Type 0} → String → Page D → Page D
set_error line s = record s { error = line }

abbrev pub set_message : {D : Type 0} → String → Page D → Page D
set_message line s = record s { message = line }

-- `form.reset()`: the inputs go back to their default values
abbrev pub reset : {D : Type 0} → FormData → Page D → Page D
reset defaults s = record s { form = defaults }

module _ {D : Type 0} where
  -- `load`: fetches, stores, and reports an error in its place
  unfoldable pub load_page :
      (asks : List (Ask Shape)) → (Replies Shape Of asks → D → D) → Action (Page D)
  unfolding to_error_message
  load_page asks store =
      modify (λ s. record s { loading = true; error = "" })
      >> finally
          (try_catch (do x ← all asks; modify (λ s. record s { content = store x s.content }))
            (λ e. modify (set_error (to_error_message e))))
          (λ s. record s { loading = false })

  -- A handler that clears the message, sends one request, and goes on with `after` if it succeeds;
  -- its error becomes the message.
  unfoldable pub mutate :
      (ask : Ask Shape) → (Of ask.0 → Page D → Page D) → Action (Page D) → Action (Page D)
  unfolding to_error_message
  mutate ask store after =
      modify (set_message "")
      >> try_catch (do (x, _) ← all (ask ∷ []); modify (store x); after)
          (λ e. modify (set_message (to_error_message e)))
