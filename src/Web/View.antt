-- ===== src/Web/View.antt =====
-- What a page of web/src shows, without its layout: sections with blocks, and tables with cells. A
-- number that the markup inserts as it is stays a number here.
use proxer.Base.{String, Bool, List, [], ◌∷◌, ◌++◌, ◌&&◌, not, is_empty, if◌then◌else◌, truthy}
use proxer.Number.{Num}
use proxer.Web.Format.{StatusClass, status_class}

-- `series` is numbers, each with the text behind it; `badge` is the component `Badge`, with the class that it takes.
pub data Cell : Type 0 where
  text : String → Cell
  number : Num → Cell
  series : List (Num × String) → Cell
  badge : StatusClass → String → Cell
  button : String → Cell

unfoldable pub badge_of : String → Cell
unfolding status_class
badge_of value = badge (status_class value) value

pub data Block : Type 0 where
  loading_line : Block
  error_line message_line output_line : String → Block
  pairs : List (String × Cell) → Block
  table : List String → List (List Cell) → Block
  inputs : List String → Block

-- `Section`
pub record Panel : Type 0 where
  pub title : String
  pub actions : List String
  pub children : List Block

-- `xs.length === 0 ? <tr>…</tr> : xs.map(…)`
abbrev pub rows_or : String → List (List Cell) → List (List Cell)
rows_or empty rows = if is_empty rows then (text empty ∷ []) ∷ [] else rows

-- `cond ? <…> : null`
abbrev pub when : Bool → Block → List Block
when b block = if b then block ∷ [] else []

-- `loading`, `error` and what is shown where neither is the case
abbrev pub guarded : Bool → String → Block → List Block
guarded loading error block =
    when loading loading_line
    ++ when (truthy error) (error_line error)
    ++ when (not loading && not (truthy error)) block
