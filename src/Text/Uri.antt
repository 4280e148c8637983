-- ===== src/Text/Uri.antt =====
-- `encodeURIComponent`, with which the handlers of web/src/workspace and agentweb/src put ids into
-- the paths of their requests, and percent-decoding, by which a server reads them back.
pub mod Laws
use Prim.Native.Char.{Char, code}
use Prim.Native.String.{[], ◌∷◌}
use proxer.Base.{
  ◌≡◌, refl, ℕ, ◌+◌, ◌-◌, ◌*◌, ◌/◌, ◌%◌, String, Bool, ◌&&◌, ◌||◌, List, [], ◌∷◌, ◌++◌, leb, ltb,
  nat_eq, if◌then◌else◌,
}
use proxer.Text.{chr}

-- the characters that `encodeURIComponent` keeps: A-Z a-z 0-9 - _ . ! ~ * ' ( )
unfoldable pub is_unreserved : ℕ → Bool
is_unreserved n =
    (leb b'A' n && leb n b'Z')
    || (leb b'a' n && leb n b'z')
    || (leb b'0' n && leb n b'9')
    || nat_eq n 45
    || nat_eq n 95
    || nat_eq n 46
    || nat_eq n 33
    || nat_eq n 126
    || (leb 39 n && leb n 42)

-- the UTF-8 bytes of a code point
unfoldable pub utf8 : ℕ → List ℕ
utf8 n =
    if ltb n 0x80
    then n ∷ []
    else if ltb n 0x800
    then (192 + n / 64) ∷ (128 + n % 64) ∷ []
    else if ltb n 0x10000
    then (224 + n / 4096) ∷ (128 + n / 64 % 64) ∷ (128 + n % 64) ∷ []
    else (240 + n / 262144) ∷ (128 + n / 4096 % 64) ∷ (128 + n / 64 % 64) ∷ (128 + n % 64) ∷ []

-- an upper-case hexadecimal digit
hex : ℕ → ℕ
hex d = if ltb d 10 then 48 + d else 55 + d

-- `%XY` for each byte, in front of a text
percent : List ℕ → String → String
unfolding chr hex
percent [] out = out
percent (b ∷ bs) out = chr 37 ∷ chr (hex (b / 16)) ∷ chr (hex (b % 16)) ∷ percent bs out

unfoldable pub encode_uri_component : String → String
unfolding percent is_unreserved utf8
encode_uri_component [] = []
encode_uri_component (c ∷ s) =
    let rest = encode_uri_component s in
    if is_unreserved (code c) then c ∷ rest else percent (utf8 (code c)) rest

-- the value of a hexadecimal digit
unhex : ℕ → ℕ
unhex n = if leb 97 n then n - 87 else if leb 65 n then n - 55 else n - 48

-- The bytes that a percent-encoded text stands for.
pub percent_decode : String → List ℕ
unfolding unhex
percent_decode (c ∷ x ∷ y ∷ s) =
    let coded : List ℕ = (unhex (code x) * 16 + unhex (code y)) ∷ percent_decode s in
    let plain : List ℕ = code c ∷ percent_decode (x ∷ y ∷ s) in
    if nat_eq (code c) 37 then coded else plain
percent_decode (c ∷ x ∷ []) = code c ∷ code x ∷ []
percent_decode (c ∷ []) = code c ∷ []
percent_decode [] = []

-- the UTF-8 bytes of a text
pub bytes : String → List ℕ
unfolding utf8
bytes [] = []
bytes (c ∷ s) = utf8 (code c) ++ bytes s

uri_test : encode_uri_component "a b/é?" ≡ "a%20b%2F%C3%A9%3F"
unfolding encode_uri_component
uri_test = refl
