-- ===== src/Text/Uri/Laws.antt =====
-- A path segment that `encodeURIComponent` wrote: what is in it, and what it is read back as.
use Prim.Native.Nat.{compare, Ordering}
use Prim.Native.Char.{Char, char, code, IsScalar}
use Prim.Native.String.{[], ◌∷◌}
use proxer.Base.{
  ℕ, ◌/◌, ◌%◌, ◌<◌, ◌≡◌, ◌≢◌, refl, inl, inr, String, true, false, List, [], ◌∷◌, ◌++◌, arith,
  nat_eq, All, Bool-cases, ap, ◌∙◌,
}
use proxer.Text.{chr, code-chr}
use proxer.Text.Uri.{
  is_unreserved, utf8, hex, percent, encode_uri_component, unhex, percent_decode, bytes,
}

lt_of_compare : (n m : ℕ) → compare n m ≡ Ordering.lt → n < m
lt_of_compare n m h = ground arith

scalar_bound : (n : ℕ) → IsScalar n → n < 0x110000
scalar_bound n h = elim (Bool-cases (nat_eq n 0)) [ inl e ↦ ground arith | inr e ↦ ground arith ]

code_bound : (c : Char) → code c < 0x110000
code_bound (char n p) = scalar_bound n p

-- the bytes of a code point are bytes
utf8_bytes : (n : ℕ) → n < 0x110000 → All (λ b. b < 256) (utf8 n)
unfolding utf8
utf8_bytes n h = ground arith

hex_bound : (d : ℕ) → d < 16 → hex d < 0xd800
unfolding hex
hex_bound d h = ground arith

unhex-hex : (d : ℕ) → d < 16 → unhex (hex d) ≡ d
unfolding hex unhex
unhex-hex d h = ground arith

decode_plain :
    (c : Char) (s : String)
    → nat_eq (code c) 37 ≡ false
    → percent_decode (c ∷ s) ≡ code c ∷ percent_decode s
unfolding percent_decode
decode_plain c [] h = refl
decode_plain c (x ∷ []) h = refl
decode_plain c (x ∷ y ∷ s) h = rw h

decode_byte :
    (b : ℕ) (s : String)
    → b < 256
    → percent_decode (chr 37 ∷ chr (hex (b / 16)) ∷ chr (hex (b % 16)) ∷ s) ≡ b ∷ percent_decode s
unfolding percent_decode
decode_byte b s h = ground (
  arith,
  code-chr 37,
  code-chr (hex (b / 16)),
  code-chr (hex (b % 16)),
  hex_bound (b / 16),
  hex_bound (b % 16),
  unhex-hex (b / 16),
  unhex-hex (b % 16),
)

percent_decode-percent :
    (bs : List ℕ) (out : String)
    → All (λ b. b < 256) bs
    → percent_decode (percent bs out) ≡ bs ++ percent_decode out
unfolding percent
percent_decode-percent [] out h = refl
percent_decode-percent (b ∷ bs) out (p, h) =
    decode_byte b (percent bs out) p ∙ ap (λ l. b ∷ l) (percent_decode-percent bs out h)

-- an unreserved character is one byte, and is not `%`
utf8-unreserved : (n : ℕ) → is_unreserved n ≡ true → (utf8 n ≡ n ∷ []) × (nat_eq n 37 ≡ false)
unfolding is_unreserved utf8
utf8-unreserved n h = (ground arith, ground arith)

-- Percent-decoding what `encodeURIComponent` made of a text gives the UTF-8 bytes of the text,
-- whatever its characters are.
pub percent_decode-encode : (s : String) → percent_decode (encode_uri_component s) ≡ bytes s
unfolding bytes encode_uri_component
percent_decode-encode [] = unfold percent_decode in refl
percent_decode-encode (c ∷ s) = elim (Bool-cases (is_unreserved (code c))) [
  | inl e ↦
      let (one, plain) = utf8-unreserved (code c) e in
      rw (e, one)
        (decode_plain c (encode_uri_component s) plain
          ∙ ap (λ l. code c ∷ l) (percent_decode-encode s))
  | inr e ↦ rw e (
      percent_decode-percent (utf8 (code c)) (encode_uri_component s)
        (utf8_bytes (code c) (code_bound c))
      ∙ ap (λ l. utf8 (code c) ++ l) (percent_decode-encode s))
]

-- no delimiter of a path, a query or a fragment
abbrev pub Plain : ℕ → Type 0
Plain n = (n ≢ b'/') × (n ≢ b'?') × (n ≢ b'#')

abbrev pub IsSegment : String → Type 0
IsSegment [] = Unit {0}
IsSegment (c ∷ s) = Plain (code c) × IsSegment s

unreserved-Plain : (n : ℕ) → is_unreserved n ≡ true → Plain n
unfolding is_unreserved
unreserved-Plain n h = (ground arith, ground arith, ground arith)

chr-hex-Plain : (d : ℕ) → d < 16 → Plain (code (chr (hex d)))
unfolding hex
chr-hex-Plain d h = ground (arith, code-chr (hex d), hex_bound d)

percent-IsSegment :
    (bs : List ℕ) (out : String)
    → All (λ b. b < 256) bs
    → IsSegment out
    → IsSegment (percent bs out)
unfolding percent
percent-IsSegment [] out h k = k
percent-IsSegment (b ∷ bs) out (p, h) k = (
  ground (arith, code-chr 37),
  (
    chr-hex-Plain (b / 16) (omega arith),
    (chr-hex-Plain (b % 16) (omega arith), percent-IsSegment bs out h k),
  ),
)

-- No character of an encoded text is `/`, `?` or `#`, so an id stays within one path segment.
pub encode-IsSegment : (s : String) → IsSegment (encode_uri_component s)
unfolding encode_uri_component
encode-IsSegment [] = tt
encode-IsSegment (c ∷ s) = elim (Bool-cases (is_unreserved (code c))) [
  | inl e ↦ rw e (unreserved-Plain (code c) e, encode-IsSegment s)
  | inr e ↦
      rw e (percent-IsSegment (utf8 (code c)) _ (utf8_bytes _ (code_bound c)) (encode-IsSegment s))
]
