-- ===== src/Common/Text.antt =====
-- Go strings as lists of bytes, with the operations of package strings that the source uses.
use Prim.Native.Nat.{ℕ, ◌+◌}
use Prim.Native.Char.{code}
use Prim.Native.String.{String}
use mathlib.Core.Path.{◌≡◌, refl}
use mathlib.Core.List.{List, [], ◌∷◌, map, reverse}
use mathlib.Core.Bool.{Bool, true, false, ◌&&◌, ◌||◌}
use native.Mathlib.Omega.{arith}
use oc_review_bot.Common.Tests.{leb, ◌==◌, if◌then◌else◌}

abbrev pub Bytes : Type 0
Bytes = List ℕ

-- The code points of a text: its bytes, if it is ASCII.
abbrev pub codes : String → Bytes
codes String.[] = []
codes (String.◌∷◌ c s) = code c ∷ codes s

-- The comparison `s == t` of Go strings.
unfoldable pub text_eq : Bytes → Bytes → Bool
text_eq [] [] = true
text_eq [] (b ∷ t) = false
text_eq (a ∷ s) [] = false
text_eq (a ∷ s) (b ∷ t) = a == b && text_eq s t

pub text_eq_refl : (s : Bytes) → text_eq s s ≡ true
unfolding text_eq
text_eq_refl [] = refl
text_eq_refl (a ∷ s) = ground (arith, text_eq_refl s)

pub text_eq_sound : (s t : Bytes) → text_eq s t ≡ true → s ≡ t
unfolding text_eq
text_eq_sound [] [] h = refl
text_eq_sound [] (b ∷ t) h = ground arith
text_eq_sound (a ∷ s) [] h = ground arith
text_eq_sound (a ∷ s) (b ∷ t) h = ground (arith, text_eq_sound s t)

unfoldable pub is_empty : Bytes → Bool
is_empty [] = true
is_empty (b ∷ s) = false

-- strings.HasPrefix
unfoldable pub has_prefix : Bytes → Bytes → Bool
has_prefix s [] = true
has_prefix [] (p ∷ ps) = false
has_prefix (b ∷ s) (p ∷ ps) = b == p && has_prefix s ps

-- The bytes that unicode.IsSpace accepts below 0x80.
abbrev pub is_ascii_space : ℕ → Bool
is_ascii_space b = b == 32 || leb 9 b && leb b 13

-- The white space of two bytes: U+0085 and U+00A0.
abbrev pub is_space_2 : ℕ → ℕ → Bool
is_space_2 a b = a == 0xC2 && (b == 0x85 || b == 0xA0)

-- The white space of three bytes: U+1680, U+2000 to U+200A, U+2028, U+2029, U+202F, U+205F, U+3000.
abbrev pub is_space_3 : ℕ → ℕ → ℕ → Bool
is_space_3 a b c =
    a == 0xE1 && (b == 0x9A && c == 0x80)
    || a == 0xE2
      && (b == 0x80 && (leb 0x80 c && leb c 0x8A || c == 0xA8 || c == 0xA9 || c == 0xAF)
          || b == 0x81 && c == 0x9F)
    || a == 0xE3 && (b == 0x80 && c == 0x80)

-- strings.TrimLeftFunc(s, unicode.IsSpace)
unfoldable pub trim_left : Bytes → Bytes
trim_left [] = []
trim_left (a ∷ []) = if is_ascii_space a then [] else a ∷ []
trim_left (a ∷ b ∷ []) =
    let rest1 = trim_left (b ∷ []) in
    if is_ascii_space a then rest1 else if is_space_2 a b then [] else a ∷ b ∷ []
trim_left (a ∷ b ∷ c ∷ s) =
    let rest1 = trim_left (b ∷ c ∷ s) in
    let rest2 = trim_left (c ∷ s) in
    let rest3 = trim_left s in
    if is_ascii_space a
    then rest1
    else if is_space_2 a b
    then rest2
    else if is_space_3 a b c
    then rest3
    else a ∷ b ∷ c ∷ s

-- The same from the right, over the reversed text: each encoding stands backwards.
unfoldable pub trim_left_backwards : Bytes → Bytes
trim_left_backwards [] = []
trim_left_backwards (a ∷ []) = if is_ascii_space a then [] else a ∷ []
trim_left_backwards (a ∷ b ∷ []) =
    let rest1 = trim_left_backwards (b ∷ []) in
    if is_ascii_space a then rest1 else if is_space_2 b a then [] else a ∷ b ∷ []
trim_left_backwards (a ∷ b ∷ c ∷ s) =
    let rest1 = trim_left_backwards (b ∷ c ∷ s) in
    let rest2 = trim_left_backwards (c ∷ s) in
    let rest3 = trim_left_backwards s in
    if is_ascii_space a
    then rest1
    else if is_space_2 b a
    then rest2
    else if is_space_3 c b a
    then rest3
    else a ∷ b ∷ c ∷ s

unfoldable pub trim_right : Bytes → Bytes
unfolding trim_left_backwards
trim_right s = reverse (trim_left_backwards (reverse s))

-- strings.TrimSpace
unfoldable pub trim_space : Bytes → Bytes
unfolding trim_left trim_right
trim_space s = trim_right (trim_left s)

-- strings.ToLower and strings.ToUpper on ASCII text
abbrev pub lower_byte : ℕ → ℕ
lower_byte b = if leb 65 b && leb b 90 then b + 32 else b

unfoldable pub to_lower : Bytes → Bytes
to_lower s = map lower_byte s

trim_space_test :
    trim_space (32 ∷ 0xE2 ∷ 0x80 ∷ 0xA8 ∷ 97 ∷ 32 ∷ 98 ∷ 0xC2 ∷ 0xA0 ∷ 10 ∷ []) ≡ codes "a b"
unfolding trim_space
trim_space_test = refl

abbrev add_to_first : ℕ → List Bytes → List Bytes
add_to_first c [] = (c ∷ []) ∷ []
add_to_first c (s ∷ rest) = (c ∷ s) ∷ rest

-- strings.Split at one byte
unfoldable pub split_on : ℕ → Bytes → List Bytes
split_on separator [] = [] ∷ []
split_on separator (c ∷ s) =
    let rest = split_on separator s in if c == separator then [] ∷ rest else add_to_first c rest
