-- ===== src/Review/Utf8.antt =====
-- internal/review/parse.go: cutting texts of bytes to a length without splitting a rune. A
-- `maxBytes` of 0 or less is 0.
pub mod Cutting
pub mod Validity
use oc_review_bot.Common.{
  ℕ, zero, suc, ◌-◌, Bool, true, false, ◌||◌, Option, none, some, List, [], ◌∷◌, ◌++◌, Bytes, leb,
  ltb, ◌==◌, if◌then◌else◌, length, take, drop, get_elem?,
}

-- utf8.RuneStart: b&0xC0 != 0x80
abbrev pub is_rune_start : ℕ → Bool
is_rune_start b = ltb b 0x80 || leb 0xC0 b

-- "…"
abbrev pub truncation_marker : Bytes
truncation_marker = 0xE2 ∷ 0x80 ∷ 0xA6 ∷ []

-- The negation of `end < len(value) && !utf8.RuneStart(value[end])`
abbrev pub starts_rune : Option ℕ → Bool
starts_rune none = true
starts_rune (some b) = is_rune_start b

-- The loop of `cutUTF8`, which lowers `end` to the start of a rune.
unfoldable pub cut_end : Bytes → ℕ → ℕ
cut_end value zero = zero
cut_end value (suc n) =
    let rest = cut_end value n in if starts_rune (get_elem? value (suc n)) then suc n else rest

unfoldable pub cut_utf8 : Bytes → ℕ → Bytes
unfolding cut_end
cut_utf8 value max_bytes =
    if max_bytes == 0
    then []
    else if leb (length value) max_bytes
    then value
    else take (cut_end value max_bytes) value

-- `prefixUTF8`
abbrev pub prefix_utf8 : Bytes → ℕ → Bytes
prefix_utf8 = cut_utf8

-- The loop of `tailUTF8`, which raises `start` over the bytes that continue a rune.
unfoldable pub skip_continuation : Bytes → Bytes
skip_continuation [] = []
skip_continuation (b ∷ s) =
    let rest = skip_continuation s in if is_rune_start b then b ∷ s else rest

unfoldable pub tail_utf8 : Bytes → ℕ → Bytes
unfolding skip_continuation
tail_utf8 value max_bytes =
    if max_bytes == 0
    then []
    else if leb (length value) max_bytes
    then value
    else skip_continuation (drop (length value - max_bytes) value)

unfoldable pub truncate_utf8 : Bytes → ℕ → Bytes
unfolding cut_utf8
truncate_utf8 value max_bytes =
    if max_bytes == 0
    then []
    else if leb (length value) max_bytes
    then value
    else if leb max_bytes (length truncation_marker)
    then cut_utf8 value max_bytes
    else cut_utf8 value (max_bytes - length truncation_marker) ++ truncation_marker
