-- ===== src/Review/Text.antt =====
-- internal/review/parse.go: the texts of the model's output. unicode.IsControl accepts the runes below
-- 0x20, and 0x7F to 0x9F.
use oc_review_bot.Common.{
  ℕ, zero, suc, Bool, true, false, not, ◌&&◌, ◌||◌, Option, none, some, List, [], ◌∷◌, ◌++◌, Bytes,
  codes, text_eq, is_empty, has_prefix, trim_space, any, leb, ltb, ◌==◌, if◌then◌else◌, length,
  split_on,
}
use oc_review_bot.Review.Utf8.{truncate_utf8, is_rune_start}

abbrev continues : ℕ → Bool
continues b = not (is_rune_start b)

abbrev second_fits : ℕ → ℕ → Bool
second_fits a b =
    (not (a == 0xE0) || leb 0xA0 b)
    && (not (a == 0xED) || leb b 0x9F)
    && ((not (a == 0xF0) || leb 0x90 b) && (not (a == 0xF4) || leb b 0x8F))

abbrev size_of_4 : ℕ → ℕ → ℕ → ℕ → ℕ
size_of_4 a b c d =
    if leb 0xF0 a && leb a 0xF4 && continues b && continues c && continues d && second_fits a b
    then 4
    else 0

abbrev size_of_3 : ℕ → ℕ → ℕ → ℕ → ℕ
size_of_3 a b c otherwise =
    if leb 0xE0 a && leb a 0xEF && continues b && continues c && second_fits a b
    then 3
    else otherwise

abbrev size_of_2 : ℕ → ℕ → ℕ → ℕ
size_of_2 a b otherwise = if leb 0xC2 a && leb a 0xDF && continues b then 2 else otherwise

abbrev size_of_1 : ℕ → ℕ → ℕ
size_of_1 a otherwise = if ltb a 0x80 then 1 else otherwise

-- The bytes of the rune that the text starts with, and 0 if that is not valid UTF-8
unfoldable pub rune_size : Bytes → ℕ
rune_size [] = 0
rune_size (a ∷ []) = size_of_1 a 0
rune_size (a ∷ b ∷ []) = size_of_1 a (size_of_2 a b 0)
rune_size (a ∷ b ∷ c ∷ []) = size_of_1 a (size_of_2 a b (size_of_3 a b c 0))
rune_size (a ∷ b ∷ c ∷ d ∷ s) = size_of_1 a (size_of_2 a b (size_of_3 a b c (size_of_4 a b c d)))

-- utf8.ValidString behind the next `n` bytes
unfoldable pub is_valid_from : ℕ → Bytes → Bool
unfolding rune_size
is_valid_from n [] = n == 0
is_valid_from (suc n) (b ∷ s) = is_valid_from n s
is_valid_from zero (b ∷ s) = elim (rune_size (b ∷ s)) [ zero ↦ false | suc n ↦ is_valid_from n s ]

unfoldable pub is_valid_utf8 : Bytes → Bool
unfolding is_valid_from
is_valid_utf8 s = is_valid_from 0 s

abbrev replacement : Bytes
replacement = 0xEF ∷ 0xBF ∷ 0xBD ∷ []

-- strings.ToValidUTF8(s, "\uFFFD"): a run of invalid bytes becomes one replacement.
unfoldable pub to_valid_from : ℕ → Bool → Bytes → Bytes
unfolding rune_size
to_valid_from n in_run [] = []
to_valid_from (suc n) in_run (b ∷ s) = b ∷ to_valid_from n false s
to_valid_from zero in_run (b ∷ s) = elim (rune_size (b ∷ s)) [
  | zero ↦ if in_run then to_valid_from 0 true s else replacement ++ to_valid_from 0 true s
  | suc n ↦ b ∷ to_valid_from n false s
]

abbrev is_control_byte : ℕ → Bool
is_control_byte b = ltb b 32 || b == 127

abbrev is_control_pair : ℕ → Bytes → Bool
is_control_pair a [] = false
is_control_pair a (b ∷ s) = a == 0xC2 && leb b 0x9F

-- Whether the text has a control rune that is not allowed
unfoldable pub has_control : (ℕ → Bool) → Bytes → Bool
has_control allowed [] = false
has_control allowed (b ∷ s) =
    is_control_byte b && not (allowed b) || is_control_pair b s || has_control allowed s

abbrev pub is_line_byte : ℕ → Bool
is_line_byte b = b == 10 || b == 13 || b == 9

-- The strings.Map of `normalizeMarkdown`; `skip` says that the next byte ends a control rune.
unfoldable pub drop_controls : Bool → Bytes → Bytes
drop_controls skip [] = []
drop_controls true (b ∷ s) = drop_controls false s
drop_controls false (b ∷ s) =
    let skips = is_control_pair b s in
    let rest = drop_controls skips s in
    if b == 10 || b == 9
    then b ∷ rest
    else if b == 13
    then 10 ∷ rest
    else if is_control_byte b || skips
    then rest
    else b ∷ rest

-- `normalizeMarkdown`
unfoldable pub normalize_markdown : Bytes → ℕ → Bytes
unfolding to_valid_from drop_controls
normalize_markdown value max_bytes =
    truncate_utf8 (trim_space (drop_controls false (to_valid_from 0 false value))) max_bytes

-- `isSafeFindingBody`
unfoldable pub is_safe_finding_body : Bytes → Bool
unfolding is_valid_utf8 has_control
is_safe_finding_body value = is_valid_utf8 value && not (has_control is_line_byte value)

abbrev pub dot : Bytes
dot = codes "."

abbrev pub dots : Bytes
dots = codes ".."

abbrev pop : List Bytes → Bytes → List Bytes
pop [] segment = segment ∷ []
pop (top ∷ rest) segment = if text_eq top dots then segment ∷ top ∷ rest else rest

abbrev walk : List Bytes → Bytes → List Bytes
walk out segment =
    if is_empty segment || text_eq segment dot
    then out
    else if text_eq segment dots
    then pop out segment
    else segment ∷ out

-- The segments of path.Clean of a relative path, the last one first
unfoldable pub clean_segments : List Bytes → List Bytes → List Bytes
clean_segments out [] = out
clean_segments out (segment ∷ rest) = clean_segments (walk out segment) rest

unfoldable pub join_backwards : List Bytes → Bytes → Bytes
join_backwards [] tail = tail
join_backwards (segment ∷ []) tail = segment ++ tail
join_backwards (segment ∷ s ∷ rest) tail = join_backwards (s ∷ rest) (47 ∷ segment ++ tail)

-- path.Clean of a path that is not empty and not rooted
unfoldable pub clean : Bytes → Bytes
unfolding clean_segments join_backwards split_on
clean path =
    let cleaned = clean_segments [] (split_on 47 path) in
    elim cleaned [ [] ↦ dot | segment ∷ rest ↦ join_backwards (segment ∷ rest) [] ]

abbrev pub is_dot_segment : Bytes → Bool
is_dot_segment segment = text_eq segment dot || text_eq segment dots

abbrev pub no_control_allowed : ℕ → Bool
no_control_allowed b = false

abbrev pub max_finding_path_bytes : ℕ
max_finding_path_bytes = 4096

-- `normalizePath`
unfoldable pub normalize_path : Bytes → Option Bytes
unfolding is_valid_utf8 clean has_control split_on
normalize_path value =
    if is_empty value
      || ltb max_finding_path_bytes (length value)
      || not (is_valid_utf8 value)
      || is_empty (trim_space value)
    then none
    else if has_prefix value (47 ∷ []) || text_eq value dot || not (text_eq (clean value) value)
    then none
    else if any is_dot_segment (split_on 47 value)
    then none
    else if has_control no_control_allowed value
    then none
    else some value
