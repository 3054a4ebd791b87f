-- ===== src/Review/Diff.antt =====
-- internal/review/diffmap.go: which lines of a file a patch shows. A line number (int64) is its value
-- modulo 2^64.
pub mod Hunks
use oc_review_bot.Common.{
  ℕ, zero, suc, ◌+◌, ◌*◌, ◌-◌, ◌%◌, ◌^◌, Bool, true, false, not, ◌&&◌, ◌||◌, Option, none, some,
  List, [], ◌∷◌, Bytes, codes, has_prefix, trim_left, is_empty, is_ascii_space, is_space_2,
  is_space_3, leb, ltb, ◌==◌, if◌then◌else◌, any,
}

-- `fileLines`; a map from line numbers to `true` is a list of them.
pub record FileLines : Type 0 where
  pub right : List ℕ
  pub left : List ℕ

abbrev pub is_in : ℕ → List ℕ → Bool
is_in n = any (λ m. m == n)

abbrev push_byte : ℕ → List Bytes → List Bytes
push_byte b [] = (b ∷ []) ∷ []
push_byte b (line ∷ lines) = (b ∷ line) ∷ lines

-- strings.Split(s, "\n")
unfoldable pub split_lines : Bytes → List Bytes
split_lines [] = [] ∷ []
split_lines (b ∷ s) = let rest = split_lines s in if b == 10 then [] ∷ rest else push_byte b rest

-- The text after the first "@@", and the text before it.
unfoldable pub after_mark : Bytes → Option Bytes
after_mark [] = none
after_mark (a ∷ []) = none
after_mark (a ∷ b ∷ s) =
    let rest = after_mark (b ∷ s) in if a == 64 && b == 64 then some s else rest

unfoldable pub before_mark : Bytes → Bytes
before_mark [] = []
before_mark (a ∷ []) = a ∷ []
before_mark (a ∷ b ∷ s) =
    let rest = before_mark (b ∷ s) in if a == 64 && b == 64 then [] else a ∷ rest

abbrev starts_space : Bytes → Bool
starts_space [] = false
starts_space (a ∷ []) = is_ascii_space a
starts_space (a ∷ b ∷ []) = is_ascii_space a || is_space_2 a b
starts_space (a ∷ b ∷ c ∷ s) = is_ascii_space a || is_space_2 a b || is_space_3 a b c

-- The first field of a text that does not start with white space, and what is behind it.
unfoldable pub field : Bytes → Bytes
field [] = []
field (a ∷ s) = let rest = field s in if starts_space (a ∷ s) then [] else a ∷ rest

unfoldable pub behind_field : Bytes → Bytes
behind_field [] = []
behind_field (a ∷ s) = let rest = behind_field s in if starts_space (a ∷ s) then a ∷ s else rest

-- strings.TrimLeft(s, "-+")
unfoldable pub trim_signs : Bytes → Bytes
trim_signs [] = []
trim_signs (a ∷ s) = let rest = trim_signs s in if a == 43 || a == 45 then rest else a ∷ s

-- What strings.Cut(s, ",") has before the comma, and `s` where it has none
unfoldable pub before_comma : Bytes → Bytes
before_comma [] = []
before_comma (a ∷ s) = let rest = before_comma s in if a == 44 then [] else a ∷ rest

unfoldable pub decimal : ℕ → Bytes → Option ℕ
decimal n [] = some n
decimal n (d ∷ s) =
    let rest = decimal (10 * n + (d - 48)) s in if leb 48 d && leb d 57 then rest else none

-- strconv.ParseInt(s, 10, 64) of a text without a sign
unfoldable pub parse_int : Bytes → Option ℕ
unfolding decimal
parse_int [] = none
parse_int (d ∷ s) = elim (decimal 0 (d ∷ s)) [
  | none ↦ none
  | some n ↦ if ltb n (2 ^ 63) then some n else none
]

-- `parseHunkSide`; the parsed number is never negative, for its text has no sign.
unfoldable pub parse_hunk_side : Bytes → Option ℕ
unfolding trim_signs before_comma parse_int
parse_hunk_side s = parse_int (before_comma (trim_signs s))

abbrev both : Option ℕ → Option ℕ → Option (ℕ × ℕ)
both none _ = none
both (some old) none = none
both (some old) (some new) = some (old, new)

abbrev parse_fields : Bytes → Option (ℕ × ℕ)
parse_fields part =
    let rest = trim_left (behind_field (trim_left part)) in
    if is_empty (field rest)
    then none
    else both (parse_hunk_side (field (trim_left part))) (parse_hunk_side (field rest))

-- `parseHunk`
unfoldable pub parse_hunk : Bytes → Option (ℕ × ℕ)
unfolding after_mark before_mark field behind_field parse_hunk_side
parse_hunk header = elim (after_mark header) [
  | none ↦ none
  | some rest ↦ parse_fields (before_mark rest)
]

-- The variables of the loop of `parsePatch`.
pub record Walk : Type 0 where
  pub old_line : ℕ
  pub new_line : ℕ
  pub in_hunk : Bool
  pub file : FileLines

-- n++
abbrev pub next_line : ℕ → ℕ
next_line n = (n + 1) % 2 ^ 64

abbrev start_hunk : Walk → Option (ℕ × ℕ) → Walk
start_hunk w none = record w { in_hunk = false }
start_hunk w (some (old, new)) = record w { old_line = old; new_line = new; in_hunk = true }

abbrev pub is_header : Bytes → Bool
is_header line = has_prefix line (64 ∷ 64 ∷ [])

abbrev pub is_marker : Bytes → Bool
is_marker line = has_prefix line (92 ∷ [])

abbrev pub is_added : Bytes → Bool
is_added line = has_prefix line (43 ∷ [])

abbrev pub is_removed : Bytes → Bool
is_removed line = has_prefix line (45 ∷ [])

abbrev add_line : Walk → Walk
add_line w = record w {
  file = record (w.file) { right = w.new_line ∷ w.file.right };
  new_line = next_line w.new_line;
}

abbrev remove_line : Walk → Walk
remove_line w = record w {
  file = record (w.file) { left = w.old_line ∷ w.file.left };
  old_line = next_line w.old_line;
}

-- One line of the loop of `parsePatch`.
unfoldable pub read_line : Walk → Bytes → Walk
read_line w line =
    if is_header line
    then start_hunk w (parse_hunk line)
    else if not w.in_hunk || is_marker line
    then w
    else if is_added line
    then add_line w
    else if is_removed line
    then remove_line w
    else remove_line (add_line w)

unfoldable pub read_lines : Walk → List Bytes → Walk
read_lines w [] = w
read_lines w (line ∷ lines) = read_lines (read_line w line) lines

unfoldable pub parse_patch : Bytes → FileLines → FileLines
unfolding split_lines read_lines
parse_patch patch file =
    (read_lines (record { old_line = 0; new_line = 0; in_hunk = false; file = file })
      (split_lines patch)).file
