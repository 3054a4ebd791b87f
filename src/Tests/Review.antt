-- ===== src/Tests/Review.antt =====
-- internal/review: texts that are cut, and a patch.
use oc_review_bot.Review.Extract.{Library, extract_review}
use oc_review_bot.Review.Extract.Limits.{IsBounded, extract_review-IsBounded}
use oc_review_bot.Common.{
  ℕ, some, to_lower, text_eq, ◌≡◌, ◌≤◌, ◌++◌, ◌||◌, refl, false, List, [], ◌∷◌, Bytes, codes, arith,
  length, has_prefix, trim_left, is_empty,
}
use oc_review_bot.Review.Utf8.{cut_utf8, tail_utf8, truncate_utf8, cut_end, skip_continuation}
use oc_review_bot.Review.Utf8.Cutting.{cut_is_longest, all_cuts_fit}
use oc_review_bot.Review.Utf8.Validity.{IsUtf8, ended, one, two, cuts-IsUtf8}
use oc_review_bot.Review.Diff.{
  Walk, is_in, split_lines, after_mark, before_mark, field, behind_field, trim_signs, before_comma,
  decimal, parse_int, parse_hunk_side, parse_hunk, read_line, read_lines, parse_patch,
}
use oc_review_bot.Review.Diff.Hunks.{is_between, new_count, old_count, hunk_shows_its_lines}

-- "aéb"
abbrev text : Bytes
text = 97 ∷ 0xC3 ∷ 0xA9 ∷ 98 ∷ []

-- A cut in the middle of the second rune takes it away.
cut_test : cut_utf8 text 2 ≡ 97 ∷ []
unfolding cut_utf8 cut_end
cut_test = refl

tail_test : tail_utf8 text 2 ≡ 98 ∷ []
unfolding tail_utf8 skip_continuation
tail_test = refl

cut_is_longest_example : 1 ≤ length (cut_utf8 text 2)
cut_is_longest_example = cut_is_longest text 2 1 (omega arith) (omega arith) refl

all_cuts_fit_example :
    (length (cut_utf8 text 2) ≤ 2)
    × (length (truncate_utf8 text 2) ≤ 2)
    × (length (tail_utf8 text 2) ≤ 2)
all_cuts_fit_example = all_cuts_fit text 2

cuts-IsUtf8_example :
    IsUtf8 (cut_utf8 text 2) × IsUtf8 (truncate_utf8 text 2) × IsUtf8 (tail_utf8 text 2)
cuts-IsUtf8_example = cuts-IsUtf8 text 2 (one 97 refl (two 0xC3 0xA9 refl (one 98 refl ended)))

abbrev header : Bytes
header = codes "@@ -12,2 +13,3 @@ func f()"

abbrev body : List Bytes
body = codes " a" ∷ codes "-b" ∷ codes "+c" ∷ codes "+d" ∷ codes "\\ No newline" ∷ []

abbrev newline : Bytes
newline = 10 ∷ []

-- The whole patch shows the lines 13 to 15 of the new file, and 12 and 13 of the old one.
patch_test :
    parse_patch
      (codes "--- a"
        ++ newline
        ++ header
        ++ newline
        ++ codes " a"
        ++ newline
        ++ codes "-b"
        ++ newline
        ++ codes "+c"
        ++ newline
        ++ codes "+d"
        ++ newline
        ++ codes "\\ No newline")
      (record { right = []; left = [] })
    ≡ record { right = 15 ∷ 14 ∷ 13 ∷ []; left = 13 ∷ 12 ∷ [] }
unfolding split_lines after_mark before_mark field behind_field trim_signs before_comma decimal
    parse_int parse_hunk_side parse_hunk read_line read_lines parse_patch has_prefix trim_left
    is_empty
patch_test = refl

abbrev start : Walk
start = record {
  old_line = 0;
  new_line = 0;
  in_hunk = false;
  file = record { right = []; left = [] };
}

hunk_shows_its_lines_example :
    (is_in 14 (read_lines start (header ∷ body)).file.right
      ≡ (is_in 14 [] || is_between 14 13 (new_count body)))
    × (is_in 14 (read_lines start (header ∷ body)).file.left
        ≡ (is_in 14 [] || is_between 14 12 (old_count body)))
unfolding after_mark before_mark field behind_field trim_signs before_comma decimal parse_int
    parse_hunk_side parse_hunk has_prefix trim_left is_empty new_count old_count
hunk_shows_its_lines_example =
    hunk_shows_its_lines 14 start header body 12 13 refl refl
      (refl, (refl, (refl, (refl, (refl, tt))))) (omega arith) (omega arith)

abbrev answer : Bytes
answer = codes "Done." ++ (10 ∷ codes "```json" ++ (10 ∷ codes "{}" ++ (10 ∷ codes "```")))

-- A decoder that gives one finding for every block
abbrev decoder : Library
decoder = record {
  to_upper = λ s. s;
  to_lower = to_lower;
  equal_fold = text_eq;
  unmarshal_review =
      λ s. some (record { summary = codes "ok"; sequence_diagram = []; findings = s });
  unmarshal_string = λ s. some s;
  unmarshal_array = λ s. some (s ∷ []);
  unmarshal_object = λ s.
      some (
        (codes "path", codes "a/b.go")
        ∷ (codes "line", codes "3")
        ∷ (codes "body", codes "x")
        ∷ []);
  unmarshal_int64 = λ s. some 3;
}

extract_review-IsBounded_example : IsBounded (extract_review decoder answer)
extract_review-IsBounded_example = extract_review-IsBounded decoder answer

abbrev found : ℕ
found = length (extract_review decoder answer).findings
