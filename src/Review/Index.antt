-- ===== src/Review/Index.antt =====
-- internal/review/diffmap.go: DiffIndex, a list of the files by their path.
use oc_review_bot.Common.{
  ℕ, Bool, false, Option, none, some, List, [], ◌∷◌, Bytes, text_eq, is_empty, ltb, if◌then◌else◌,
}
use oc_review_bot.Review.Text.{normalize_path}
use oc_review_bot.Review.Findings.{Finding, normalize_side, left_side}
use oc_review_bot.Review.Diff.{FileLines, parse_patch, is_in}
use oc_review_bot.Review.Extract.{Library}

-- `gh.File`
pub record File : Type 0 where
  pub filename : Bytes
  pub patch : Bytes

abbrev pub DiffIndex : Type 0
DiffIndex = List (Bytes × FileLines)

abbrev no_lines : FileLines
no_lines = record { right = []; left = [] }

unfoldable pub lookup_file : Bytes → DiffIndex → Option FileLines
lookup_file path [] = none
lookup_file path ((p, lines) ∷ rest) =
    let found = lookup_file path rest in if text_eq p path then some lines else found

-- `file` and the patch that is read into it
unfoldable pub read_into : Bytes → Bytes → DiffIndex → DiffIndex
unfolding parse_patch
read_into path patch [] = (path, parse_patch patch no_lines) ∷ []
read_into path patch ((p, lines) ∷ rest) =
    let others = read_into path patch rest in
    if text_eq p path then (p, parse_patch patch lines) ∷ rest else (p, lines) ∷ others

abbrev add_file : DiffIndex → Bytes → Option Bytes → DiffIndex
add_file idx patch none = idx
add_file idx patch (some filename) = if is_empty patch then idx else read_into filename patch idx

abbrev add_files : DiffIndex → List File → DiffIndex
add_files idx [] = idx
add_files idx (f ∷ fs) = add_files (add_file idx f.patch (normalize_path f.filename)) fs

-- `NewDiffIndex`
unfoldable pub new_diff_index : List File → DiffIndex
unfolding normalize_path read_into
new_diff_index files = add_files [] files

abbrev shows : Bytes → ℕ → Option FileLines → Bool
shows side line none = false
shows side line (some lines) =
    if text_eq side left_side then is_in line lines.left else is_in line lines.right

module _ (to_upper to_lower : Bytes → Bytes) where
  -- `InDiff`
  unfoldable pub in_diff : DiffIndex → Bytes → Bytes → ℕ → Bool
  unfolding normalize_path normalize_side lookup_file
  in_diff idx path side line = if ltb line 1 then false else elim (normalize_path path) [
    | none ↦ false
    | some p ↦ elim (normalize_side to_upper to_lower side) [
      | none ↦ false
      | some s ↦ shows s line (lookup_file p idx)
    ]
  ]

-- The findings that `preparePublication` keeps
unfoldable pub kept_findings : Library → DiffIndex → List Finding → List Finding
unfolding in_diff
kept_findings lib idx [] = []
kept_findings lib idx (f ∷ fs) =
    let rest = kept_findings lib idx fs in
    if in_diff lib.to_upper lib.to_lower idx f.path f.side f.line then f ∷ rest else rest
