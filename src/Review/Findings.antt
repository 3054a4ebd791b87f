-- ===== src/Review/Findings.antt =====
-- internal/review/parse.go: the findings of the model's output.
pub mod Publishable
use oc_review_bot.Common.{
  ℕ, Bool, true, false, not, ◌&&◌, ◌||◌, Option, none, some, List, [], ◌∷◌, Bytes, codes, text_eq,
  is_empty, trim_space, any, leb, ltb, if◌then◌else◌,
}
use oc_review_bot.Review.Text.{normalize_path, is_safe_finding_body, normalize_markdown}

-- `Finding`
pub record Finding : Type 0 where
  pub path : Bytes
  pub line : ℕ
  pub side : Bytes
  pub severity : Bytes
  pub body : Bytes

abbrev pub left_side : Bytes
left_side = codes "LEFT"

abbrev pub right_side : Bytes
right_side = codes "RIGHT"

abbrev pub severities : List Bytes
severities = codes "critical" ∷ codes "warning" ∷ codes "info" ∷ codes "praise" ∷ []

abbrev pub is_one_of : Bytes → List Bytes → Bool
is_one_of s names = any (text_eq s) names

abbrev pub max_review_line : ℕ
max_review_line = 1000000000

abbrev pub max_finding_body_bytes : ℕ
max_finding_body_bytes = 4096

abbrev pub side_of : Bytes → Option Bytes
side_of side =
    if is_empty side
    then some right_side
    else if is_one_of side (left_side ∷ right_side ∷ [])
    then some side
    else none

abbrev pub severity_of : Bytes → Option Bytes
severity_of severity =
    if is_empty severity
    then some (codes "info")
    else if is_one_of severity severities
    then some severity
    else none

abbrev pub with_body : Finding → Option Finding
with_body f =
    if not (is_safe_finding_body f.body)
    then none
    else if is_empty (normalize_markdown f.body max_finding_body_bytes)
    then none
    else some (record f { body = normalize_markdown f.body max_finding_body_bytes })

abbrev pub is_review_line : ℕ → Bool
is_review_line line = leb 1 line && leb line max_review_line

abbrev pub with_fields :
    Finding → Bool → Option Bytes → Option Bytes → Option Bytes → Option Finding
with_fields f true (some path) (some side) (some severity) =
    with_body (record f { path = path; side = side; severity = severity })
with_fields f _ _ _ _ = none

-- strings.ToUpper and strings.ToLower
module _ (to_upper to_lower : Bytes → Bytes) where
  -- `normalizeSide`
  unfoldable pub normalize_side : Bytes → Option Bytes
  normalize_side side = side_of (to_upper (trim_space side))

  -- `normalizeSeverity`
  unfoldable pub normalize_severity : Bytes → Option Bytes
  normalize_severity severity = severity_of (to_lower (trim_space severity))

  -- `normalizeFinding`
  unfoldable pub normalize_finding : Finding → Option Finding
  unfolding normalize_path normalize_side normalize_severity is_safe_finding_body normalize_markdown
  normalize_finding f =
      with_fields f (is_review_line f.line) (normalize_path f.path) (normalize_side f.side)
        (normalize_severity f.severity)
