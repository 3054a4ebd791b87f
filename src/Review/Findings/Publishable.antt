-- ===== src/Review/Findings/Publishable.antt =====
-- internal/review/parse.go: what holds of every finding that is accepted.
use oc_review_bot.Common.{
  ℕ, ◌≤◌, ◌≡◌, refl, sym, Bool, true, false, Option, none, some, List, [], ◌∷◌, Bytes, arith,
  is_empty, has_prefix, any, text_eq, trim_space, codes, split_on, length, if◌then◌else◌,
}
use oc_review_bot.Review.Utf8.Cutting.{all_cuts_fit}
use oc_review_bot.Review.Text.{
  normalize_path, normalize_markdown, is_dot_segment, has_control, no_control_allowed,
  max_finding_path_bytes,
}
use oc_review_bot.Review.Findings.{
  Finding, normalize_finding, normalize_side, normalize_severity, is_one_of, left_side, right_side,
  severities, with_fields, is_review_line, max_review_line, max_finding_body_bytes,
}

-- A path that stays below the root of the repository
pub record IsSafePath (path : Bytes) : Type 0 where
  pub is_short : length path ≤ max_finding_path_bytes
  pub is_relative : has_prefix path (47 ∷ []) ≡ false
  pub no_dots : any is_dot_segment (split_on 47 path) ≡ false
  pub no_controls : has_control no_control_allowed path ≡ false

passed :
    {v p : Bytes} (a b c d : Bool)
    → (if a then none else if b then none else if c then none else if d then none else some v)
      ≡ some p
    → (a ≡ false) × (b ≡ false) × (c ≡ false) × (d ≡ false) × (v ≡ p)
passed a b c d h = ground arith

pub normalize_path-IsSafePath : (v p : Bytes) → normalize_path v ≡ some p → IsSafePath p
unfolding normalize_path
normalize_path-IsSafePath v p h =
    let (a, b, c, d, e) = passed _ _ _ _ h in
    let safe : IsSafePath v = record {
      is_short = ground arith;
      is_relative = ground arith;
      no_dots = c;
      no_controls = d;
    } in
    rw (sym e) safe

pub fits : (v : Bytes) (n : ℕ) → length (normalize_markdown v n) ≤ n
unfolding normalize_markdown
fits v n = (all_cuts_fit _ n).1

-- What may be posted as a comment on a line
pub record IsPublishable (f : Finding) : Type 0 where
  pub safe_path : IsSafePath f.path
  pub line_exists : 1 ≤ f.line
  pub line_bounded : f.line ≤ max_review_line
  pub known_side : is_one_of f.side (left_side ∷ right_side ∷ []) ≡ true
  pub known_severity : is_one_of f.severity severities ≡ true
  pub has_body : is_empty f.body ≡ false
  pub short_body : length f.body ≤ max_finding_body_bytes

defaulted :
    (d s t : Bytes) (names : List Bytes) (a b : Bool)
    → is_one_of d names ≡ true
    → is_one_of s names ≡ b
    → (if a then some d else if b then some s else none) ≡ some t
    → is_one_of t names ≡ true
defaulted d s t names true b known e h = let same : d ≡ t = ground arith in rw (sym same) known
defaulted d s t names false true known e h = let same : s ≡ t = ground arith in rw (sym same) e
defaulted d s t names false false known e h = ground arith

bodied :
    (v g : Finding) (a b : Bool)
    → (if a then none else if b then none else some v) ≡ some g
    → (b ≡ false) × (v ≡ g)
bodied v g a b h = ground arith

module _ (to_upper to_lower : Bytes → Bytes) where
  with_fields-IsPublishable :
      (f g : Finding) (line : Bool) (path side severity : Option Bytes)
      → is_review_line f.line ≡ line
      → normalize_path f.path ≡ path
      → normalize_side to_upper to_lower f.side ≡ side
      → normalize_severity to_upper to_lower f.severity ≡ severity
      → with_fields f line path side severity ≡ some g
      → IsPublishable g
  unfolding normalize_side normalize_severity text_eq
  with_fields-IsPublishable f g true (some path) (some side) (some severity) l p d v h =
      let (filled, same) = bodied _ g _ _ h in
      let result : IsPublishable (record f {
        path = path;
        side = side;
        severity = severity;
        body = normalize_markdown f.body max_finding_body_bytes;
      }) =
        record {
          safe_path = normalize_path-IsSafePath f.path path p;
          line_exists = ground arith;
          line_bounded = ground arith;
          known_side =
              defaulted right_side (to_upper (trim_space f.side)) side (left_side ∷ right_side ∷ [])
                _ _ refl refl d;
          known_severity =
              defaulted (codes "info") (to_lower (trim_space f.severity)) severity severities _ _
                refl refl v;
          has_body = filled;
          short_body = fits _ _;
        } in
      rw (sym same) result
  with_fields-IsPublishable f g false path side severity l p d v h = ground arith
  with_fields-IsPublishable f g true none side severity l p d v h = ground arith
  with_fields-IsPublishable f g true (some path) none severity l p d v h = ground arith
  with_fields-IsPublishable f g true (some path) (some side) none l p d v h = ground arith

  pub normalize_finding-IsPublishable :
      (f g : Finding) → normalize_finding to_upper to_lower f ≡ some g → IsPublishable g
  unfolding normalize_finding
  normalize_finding-IsPublishable f g h =
      with_fields-IsPublishable f g _ _ _ _ refl refl refl refl h
