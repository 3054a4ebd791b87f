-- ===== src/Review/Diagram.antt =====
-- internal/review/parse.go: the sequence diagram of the model's output.
pub mod Size
use oc_review_bot.Common.{
  ℕ, ◌+◌, Bool, true, false, not, ◌&&◌, ◌||◌, List, [], ◌∷◌, ◌++◌, Bytes, codes, text_eq, is_empty,
  has_prefix, trim_space, any, leb, ltb, ◌==◌, if◌then◌else◌, length, split_on,
}
use mathlib.Core.List.{reverse}

abbrev pub max_sequence_diagram_bytes : ℕ
max_sequence_diagram_bytes = 6000

abbrev newline : Bytes
newline = 10 ∷ []

abbrev pub fallback_sequence_diagram : Bytes
fallback_sequence_diagram =
    codes "sequenceDiagram"
    ++ newline
    ++ codes "    participant Author"
    ++ newline
    ++ codes "    participant GitHub"
    ++ newline
    ++ codes "    participant Bot"
    ++ newline
    ++ codes "    participant Reviewer"
    ++ newline
    ++ codes "    Author->>GitHub: Opens pull request"
    ++ newline
    ++ codes "    GitHub->>Bot: Receives review request"
    ++ newline
    ++ codes "    Bot->>Reviewer: Sends diff and repository context"
    ++ newline
    ++ codes "    Reviewer-->>Bot: Returns summary and findings"
    ++ newline
    ++ codes "    Bot-->>GitHub: Posts summary and inline findings"

-- strings.Contains
unfoldable pub contains : Bytes → Bytes → Bool
contains [] p = is_empty p
contains (b ∷ s) p = has_prefix (b ∷ s) p || contains s p

abbrev has_arrow : Bytes → Bool
has_arrow line =
    contains line (codes "->>")
    || contains line (codes "-->>")
    || contains line (codes "-x")
    || contains line (codes "--x")
    || contains line (codes "-)")
    || contains line (codes "--)")

-- `containsSequenceMessage`
unfoldable pub contains_sequence_message : List Bytes → Bool
unfolding contains
contains_sequence_message lines = any has_arrow lines

unfoldable pub drop_returns : Bytes → Bytes
drop_returns [] = []
drop_returns (b ∷ s) = let rest = drop_returns s in if b == 13 then rest else b ∷ s

-- strings.TrimRight(line, "\r")
abbrev trim_returns : Bytes → Bytes
trim_returns line = reverse (drop_returns (reverse line))

-- strings.EqualFold
module _ (equal_fold : Bytes → Bytes → Bool) where
  abbrev is_left_out : Bytes → Bool
  is_left_out trimmed =
      is_empty trimmed
      || text_eq trimmed (codes "```")
      || equal_fold trimmed (codes "```mermaid")
      || equal_fold trimmed (codes "sequencediagram")
      || has_prefix trimmed (codes "```")

  unfoldable pub kept_lines : List Bytes → List Bytes
  unfolding drop_returns
  kept_lines [] = []
  kept_lines (line ∷ lines) =
      let rest = kept_lines lines in
      if is_left_out (trim_space (trim_returns line)) then rest else trim_returns line ∷ rest

  -- The loop that writes the lines, up to the first one that does not fit
  unfoldable pub write_lines : Bytes → List Bytes → Bytes
  write_lines out [] = out
  write_lines out (line ∷ lines) =
      let rest = write_lines (out ++ (10 ∷ line)) lines in
      if ltb max_sequence_diagram_bytes (length out + length line + 1) then out else rest

  abbrev behind_first : List Bytes → List Bytes
  behind_first [] = []
  behind_first (line ∷ lines) = lines

  abbrev finish : Bytes → Bytes
  finish out =
      if length out == length (codes "sequenceDiagram")
        || not (contains_sequence_message (behind_first (split_on 10 out)))
      then fallback_sequence_diagram
      else out

  -- `normalizeSequenceDiagram`
  unfoldable pub normalize_sequence_diagram : Bytes → Bytes
  unfolding kept_lines write_lines contains_sequence_message
  normalize_sequence_diagram raw =
      let lines = kept_lines (split_on 10 (trim_space raw)) in
      if not (contains_sequence_message lines)
      then fallback_sequence_diagram
      else finish (write_lines (codes "sequenceDiagram") lines)
