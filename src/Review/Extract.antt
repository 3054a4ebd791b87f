-- ===== src/Review/Extract.antt =====
-- internal/review/parse.go: the review that is read from the agent's final message. What
-- encoding/json makes of a text is a parameter.
pub mod Limits
use oc_review_bot.Common.{
  ℕ, zero, suc, ◌*◌, ◌^◌, Bool, true, false, not, ◌&&◌, ◌||◌, Option, none, some, List, [], ◌∷◌,
  ◌++◌, Bytes, codes, text_eq, is_empty, has_prefix, trim_space, leb, ltb, ◌==◌, if◌then◌else◌,
  length, split_on, drop,
}
use oc_review_bot.Review.Utf8.{prefix_utf8, tail_utf8}
use oc_review_bot.Review.Text.{normalize_markdown}
use oc_review_bot.Review.Findings.{Finding, normalize_finding}
use oc_review_bot.Review.Diagram.{normalize_sequence_diagram, fallback_sequence_diagram}

-- `ReviewResult`
pub record ReviewResult : Type 0 where
  pub summary_md : Bytes
  pub sequence_diagram : Bytes
  pub findings : List Finding

-- `rawReview`, with the empty text for a field that is not there
pub record RawReview : Type 0 where
  pub summary : Bytes
  pub sequence_diagram : Bytes
  pub findings : Bytes

-- What the Go library makes of a text: upper and lower case, and the values of JSON. An object that is
-- null has no fields here, and a number below 1 is 0.
pub record Library : Type 0 where
  pub to_upper : Bytes → Bytes
  pub to_lower : Bytes → Bytes
  pub equal_fold : Bytes → Bytes → Bool
  pub unmarshal_review : Bytes → Option RawReview
  pub unmarshal_string : Bytes → Option Bytes
  pub unmarshal_array : Bytes → Option (List Bytes)
  pub unmarshal_object : Bytes → Option (List (Bytes × Bytes))
  pub unmarshal_int64 : Bytes → Option ℕ

abbrev pub max_agent_text_bytes : ℕ
max_agent_text_bytes = 2 ^ 20

abbrev pub max_json_block_bytes : ℕ
max_json_block_bytes = 256 * 2 ^ 10

abbrev pub max_summary_bytes : ℕ
max_summary_bytes = 8 * 2 ^ 10

abbrev pub max_findings : ℕ
max_findings = 10

abbrev pub max_finding_candidates : ℕ
max_finding_candidates = 100

abbrev fence : Bytes
fence = codes "```"

unfoldable pub member : Bytes → List (Bytes × Bytes) → Option Bytes
member name [] = none
member name ((key, raw) ∷ rest) =
    let found = member name rest in if text_eq key name then some raw else found

-- `isJSONNull`
unfoldable pub is_json_null : Bytes → Bool
is_json_null raw = text_eq (trim_space raw) (codes "null")

-- strings.Join(lines, "\n")
unfoldable pub join_lines : List Bytes → Bytes
join_lines [] = []
join_lines (line ∷ []) = line
join_lines (line ∷ next ∷ rest) = line ++ (10 ∷ join_lines (next ∷ rest))

-- Where the loop of `parseFencedJSON` stands: outside a fence, or inside one, with whether it is
-- decoded and its lines so far.
pub data Fence : Type 0 where
  outside : Fence
  inside : Bool → List Bytes → Fence

module _ (lib : Library) where
  -- `isJSONFence`
  unfoldable pub is_json_fence : Bytes → Bool
  is_json_fence marker =
      if not (has_prefix marker fence)
      then false
      else is_empty (trim_space (drop 3 marker))
        || lib.equal_fold (trim_space (drop 3 marker)) (codes "json")

  abbrev required_string : Option Bytes → Option Bytes
  required_string none = none
  required_string (some raw) = if is_json_null raw then none else lib.unmarshal_string raw

  -- `requiredJSONString`
  unfoldable pub required_json_string : List (Bytes × Bytes) → Bytes → Option Bytes
  unfolding member is_json_null
  required_json_string fields name = required_string (member name fields)

  abbrev optional_string : Option Bytes → Option Bytes
  optional_string none = some []
  optional_string (some raw) = required_string (some raw)

  -- `optionalJSONString`
  unfoldable pub optional_json_string : List (Bytes × Bytes) → Bytes → Option Bytes
  unfolding member is_json_null
  optional_json_string fields name = optional_string (member name fields)

  abbrev required_line : Option Bytes → Option ℕ
  required_line none = none
  required_line (some raw) = if is_json_null raw then none else lib.unmarshal_int64 raw

  -- `requiredJSONLine`
  unfoldable pub required_json_line : List (Bytes × Bytes) → Option ℕ
  unfolding member is_json_null
  required_json_line fields = required_line (member (codes "line") fields)

  abbrev pub finding_of :
      Option Bytes → Option ℕ → Option Bytes → Option Bytes → Option Bytes → Option Finding
  finding_of (some path) (some line) (some side) (some severity) (some body) =
      normalize_finding lib.to_upper lib.to_lower
        (record { path = path; line = line; side = side; severity = severity; body = body })
  finding_of _ _ _ _ _ = none

  abbrev pub finding_of_object : Option (List (Bytes × Bytes)) → Option Finding
  finding_of_object none = none
  finding_of_object (some fields) =
      finding_of (required_json_string fields (codes "path")) (required_json_line fields)
        (optional_json_string fields (codes "side"))
        (optional_json_string fields (codes "severity"))
        (required_json_string fields (codes "body"))

  -- `decodeFinding`
  unfoldable pub decode_finding : Bytes → Option Finding
  unfolding required_json_string required_json_line optional_json_string normalize_finding
  decode_finding raw = finding_of_object (lib.unmarshal_object raw)

  -- The loop over the candidates, with the room that is left for candidates and for findings
  unfoldable pub take_findings : List Bytes → ℕ → ℕ → List Finding
  unfolding decode_finding
  take_findings [] candidates room = []
  take_findings (raw ∷ raws) zero room = []
  take_findings (raw ∷ raws) (suc candidates) zero = []
  take_findings (raw ∷ raws) (suc candidates) (suc room) = elim (decode_finding raw) [
    | none ↦ take_findings raws candidates (suc room)
    | some f ↦ f ∷ take_findings raws candidates room
  ]

  abbrev pub findings_of : Option (List Bytes) → List Finding
  findings_of none = []
  findings_of (some raws) = take_findings raws max_finding_candidates max_findings

  abbrev diagram_text : Option Bytes → Bytes
  diagram_text none = []
  diagram_text (some text) = text

  abbrev diagram_of : Bytes → Bytes
  diagram_of raw = if is_empty raw then [] else diagram_text (lib.unmarshal_string raw)

  abbrev pub result_of : RawReview → Bytes → Option ReviewResult
  result_of raw summary =
      if is_empty summary
      then none
      else some (record {
        summary_md = summary;
        sequence_diagram =
            normalize_sequence_diagram lib.equal_fold (diagram_of raw.sequence_diagram);
        findings =
            if is_empty raw.findings then [] else findings_of (lib.unmarshal_array raw.findings);
      })

  abbrev pub with_summary : RawReview → Option Bytes → Option ReviewResult
  with_summary raw none = none
  with_summary raw (some summary) = result_of raw (normalize_markdown summary max_summary_bytes)

  abbrev pub of_raw : Option RawReview → Option ReviewResult
  of_raw none = none
  of_raw (some raw) =
      if is_empty raw.summary then none else with_summary raw (lib.unmarshal_string raw.summary)

  -- `decodeReview`
  unfoldable pub decode_review : Bytes → Option ReviewResult
  unfolding take_findings normalize_markdown normalize_sequence_diagram
  decode_review body =
      if ltb max_json_block_bytes (length body) then none else of_raw (lib.unmarshal_review body)

  abbrev pub newer : Option ReviewResult → Option ReviewResult → Option ReviewResult
  newer last none = last
  newer last (some r) = some r

  abbrev pub decode_block : Bool → List Bytes → Option ReviewResult → Option ReviewResult
  decode_block parse_fence lines last =
      if parse_fence && leb (length (join_lines lines)) max_json_block_bytes
      then newer last (decode_review (join_lines lines))
      else last

  abbrev pub read_line : Option ReviewResult × Fence → Bytes → Option ReviewResult × Fence
  read_line (last, outside) line =
      if has_prefix (trim_space line) fence
      then (last, inside (is_json_fence (trim_space line)) [])
      else (last, outside)
  read_line (last, inside parse_fence content) line =
      if text_eq (trim_space line) fence
      then (decode_block parse_fence content last, outside)
      else (last, inside parse_fence (content ++ (line ∷ [])))

  -- The loop of `parseFencedJSON`
  unfoldable pub read_lines : Option ReviewResult × Fence → List Bytes → Option ReviewResult
  unfolding decode_review join_lines is_json_fence
  read_lines state [] = state.0
  read_lines state (line ∷ lines) = read_lines (read_line state line) lines

  -- `parseFencedJSON`
  unfoldable pub parse_fenced_json : Bytes → Option ReviewResult
  unfolding read_lines
  parse_fenced_json text =
      read_lines (none, outside) (split_on 10 (tail_utf8 text max_agent_text_bytes))

  abbrev pub or_whole : Bytes → Option ReviewResult → ReviewResult
  or_whole text (some r) = r
  or_whole text none = record {
    summary_md = normalize_markdown (prefix_utf8 text max_agent_text_bytes) max_summary_bytes;
    sequence_diagram = fallback_sequence_diagram;
    findings = [];
  }

  -- `ExtractReview`
  unfoldable pub extract_review : Bytes → ReviewResult
  unfolding parse_fenced_json normalize_markdown
  extract_review text = or_whole text (parse_fenced_json text)
