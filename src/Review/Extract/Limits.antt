-- ===== src/Review/Extract/Limits.antt =====
-- internal/review/parse.go: what holds of every review that is extracted.
use oc_review_bot.Common.{
  ℕ, zero, suc, ◌≤◌, ◌≡◌, Bool, true, false, Option, none, some, List, [], ◌∷◌, Bytes, arith,
  is_empty, split_on, length, inl, inr, Option-cases, if◌then◌else◌,
}
use oc_review_bot.Review.Utf8.{tail_utf8}
use oc_review_bot.Review.Text.{normalize_markdown}
use oc_review_bot.Review.Findings.{Finding}
use oc_review_bot.Review.Findings.Publishable.{IsPublishable, normalize_finding-IsPublishable, fits}
use oc_review_bot.Review.Diagram.{max_sequence_diagram_bytes}
use oc_review_bot.Review.Diagram.Size.{diagram-Fits, fallback_fits}
use oc_review_bot.Review.Extract.{
  ReviewResult, RawReview, Library, decode_finding, finding_of, finding_of_object, take_findings,
  findings_of, max_findings, max_finding_candidates, max_summary_bytes, max_agent_text_bytes,
  result_of, with_summary, of_raw, decode_review, newer, decode_block, Fence, outside, inside,
  read_line, read_lines, parse_fenced_json, or_whole, extract_review,
}

abbrev pub AllPublishable : List Finding → Type 0
AllPublishable [] = Unit
AllPublishable (f ∷ fs) = IsPublishable f × AllPublishable fs

-- What may be published of a review
pub record IsBounded (r : ReviewResult) : Type 0 where
  pub publishable : AllPublishable r.findings
  pub few_findings : length r.findings ≤ max_findings
  pub short_summary : length r.summary_md ≤ max_summary_bytes
  pub short_diagram : length r.sequence_diagram ≤ max_sequence_diagram_bytes

module _ (lib : Library) where
  finding_of-IsPublishable :
      (path : Option Bytes) (line : Option ℕ) (side severity body : Option Bytes) (f : Finding)
      → finding_of lib path line side severity body ≡ some f
      → IsPublishable f
  finding_of-IsPublishable (some path) (some line) (some side) (some severity) (some body) f h =
      normalize_finding-IsPublishable lib.to_upper lib.to_lower _ f h
  finding_of-IsPublishable none line side severity body f h = ground arith
  finding_of-IsPublishable (some path) none side severity body f h = ground arith
  finding_of-IsPublishable (some path) (some line) none severity body f h = ground arith
  finding_of-IsPublishable (some path) (some line) (some side) none body f h = ground arith
  finding_of-IsPublishable (some path) (some line) (some side) (some severity) none f h =
      ground arith

  object-IsPublishable :
      (fields : Option (List (Bytes × Bytes))) (f : Finding)
      → finding_of_object lib fields ≡ some f
      → IsPublishable f
  object-IsPublishable none f h = ground arith
  object-IsPublishable (some fields) f h = finding_of-IsPublishable _ _ _ _ _ f h

  decode_finding-IsPublishable :
      (raw : Bytes) (f : Finding) → decode_finding lib raw ≡ some f → IsPublishable f
  unfolding decode_finding
  decode_finding-IsPublishable raw f h = object-IsPublishable (lib.unmarshal_object raw) f h

  abbrev Taken : ℕ → List Finding → Type 0
  Taken room fs = AllPublishable fs × (length fs ≤ room)

  take_findings-Taken :
      (raws : List Bytes) (candidates room : ℕ)
      → Taken room (take_findings lib raws candidates room)
  unfolding take_findings
  take_findings-Taken [] candidates room = (tt, omega arith)
  take_findings-Taken (raw ∷ raws) zero room = (tt, omega arith)
  take_findings-Taken (raw ∷ raws) (suc candidates) zero = (tt, omega arith)
  take_findings-Taken (raw ∷ raws) (suc candidates) (suc room) =
      elim (Option-cases (decode_finding lib raw)) [
        | inl e ↦ rw (e, take_findings) (take_findings-Taken raws candidates (suc room))
        | inr (f, e) ↦
            let (all, few) = take_findings-Taken raws candidates room in
            rw (e, take_findings) ((decode_finding-IsPublishable raw f e, all), omega arith)
      ]

  findings_of-Taken : (raws : Option (List Bytes)) → Taken max_findings (findings_of lib raws)
  findings_of-Taken none = (tt, omega arith)
  findings_of-Taken (some raws) = take_findings-Taken raws max_finding_candidates max_findings

module _ (lib : Library) where
  abbrev Sound : Option ReviewResult → Type 0
  Sound none = Unit
  Sound (some r) = IsBounded r

  Sound-if : (test : Bool) (r : ReviewResult) → IsBounded r → Sound (if test then none else some r)
  Sound-if true r h = tt
  Sound-if false r h = h

  Taken-if :
      (test : Bool) (fs : List Finding)
      → Taken lib max_findings fs
      → Taken lib max_findings (if test then [] else fs)
  Taken-if true fs h = (tt, omega arith)
  Taken-if false fs h = h

  result_of-Sound :
      (raw : RawReview) (summary : Bytes)
      → length summary ≤ max_summary_bytes
      → Sound (result_of lib raw summary)
  result_of-Sound raw summary h =
      let (all, few) =
        Taken-if (is_empty raw.findings) _
          (findings_of-Taken lib (lib.unmarshal_array raw.findings)) in
      Sound-if (is_empty summary) _ (record {
        publishable = all;
        few_findings = few;
        short_summary = h;
        short_diagram = (diagram-Fits lib.equal_fold _).at;
      })

  with_summary-Sound :
      (raw : RawReview) (summary : Option Bytes) → Sound (with_summary lib raw summary)
  with_summary-Sound raw none = tt
  with_summary-Sound raw (some summary) =
      result_of-Sound raw (normalize_markdown summary max_summary_bytes)
        (fits summary max_summary_bytes)

  Sound-or_none :
      (test : Bool) (r : Option ReviewResult) → Sound r → Sound (if test then none else r)
  Sound-or_none true r h = tt
  Sound-or_none false r h = h

  of_raw-Sound : (raw : Option RawReview) → Sound (of_raw lib raw)
  of_raw-Sound none = tt
  of_raw-Sound (some raw) =
      Sound-or_none (is_empty raw.summary) _
        (with_summary-Sound raw (lib.unmarshal_string raw.summary))

  decode_review-Sound : (body : Bytes) → Sound (decode_review lib body)
  unfolding decode_review
  decode_review-Sound body = Sound-or_none _ _ (of_raw-Sound (lib.unmarshal_review body))

  newer-Sound : (last r : Option ReviewResult) → Sound last → Sound r → Sound (newer lib last r)
  newer-Sound last none h k = h
  newer-Sound last (some r) h k = k

  Sound-choice :
      (test : Bool) (r last : Option ReviewResult)
      → Sound r
      → Sound last
      → Sound (if test then r else last)
  Sound-choice true r last h k = h
  Sound-choice false r last h k = k

  decode_block-Sound :
      (parse_fence : Bool) (lines : List Bytes) (last : Option ReviewResult)
      → Sound last
      → Sound (decode_block lib parse_fence lines last)
  decode_block-Sound parse_fence lines last h =
      Sound-choice _ _ last (newer-Sound last _ h (decode_review-Sound _)) h

  Sound-state :
      (test : Bool) (p q : Option ReviewResult × Fence)
      → Sound p.0
      → Sound q.0
      → Sound (if test then p else q).0
  Sound-state true p q h k = h
  Sound-state false p q h k = k

  read_line-Sound :
      (state : Option ReviewResult × Fence) (line : Bytes)
      → Sound state.0
      → Sound (read_line lib state line).0
  read_line-Sound (last, outside) line h = Sound-state _ _ _ h h
  read_line-Sound (last, inside parse_fence content) line h =
      Sound-state _ _ _ (decode_block-Sound parse_fence content last h) h

  read_lines-Sound :
      (lines : List Bytes) (state : Option ReviewResult × Fence)
      → Sound state.0
      → Sound (read_lines lib state lines)
  unfolding read_lines
  read_lines-Sound [] state h = h
  read_lines-Sound (line ∷ lines) state h = read_lines-Sound lines _ (read_line-Sound state line h)

  or_whole-IsBounded :
      (text : Bytes) (r : Option ReviewResult) → Sound r → IsBounded (or_whole lib text r)
  or_whole-IsBounded text (some r) h = h
  or_whole-IsBounded text none h = record {
    publishable = tt;
    few_findings = omega arith;
    short_summary = fits _ _;
    short_diagram = fallback_fits lib.equal_fold;
  }

-- Whatever the agent answers and the JSON decoder makes of it, the extracted review has at most 10
-- findings, a summary of at most 8192 bytes and a diagram of at most 6000, and each finding has a path
-- that is relative, without dot segments and control characters and of at most 4096 bytes, a line
-- from 1 to 1000000000, a known side and severity, and a body of 1 to 4096 bytes.
pub extract_review-IsBounded : (lib : Library) (text : Bytes) → IsBounded (extract_review lib text)
unfolding extract_review parse_fenced_json
extract_review-IsBounded lib text =
    or_whole-IsBounded lib text (parse_fenced_json lib text)
      (read_lines-Sound lib (split_on 10 (tail_utf8 text max_agent_text_bytes)) (none, outside) tt)
