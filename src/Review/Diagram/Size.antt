-- ===== src/Review/Diagram/Size.antt =====
-- internal/review/parse.go: the size of a sequence diagram.
use oc_review_bot.Common.{
  ◌+◌, ◌≤◌, Bool, true, false, List, [], ◌∷◌, ◌++◌, Bytes, arith, ltb, codes, length, length-append,
  inl, inr, Bool-cases, if◌then◌else◌,
}
use oc_review_bot.Review.Diagram.{
  normalize_sequence_diagram, write_lines, max_sequence_diagram_bytes, fallback_sequence_diagram,
}

pub record Fits (diagram : Bytes) : Type 0 where
  pub at : length diagram ≤ max_sequence_diagram_bytes

module _ (equal_fold : Bytes → Bytes → Bool) where
  write_lines-fits :
      (lines : List Bytes) (out : Bytes)
      → length out ≤ max_sequence_diagram_bytes
      → length (write_lines equal_fold out lines) ≤ max_sequence_diagram_bytes
  unfolding write_lines
  write_lines-fits [] out h = h
  write_lines-fits (line ∷ lines) out h =
      elim (Bool-cases (ltb max_sequence_diagram_bytes (length out + length line + 1))) [
        | inl e ↦ rw e h
        | inr e ↦ rw e (
            write_lines-fits lines (out ++ (10 ∷ line))
              (ground (arith, length-append out (10 ∷ line))))
      ]

  pub fallback_fits : length fallback_sequence_diagram ≤ max_sequence_diagram_bytes
  fallback_fits = omega arith

  finished-Fits :
      {out : Bytes} (empty : Bool)
      → Fits out
      → Fits (if empty then fallback_sequence_diagram else out)
  finished-Fits true h = record { at = fallback_fits }
  finished-Fits false h = h

  written-Fits :
      (lines : List Bytes) → Fits (write_lines equal_fold (codes "sequenceDiagram") lines)
  written-Fits lines = record {
    at = write_lines-fits lines (codes "sequenceDiagram") (omega arith);
  }

  pub diagram-Fits : (raw : Bytes) → Fits (normalize_sequence_diagram equal_fold raw)
  unfolding normalize_sequence_diagram
  diagram-Fits raw = search (finished-Fits, written-Fits)
