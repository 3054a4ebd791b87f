-- ===== src/Review/Diff/Hunks.antt =====
-- The lines that a hunk of a patch shows.
use oc_review_bot.Common.{
  ℕ, ◌+◌, ◌<◌, ◌^◌, ◌≡◌, refl, ap, Bool, true, false, not, ◌&&◌, ◌||◌, some, List, [], ◌∷◌, Bytes,
  arith, leb, ltb, All, inl, inr, Bool-cases, if◌then◌else◌, has_prefix,
}
use oc_review_bot.Review.Diff.{
  Walk, is_in, is_header, is_marker, is_added, is_removed, next_line, parse_hunk, read_line,
  read_lines,
}

-- A line of a hunk stands for a line of the new file, or of the old one.
abbrev pub shows_new : Bytes → Bool
shows_new x = not (is_marker x || is_removed x)

abbrev pub shows_old : Bytes → Bool
shows_old x = not (is_marker x || is_added x)

-- The lines of the new file, and of the old file, that lines of a hunk stand for.
unfoldable pub new_count : List Bytes → ℕ
new_count [] = 0
new_count (x ∷ xs) = (if shows_new x then 1 else 0) + new_count xs

unfoldable pub old_count : List Bytes → ℕ
old_count [] = 0
old_count (x ∷ xs) = (if shows_old x then 1 else 0) + old_count xs

abbrev pub is_between : ℕ → ℕ → ℕ → Bool
is_between n start count = leb start n && ltb n (start + count)

-- A prefix of one byte excludes another one.
one_prefix :
    (x : Bytes)
    → (is_added x ≡ true → is_removed x ≡ false) × (is_added x ≡ true → is_marker x ≡ false)
unfolding has_prefix
one_prefix [] = ground arith
one_prefix (b ∷ s) = ground arith

small_next : (n : ℕ) → n < 2 ^ 63 → next_line n ≡ n + 1
small_next n h = omega arith

-- What a line of a hunk does that shows a line of the new file, or of the old one.
record Advances (in_new in_old : Bool) (w w' : Walk) : Type 0 where
  stays : w'.in_hunk ≡ true
  new_line : w'.new_line ≡ w.new_line + (if in_new then 1 else 0)
  old_line : w'.old_line ≡ w.old_line + (if in_old then 1 else 0)
  right : w'.file.right ≡ (if in_new then w.new_line ∷ w.file.right else w.file.right)
  left : w'.file.left ≡ (if in_old then w.old_line ∷ w.file.left else w.file.left)

read_line_lem :
    (w : Walk) (x : Bytes)
    → w.in_hunk ≡ true
    → is_header x ≡ false
    → w.new_line < 2 ^ 63
    → w.old_line < 2 ^ 63
    → Advances (shows_new x) (shows_old x) w (read_line w x)
unfolding read_line
read_line_lem w x i h small small' = rw h (elim (Bool-cases (is_marker x)) [
  | inl m ↦
      rw (m, i)
        (record {
          stays = refl;
          new_line = omega arith;
          old_line = omega arith;
          right = refl;
          left = refl;
        })
  | inr m ↦
      rw (m, i)
        (elim (Bool-cases (is_added x)) [
          | inl a ↦
              rw (a, (one_prefix x).0 a)
                (record {
                  stays = refl;
                  new_line = small_next w.new_line small;
                  old_line = omega arith;
                  right = refl;
                  left = refl;
                })
          | inr a ↦ rw a (elim (Bool-cases (is_removed x)) [
            | inl r ↦ rw r (record {
              stays = refl;
              new_line = omega arith;
              old_line = small_next w.old_line small';
              right = refl;
              left = refl;
            })
            | inr r ↦ rw r (record {
              stays = refl;
              new_line = small_next w.new_line small;
              old_line = small_next w.old_line small';
              right = refl;
              left = refl;
            })
          ])
        ])
])

extended :
    (shown : Bool) (n start count : ℕ) (lines : List ℕ)
    → (is_in n (if shown then start ∷ lines else lines)
        || is_between n (start + (if shown then 1 else 0)) count)
      ≡ (is_in n lines || is_between n start ((if shown then 1 else 0) + count))
extended true n start count lines = ground arith
extended false n start count lines = ground arith

module _ (n : ℕ) where
  abbrev Covers : Walk → List Bytes → Type 0
  Covers w xs =
      (is_in n (read_lines w xs).file.right
        ≡ (is_in n w.file.right || is_between n w.new_line (new_count xs)))
      × (is_in n (read_lines w xs).file.left
          ≡ (is_in n w.file.left || is_between n w.old_line (old_count xs)))

  body-Covers :
      (w : Walk) (xs : List Bytes)
      → w.in_hunk ≡ true
      → All (λ x. is_header x ≡ false) xs
      → w.new_line + new_count xs < 2 ^ 63
      → w.old_line + old_count xs < 2 ^ 63
      → Covers w xs
  unfolding read_lines new_count old_count
  body-Covers w [] i h small small' = (ground arith, ground arith)
  body-Covers w (x ∷ xs) i h small small' =
      let step : Advances (shows_new x) (shows_old x) w (read_line w x) =
        read_line_lem w x i h.0 (ground arith) (ground arith) in
      let (right, left) =
        body-Covers (read_line w x) xs step.stays h.1 (ground (arith, step.new_line))
          (ground (arith, step.old_line)) in
      (
        rw right (
            rw (step.right, step.new_line)
              (extended (shows_new x) n w.new_line (new_count xs) w.file.right)),
        rw left (
            rw (step.left, step.old_line)
              (extended (shows_old x) n w.old_line (old_count xs) w.file.left)),
      )

start_of_hunk :
    (w : Walk) (header : Bytes) (body : List Bytes) (old new : ℕ)
    → is_header header ≡ true
    → parse_hunk header ≡ some (old, new)
    → read_lines w (header ∷ body)
      ≡ read_lines (record w { old_line = old; new_line = new; in_hunk = true }) body
unfolding read_line read_lines
start_of_hunk w header body old new h p = ap (λ v. read_lines v body) opened
  where
    opened : read_line w header ≡ record w { old_line = old; new_line = new; in_hunk = true }
    opened = rw (h, p) refl

-- A hunk whose header gives the start lines `old` and `new` adds to the lines of the right side
-- exactly the new lines from `new` on, as many as its body has added and context lines, and to
-- those of the left side the old lines from `old` on, as many as it has removed and context lines.
-- The line numbers stay in the range of int64.
pub hunk_shows_its_lines :
    (n : ℕ) (w : Walk) (header : Bytes) (body : List Bytes) (old new : ℕ)
    → is_header header ≡ true
    → parse_hunk header ≡ some (old, new)
    → All (λ x. is_header x ≡ false) body
    → new + new_count body < 2 ^ 63
    → old + old_count body < 2 ^ 63
    → (is_in n (read_lines w (header ∷ body)).file.right
        ≡ (is_in n w.file.right || is_between n new (new_count body)))
      × (is_in n (read_lines w (header ∷ body)).file.left
          ≡ (is_in n w.file.left || is_between n old (old_count body)))
hunk_shows_its_lines n w header body old new h p b small small' =
    rw (start_of_hunk w header body old new h p) (
      body-Covers n (record w { old_line = old; new_line = new; in_hunk = true }) body refl b small
        small')
