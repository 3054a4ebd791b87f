-- ===== src/Review/Utf8/Validity.antt =====
-- Texts that internal/review/parse.go cuts stay valid UTF-8.
use oc_review_bot.Common.{
  ℕ, zero, suc, ◌-◌, ◌≡◌, refl, Bool, true, false, not, ◌&&◌, ◌||◌, [], ◌∷◌, ◌++◌, Bytes, arith,
  leb, ltb, ◌==◌, inl, inr, length, take, drop, if◌then◌else◌, get_elem?,
}
use oc_review_bot.Review.Utf8.{
  is_rune_start, starts_rune, truncation_marker, cut_end, cut_utf8, tail_utf8, skip_continuation,
  truncate_utf8,
}
use oc_review_bot.Review.Utf8.Cutting.{is_boundary, cut_end-boundary, cut_utf8_cases}

abbrev pub continues : ℕ → Bool
continues b = not (is_rune_start b)

-- The encodings of runes: none is overlong, a surrogate or above U+10FFFF.
abbrev pub is_rune_2 : ℕ → ℕ → Bool
is_rune_2 a b = leb 0xC2 a && (leb a 0xDF && continues b)

abbrev pub is_rune_3 : ℕ → ℕ → ℕ → Bool
is_rune_3 a b c =
    leb 0xE0 a
    && (leb a 0xEF
        && (continues b
            && (continues c
                && ((not (a == 0xE0) || leb 0xA0 b) && (not (a == 0xED) || leb b 0x9F)))))

abbrev pub is_rune_4 : ℕ → ℕ → ℕ → ℕ → Bool
is_rune_4 a b c d =
    leb 0xF0 a
    && (leb a 0xF4
        && (continues b
            && (continues c
                && (continues d
                    && ((not (a == 0xF0) || leb 0x90 b) && (not (a == 0xF4) || leb b 0x8F))))))

pub data IsUtf8 : Bytes → Type 0 where
  ended : IsUtf8 []
  one : {s : Bytes} (a : ℕ) → ltb a 0x80 ≡ true → IsUtf8 s → IsUtf8 (a ∷ s)
  two : {s : Bytes} (a b : ℕ) → is_rune_2 a b ≡ true → IsUtf8 s → IsUtf8 (a ∷ b ∷ s)
  three : {s : Bytes} (a b c : ℕ) → is_rune_3 a b c ≡ true → IsUtf8 s → IsUtf8 (a ∷ b ∷ c ∷ s)
  four :
      {s : Bytes} (a b c d : ℕ) → is_rune_4 a b c d ≡ true → IsUtf8 s → IsUtf8 (a ∷ b ∷ c ∷ d ∷ s)

after_rune : (s : Bytes) (n : ℕ) → starts_rune (get_elem? s n) ≡ true → is_boundary s n ≡ true
after_rune s zero h = refl
after_rune s (suc n) h = h

take-IsUtf8 : {s : Bytes} (n : ℕ) → IsUtf8 s → is_boundary s n ≡ true → IsUtf8 (take n s)
take-IsUtf8 zero v b = ended
take-IsUtf8 (suc n) ended b = ended
take-IsUtf8 (suc n) (one {s = s} a h v) b = one a h (take-IsUtf8 n v (after_rune s n b))
take-IsUtf8 (suc zero) (two a c h v) b = ground arith
take-IsUtf8 (suc (suc n)) (two {s = s} a c h v) b = two a c h (take-IsUtf8 n v (after_rune s n b))
take-IsUtf8 (suc zero) (three a c d h v) b = ground arith
take-IsUtf8 (suc (suc zero)) (three a c d h v) b = ground arith
take-IsUtf8 (suc (suc (suc n))) (three {s = s} a c d h v) b =
    three a c d h (take-IsUtf8 n v (after_rune s n b))
take-IsUtf8 (suc zero) (four a c d e h v) b = ground arith
take-IsUtf8 (suc (suc zero)) (four a c d e h v) b = ground arith
take-IsUtf8 (suc (suc (suc zero))) (four a c d e h v) b = ground arith
take-IsUtf8 (suc (suc (suc (suc n)))) (four {s = s} a c d e h v) b =
    four a c d e h (take-IsUtf8 n v (after_rune s n b))

append-IsUtf8 : {s t : Bytes} → IsUtf8 s → IsUtf8 t → IsUtf8 (s ++ t)
append-IsUtf8 ended w = w
append-IsUtf8 (one a h v) w = one a h (append-IsUtf8 v w)
append-IsUtf8 (two a b h v) w = two a b h (append-IsUtf8 v w)
append-IsUtf8 (three a b c h v) w = three a b c h (append-IsUtf8 v w)
append-IsUtf8 (four a b c d h v) w = four a b c d h (append-IsUtf8 v w)

-- Nothing is skipped at the start of a rune.
skip_none : {s : Bytes} → IsUtf8 s → skip_continuation s ≡ s
unfolding skip_continuation
skip_none ended = refl
skip_none (one a h v) = ground arith
skip_none (two a b h v) = ground arith
skip_none (three a b c h v) = ground arith
skip_none (four a b c d h v) = ground arith

past_continuation :
    (b : ℕ) (s : Bytes)
    → continues b ≡ true
    → IsUtf8 (skip_continuation s)
    → IsUtf8 (skip_continuation (b ∷ s))
unfolding skip_continuation
past_continuation b s c v = rw (stops b c) v
  where
    stops : (b : ℕ) → continues b ≡ true → is_rune_start b ≡ false
    stops b c = ground arith

tail-IsUtf8 : {s : Bytes} (n : ℕ) → IsUtf8 s → IsUtf8 (skip_continuation (drop n s))
unfolding skip_continuation
tail-IsUtf8 zero v = rw (skip_none v) v
tail-IsUtf8 (suc n) ended = ended
tail-IsUtf8 (suc n) (one a h v) = tail-IsUtf8 n v
tail-IsUtf8 (suc zero) (two a b h v) = past_continuation b _ (ground arith) (tail-IsUtf8 zero v)
tail-IsUtf8 (suc (suc n)) (two a b h v) = tail-IsUtf8 n v
tail-IsUtf8 (suc zero) (three a b c h v) =
    past_continuation b _ (ground arith) (past_continuation c _ (ground arith) (tail-IsUtf8 zero v))
tail-IsUtf8 (suc (suc zero)) (three a b c h v) =
    past_continuation c _ (ground arith) (tail-IsUtf8 zero v)
tail-IsUtf8 (suc (suc (suc n))) (three a b c h v) = tail-IsUtf8 n v
tail-IsUtf8 (suc zero) (four a b c d h v) = past_continuation b _ (ground arith) (
    past_continuation c _ (ground arith)
      (past_continuation d _ (ground arith) (tail-IsUtf8 zero v)))
tail-IsUtf8 (suc (suc zero)) (four a b c d h v) =
    past_continuation c _ (ground arith) (past_continuation d _ (ground arith) (tail-IsUtf8 zero v))
tail-IsUtf8 (suc (suc (suc zero))) (four a b c d h v) =
    past_continuation d _ (ground arith) (tail-IsUtf8 zero v)
tail-IsUtf8 (suc (suc (suc (suc n)))) (four a b c d h v) = tail-IsUtf8 n v

cut-IsUtf8 : (value : Bytes) (n : ℕ) → IsUtf8 value → IsUtf8 (cut_utf8 value n)
cut-IsUtf8 value n v = elim (cut_utf8_cases value n) [
  | inl (le, e) ↦ rw e v
  | inr (lt, e) ↦ rw e (take-IsUtf8 (cut_end value n) v (cut_end-boundary value n))
]

truncate-IsUtf8 : (value : Bytes) (n : ℕ) → IsUtf8 value → IsUtf8 (truncate_utf8 value n)
unfolding truncate_utf8
truncate-IsUtf8 value n v = split (n == 0) (leb (length value) n) (leb n 3)
  where
    split :
        (a b c : Bool)
        → IsUtf8 (
            if a
            then []
            else if b
            then value
            else if c
            then cut_utf8 value n
            else cut_utf8 value (n - 3) ++ truncation_marker)
    split true b c = ended
    split false true c = v
    split false false true = cut-IsUtf8 value n v
    split false false false =
        append-IsUtf8 (cut-IsUtf8 value (n - 3) v) (three 0xE2 0x80 0xA6 refl ended)

taken_tail-IsUtf8 : (value : Bytes) (n : ℕ) → IsUtf8 value → IsUtf8 (tail_utf8 value n)
unfolding tail_utf8
taken_tail-IsUtf8 value n v = split (n == 0) (leb (length value) n)
  where
    split :
        (a b : Bool)
        → IsUtf8 (
            if a
            then []
            else if b
            then value
            else skip_continuation (drop (length value - n) value))
    split true b = ended
    split false true = v
    split false false = tail-IsUtf8 (length value - n) v

-- A valid UTF-8 text stays valid when it is cut, when it is truncated with the marker, and when its
-- tail is taken, at any length.
pub cuts-IsUtf8 :
    (value : Bytes) (max_bytes : ℕ)
    → IsUtf8 value
    → IsUtf8 (cut_utf8 value max_bytes)
      × IsUtf8 (truncate_utf8 value max_bytes)
      × IsUtf8 (tail_utf8 value max_bytes)
cuts-IsUtf8 value n v =
    (cut-IsUtf8 value n v, truncate-IsUtf8 value n v, taken_tail-IsUtf8 value n v)
