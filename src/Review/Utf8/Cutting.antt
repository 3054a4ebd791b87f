-- ===== src/Review/Utf8/Cutting.antt =====
-- Where internal/review/parse.go cuts a text.
use oc_review_bot.Common.{
  ℕ, zero, suc, ◌-◌, ◌≤◌, ◌<◌, ◌≡◌, sym, ◌⊎◌, refl, Bool, true, false, List, [], ◌∷◌, Bytes, arith,
  leb, ◌==◌, inl, inr, Bool-cases, length, take, drop, get_elem?, length-take, length-drop,
  length-append,
}
use oc_review_bot.Review.Utf8.{
  starts_rune, truncation_marker, cut_end, cut_utf8, tail_utf8, skip_continuation, truncate_utf8,
}

-- No rune stands across position `n`.
abbrev pub is_boundary : Bytes → ℕ → Bool
is_boundary value zero = true
is_boundary value (suc n) = starts_rune (get_elem? value (suc n))

pub cut_end-le : (value : Bytes) (n : ℕ) → cut_end value n ≤ n
unfolding cut_end
cut_end-le value zero = omega arith
cut_end-le value (suc n) = ground (arith, cut_end-le value n)

pub cut_end-boundary : (value : Bytes) (n : ℕ) → is_boundary value (cut_end value n) ≡ true
unfolding cut_end
cut_end-boundary value zero = refl
cut_end-boundary value (suc n) = elim (Bool-cases (is_boundary value (suc n))) [
  | inl e ↦ rw e e
  | inr e ↦ rw e (cut_end-boundary value n)
]

cut_end-longest :
    (value : Bytes) (n k : ℕ) → k ≤ n → is_boundary value k ≡ true → k ≤ cut_end value n
unfolding cut_end
cut_end-longest value zero k le b = le
cut_end-longest value (suc n) zero le b = omega arith
cut_end-longest value (suc n) (suc k) le b = elim (Bool-cases (is_boundary value (suc n))) [
  | inl e ↦ rw e (omega (arith, le))
  | inr e ↦ rw e (cut_end-longest value n (suc k) (grind (arith, le, e, b)) b)
]

take-all : {A : Type 0} (n : ℕ) (xs : List A) → length xs ≤ n → take n xs ≡ xs
take-all zero [] le = refl
take-all zero (x ∷ xs) le = ground arith
take-all (suc n) [] le = refl
take-all (suc n) (x ∷ xs) le = rw (take-all n xs (omega arith))

past_end : (value : Bytes) → is_boundary value (length value) ≡ true
past_end [] = refl
past_end (b ∷ s) = no_byte s
  where
    no_byte : (s : Bytes) → starts_rune (get_elem? s (length s)) ≡ true
    no_byte [] = refl
    no_byte (c ∷ s) = no_byte s

positive : (n : ℕ) → (suc n == 0) ≡ false
positive n = ground arith

-- The cut that is made is at `cut_end`, or there is none.
pub cut_utf8_cases :
    (value : Bytes) (max_bytes : ℕ)
    → ((length value ≤ max_bytes) × (cut_utf8 value max_bytes ≡ value))
      ⊎ ((max_bytes < length value)
          × (cut_utf8 value max_bytes ≡ take (cut_end value max_bytes) value))
unfolding cut_utf8
cut_utf8_cases [] zero = inl (omega arith, refl)
cut_utf8_cases (b ∷ s) zero = inr (omega arith, refl)
cut_utf8_cases value (suc n) = elim (Bool-cases (leb (length value) (suc n))) [
  | inl le ↦ rw (positive n, le) (inl (ground (arith, le), refl))
  | inr gt ↦ rw (positive n, gt) (inr (ground (arith, gt), refl))
]

-- The text that is left is a prefix of at most `max_bytes` bytes that ends between two runes.
pub cut_lem :
    (value : Bytes) (max_bytes : ℕ)
    → (cut_utf8 value max_bytes ≡ take (length (cut_utf8 value max_bytes)) value)
      × (length (cut_utf8 value max_bytes) ≤ max_bytes)
      × (is_boundary value (length (cut_utf8 value max_bytes)) ≡ true)
cut_lem value n = elim (cut_utf8_cases value n) [
  | inl (le, e) ↦ rw e (sym (take-all (length value) value (omega arith)), le, past_end value)
  | inr (lt, e) ↦ rw (e, measured lt) (refl, cut_end-le value n, cut_end-boundary value n)
]
  where
    measured : n < length value → length (take (cut_end value n) value) ≡ cut_end value n
    measured lt = omega (arith, lt, length-take (cut_end value n) value, cut_end-le value n)

-- No prefix that ends between two runes and fits is longer than the text that is left.
pub cut_is_longest :
    (value : Bytes) (max_bytes k : ℕ)
    → k ≤ max_bytes
    → k ≤ length value
    → is_boundary value k ≡ true
    → k ≤ length (cut_utf8 value max_bytes)
cut_is_longest value n k fits inside b = elim (cut_utf8_cases value n) [
  | inl (le, e) ↦ rw e inside
  | inr (lt, e) ↦
      rw e (omega (arith, length-take (cut_end value n) value, cut_end-longest value n k fits b))
]

truncate_fits : (value : Bytes) (n : ℕ) → length (truncate_utf8 value n) ≤ n
unfolding truncate_utf8
truncate_fits value n = ground (
  arith,
  (cut_lem value n).1,
  (cut_lem value (n - 3)).1,
  length-append (cut_utf8 value (n - 3)) truncation_marker,
)

skip-le : (s : Bytes) → length (skip_continuation s) ≤ length s
unfolding skip_continuation
skip-le [] = omega arith
skip-le (b ∷ s) = ground (arith, skip-le s)

tail_fits : (value : Bytes) (n : ℕ) → length (tail_utf8 value n) ≤ n
unfolding tail_utf8
tail_fits value n =
    ground (arith, skip-le (drop (length value - n) value), length-drop (length value - n) value)

-- Cutting, truncating with the marker counted, and taking the tail each leave at most `max_bytes`
-- bytes.
pub all_cuts_fit :
    (value : Bytes) (max_bytes : ℕ)
    → (length (cut_utf8 value max_bytes) ≤ max_bytes)
      × (length (truncate_utf8 value max_bytes) ≤ max_bytes)
      × (length (tail_utf8 value max_bytes) ≤ max_bytes)
all_cuts_fit value n = ((cut_lem value n).1, truncate_fits value n, tail_fits value n)
