-- ===== src/Server/Names/Matches.antt =====
-- internal/server/webhook.go: the first match that strings.Index gives the search of mentionsBot.
use oc_review_bot.Common.{
  ℕ, zero, suc, ◌+◌, ◌≤◌, ◌<◌, ◌≡◌, ◌∙◌, refl, sym, ap, Bool, true, false, [], ◌∷◌, Bytes, Option,
  none, some, arith, length, drop, is_empty, has_prefix, any, ◌==◌, if◌then◌else◌,
}
use oc_review_bot.Server.Names.{index}

drop-nil : (n : ℕ) → drop {A = ℕ} n [] ≡ []
drop-nil zero = refl
drop-nil (suc n) = refl

pub drop-drop : (m n k : ℕ) (s : Bytes) → k ≡ m + n → drop n (drop m s) ≡ drop k s
drop-drop zero n k s e = ap (λ i. drop i s) (omega arith)
drop-drop (suc m) n zero s e = ground arith
drop-drop (suc m) n (suc k) [] e = drop-nil n
drop-drop (suc m) n (suc k) (b ∷ s) e = drop-drop m n k s (omega arith)

drop-past : (n : ℕ) (s : Bytes) → length s ≤ n → drop n s ≡ []
drop-past zero [] h = refl
drop-past zero (b ∷ s) h = ground arith
drop-past (suc n) [] h = refl
drop-past (suc n) (b ∷ s) h = drop-past n s (omega arith)

-- What the index says of the matches: it is the first one.
abbrev pub IsFirst : Bytes → Bytes → Option ℕ → Type 0
IsFirst s target none = (j : ℕ) → has_prefix (drop j s) target ≡ false
IsFirst s target (some i) =
    (has_prefix (drop i s) target ≡ true) × ((j : ℕ) → j < i → has_prefix (drop j s) target ≡ false)

pub past_end :
    (s target : Bytes) (b j : ℕ) → length s ≤ j → has_prefix (drop j s) (b ∷ target) ≡ false
unfolding has_prefix
past_end s target b j l = rw (drop-past j s l) refl

IsFirst-step :
    (c : ℕ) (s target : Bytes) (rest : Option ℕ) (starts : Bool)
    → has_prefix (c ∷ s) target ≡ starts
    → IsFirst s target rest
    → IsFirst
        (c ∷ s)
        target
        (if starts then some 0 else elim rest [ none ↦ none | some i ↦ some (i + 1) ])
IsFirst-step c s target rest true h f = (h, λ j l. ground arith)
IsFirst-step c s target none false h f = at
  where
    at : (j : ℕ) → has_prefix (drop j (c ∷ s)) target ≡ false
    at zero = h
    at (suc j) = f j
IsFirst-step c s target (some i) false h f = (here, before)
  where
    here : has_prefix (drop (i + 1) (c ∷ s)) target ≡ true
    here = ap (λ x. has_prefix x target) (sym (drop-drop 1 i (i + 1) (c ∷ s) (omega arith))) ∙ f.0

    before : (j : ℕ) → j < i + 1 → has_prefix (drop j (c ∷ s)) target ≡ false
    before zero l = h
    before (suc j) l = f.1 j (omega arith)

index-IsFirst : (s target : Bytes) (b : ℕ) → IsFirst s (b ∷ target) (index s (b ∷ target))
unfolding index is_empty
index-IsFirst [] target b = λ j. past_end [] target b j (omega arith)
index-IsFirst (c ∷ s) target b =
    IsFirst-step c s (b ∷ target) (index s (b ∷ target)) (has_prefix (c ∷ s) (b ∷ target)) refl
      (index-IsFirst s target b)

-- A match of a text without the byte `b` is not followed by `b` within it.
no_overlap :
    (s name target : Bytes) (b j : ℕ)
    → any (λ c. c == b) name ≡ false
    → has_prefix s name ≡ true
    → j < length name
    → has_prefix (drop j s) (b ∷ target) ≡ false
unfolding has_prefix
no_overlap s [] target b j n p l = ground arith
no_overlap [] (c ∷ name) target b j n p l = ground arith
no_overlap (d ∷ s) (c ∷ name) target b zero n p l = ground arith
no_overlap (d ∷ s) (c ∷ name) target b (suc j) n p l =
    no_overlap s name target b j (ground arith) (ground arith) (omega arith)

-- No target that begins with the byte `b`, and has it nowhere else, stands within another one.
pub no_second :
    (s name : Bytes) (b j : ℕ)
    → any (λ c. c == b) name ≡ false
    → has_prefix s (b ∷ name) ≡ true
    → 0 < j
    → j < suc (length name)
    → has_prefix (drop j s) (b ∷ name) ≡ false
unfolding has_prefix
no_second [] name b j n p o l = ground arith
no_second (d ∷ s) name b zero n p o l = ground arith
no_second (d ∷ s) name b (suc j) n p o l = no_overlap s name name b j n (ground arith) (omega arith)

pub IsFirst-at :
    (s target : Bytes) (b i : ℕ) → index s (b ∷ target) ≡ some i → IsFirst s (b ∷ target) (some i)
IsFirst-at s target b i e = rw e at (index-IsFirst s target b)

pub none_at : (s target : Bytes) (b : ℕ) → index s (b ∷ target) ≡ none → IsFirst s (b ∷ target) none
none_at s target b e = rw e at (index-IsFirst s target b)
