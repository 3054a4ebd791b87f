-- ===== src/Store/Table.antt =====
-- Tables of the database as lists of rows in order of insertion, with the statements the store
-- runs on them: UPDATE ... WHERE, SELECT COUNT(*), SELECT ... LIMIT 1, INSERT.
pub mod Counting
use oc_review_bot.Common.{
  ℕ, ◌+◌, ◌≤◌, ◌<◌, ◌≡◌, inl, inr, Bool, true, Option, none, some, List, [], ◌∷◌, ◌++◌, arith, ltb,
  if◌then◌else◌, All, All-append, Bool-cases,
}

module _ {A : Type 0} where
  -- UPDATE t SET f WHERE test
  unfoldable pub update_where : (A → Bool) → (A → A) → List A → List A
  update_where test f [] = []
  update_where test f (x ∷ xs) = (if test x then f x else x) ∷ update_where test f xs

  -- SELECT COUNT(*) FROM t WHERE test, and the rows that an UPDATE with this test affects
  unfoldable pub count_where : (A → Bool) → List A → ℕ
  count_where test [] = 0
  count_where test (x ∷ xs) = (if test x then 1 else 0) + count_where test xs

  -- SELECT * FROM t WHERE test LIMIT 1
  unfoldable pub first_where : (A → Bool) → List A → Option A
  first_where test [] = none
  first_where test (x ∷ xs) = if test x then some x else first_where test xs

  -- SELECT * FROM t WHERE test
  unfoldable pub all_where : (A → Bool) → List A → List A
  all_where test [] = []
  all_where test (x ∷ xs) = let rest = all_where test xs in if test x then x ∷ rest else rest

  -- The next value of an INTEGER PRIMARY KEY: one more than the largest in use.
  unfoldable pub next_id : (A → ℕ) → List A → ℕ
  next_id key [] = 1
  next_id key (x ∷ xs) = if ltb (key x) (next_id key xs) then next_id key xs else key x + 1

  pub next_id-above : (key : A → ℕ) (xs : List A) → All (λ x. key x < next_id key xs) xs
  unfolding next_id
  next_id-above key [] = tt
  next_id-above key (x ∷ xs) =
      (ground arith, lift (next_id key xs) (ground arith) xs (next_id-above key xs))
    where
      lift :
          (n : ℕ)
          → n ≤ next_id key (x ∷ xs)
          → (ys : List A) → All (λ y. key y < n) ys
          → All (λ y. key y < next_id key (x ∷ xs)) ys
      lift n le [] h = tt
      lift n le (y ∷ ys) h = (omega arith, lift n le ys h.1)

-- How a table may change: each old row, in its place, to a row that `R` relates to it, and then
-- the new rows, each of them as `N` says.
pub data Evolves {A : Type 0} (R : A → A → Type 0) (N : A → Type 0) : List A → List A → Type 0 where
  grown : (ys : List A) → All N ys → Evolves R N [] ys
  kept : {x y : A} {xs ys : List A} → R x y → Evolves R N xs ys → Evolves R N (x ∷ xs) (y ∷ ys)

module _ {A : Type 0} (P : A → Type 0) where
  -- A property that each changed row gets and each other row keeps.
  pub All-update_where :
      (test : A → Bool) (f : A → A) (xs : List A)
      → ((x : A) → P x → test x ≡ true → P (f x))
      → All P xs
      → All P (update_where test f xs)
  unfolding update_where
  All-update_where test f [] k h = tt
  All-update_where test f (x ∷ xs) k h = elim (Bool-cases (test x)) [
    | inl e ↦ rw e (k x h.0 e, All-update_where test f xs k h.1)
    | inr e ↦ rw e (h.0, All-update_where test f xs k h.1)
  ]

module _ {A : Type 0} {R : A → A → Type 0} where
  pub Evolves-refl : {N : A → Type 0} → ((x : A) → R x x) → (xs : List A) → Evolves R N xs xs
  Evolves-refl r [] = grown [] tt
  Evolves-refl r (x ∷ xs) = kept (r x) (Evolves-refl r xs)

module _ {A : Type 0} {R : A → A → Type 0} {N : A → Type 0} where
  -- One more update of a table that has evolved.
  pub Evolves-update_where :
      (test : A → Bool) (f : A → A)
      → ((x y : A) → test y ≡ true → R x y → R x (f y))
      → ((y : A) → N y → test y ≡ true → N (f y))
      → {xs ys : List A} → Evolves R N xs ys
      → Evolves R N xs (update_where test f ys)
  unfolding update_where
  Evolves-update_where test f onward new (grown ys n) = grown _ (All-update_where N test f ys new n)
  Evolves-update_where test f onward new (kept {x = x} {y = y} r e) = elim (Bool-cases (test y)) [
    | inl t ↦ rw t (kept (onward x y t r) (Evolves-update_where test f onward new e))
    | inr t ↦ rw t (kept r (Evolves-update_where test f onward new e))
  ]

  -- One more insertion.
  pub Evolves-append :
      (y : A) → N y → {xs ys : List A} → Evolves R N xs ys → Evolves R N xs (ys ++ y ∷ [])
  Evolves-append y n (grown ys h) = grown _ (All-append N ys (y ∷ []) h (n, tt))
  Evolves-append y n (kept r e) = kept r (Evolves-append y n e)
