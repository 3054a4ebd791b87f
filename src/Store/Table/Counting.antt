-- ===== src/Store/Table/Counting.antt =====
-- What an update or an insertion does to counts, to `any` and to the next identifier.
use oc_review_bot.Common.{
  ℕ, ◌+◌, ◌≤◌, ◌≡◌, refl, inl, inr, Bool, true, false, ◌||◌, List, [], ◌∷◌, ◌++◌, arith, any,
  Bool-cases, if◌then◌else◌,
}
use oc_review_bot.Store.Table.{update_where, count_where, next_id}

module _ {A : Type 0} (q test : A → Bool) (f : A → A) where
  -- No changed row comes to pass `q`.
  pub count_where-update-le :
      ((x : A) → test x ≡ true → q (f x) ≡ true → q x ≡ true)
      → (xs : List A) → count_where q (update_where test f xs) ≤ count_where q xs
  unfolding count_where update_where
  count_where-update-le h [] = omega arith
  count_where-update-le h (x ∷ xs) = elim (Bool-cases (test x)) [
    | inl e ↦ rw e (ground (arith, h x e, count_where-update-le h xs))
    | inr e ↦ rw e (omega (arith, count_where-update-le h xs))
  ]

  -- Each changed row passes `q` before the change and not after it.
  pub count_where-update_drop :
      ((x : A) → test x ≡ true → q x ≡ true)
      → ((x : A) → test x ≡ true → q (f x) ≡ false)
      → (xs : List A)
      → count_where q (update_where test f xs) + count_where test xs ≡ count_where q xs
  unfolding count_where update_where
  count_where-update_drop h k [] = omega arith
  count_where-update_drop h k (x ∷ xs) = elim (Bool-cases (test x)) [
    | inl e ↦ rw (e, h x e, k x e) (omega (arith, count_where-update_drop h k xs))
    | inr e ↦ rw e (omega (arith, count_where-update_drop h k xs))
  ]

  pub any-update_false :
      ((x : A) → test x ≡ true → q (f x) ≡ true → q x ≡ true)
      → (xs : List A) → any q xs ≡ false
      → any q (update_where test f xs) ≡ false
  unfolding update_where
  any-update_false h [] n = refl
  any-update_false h (x ∷ xs) n = elim (Bool-cases (test x)) [
    | inl e ↦ rw e (ground (arith, h x e, any-update_false h xs))
    | inr e ↦ rw e (ground (arith, any-update_false h xs))
  ]

  pub any-update_true :
      ((x : A) → test x ≡ true → q x ≡ true → q (f x) ≡ true)
      → (xs : List A) → any q xs ≡ true
      → any q (update_where test f xs) ≡ true
  unfolding update_where
  any-update_true h [] n = ground arith
  any-update_true h (x ∷ xs) n = elim (Bool-cases (test x)) [
    | inl e ↦ rw e (ground (arith, h x e, any-update_true h xs))
    | inr e ↦ rw e (ground (arith, any-update_true h xs))
  ]

module _ {A : Type 0} (key : A → ℕ) where
  pub next_id-update :
      (test : A → Bool) (f : A → A)
      → ((x : A) → test x ≡ true → key (f x) ≡ key x)
      → (xs : List A) → next_id key (update_where test f xs) ≡ next_id key xs
  unfolding next_id update_where
  next_id-update test f h [] = refl
  next_id-update test f h (x ∷ xs) = elim (Bool-cases (test x)) [
    | inl e ↦ rw (e, h x e, next_id-update test f h xs)
    | inr e ↦ rw (e, next_id-update test f h xs)
  ]

  next_id-append_above :
      (xs : List A) (y : A) → next_id key xs ≤ key y → next_id key (xs ++ y ∷ []) ≡ key y + 1
  unfolding next_id
  next_id-append_above [] y h = ground arith
  next_id-append_above (x ∷ xs) y h =
      let le : next_id key xs ≤ key y = ground arith in ground (arith, next_id-append_above xs y le)

  pub next_id-append :
      (xs : List A) (y : A)
      → key y ≡ next_id key xs
      → next_id key (xs ++ y ∷ []) ≡ next_id key xs + 1
  next_id-append xs y h = omega (arith, next_id-append_above xs y (omega arith))

module _ {A : Type 0} (q : A → Bool) where
  pub count_where-append :
      (xs : List A) (y : A)
      → count_where q (xs ++ y ∷ []) ≡ count_where q xs + (if q y then 1 else 0)
  unfolding count_where
  count_where-append [] y = omega arith
  count_where-append (x ∷ xs) y = omega (arith, count_where-append xs y)

  pub any-append : (xs : List A) (y : A) → any q (xs ++ y ∷ []) ≡ (any q xs || q y)
  any-append [] y = ground arith
  any-append (x ∷ xs) y = ground (arith, any-append xs y)

  pub count_where-none : (xs : List A) → any q xs ≡ false → count_where q xs ≡ 0
  unfolding count_where
  count_where-none [] h = refl
  count_where-none (x ∷ xs) h = ground (arith, count_where-none xs)

  pub count_where-any : (xs : List A) → any q xs ≡ true → 1 ≤ count_where q xs
  unfolding count_where
  count_where-any [] h = ground arith
  count_where-any (x ∷ xs) h = ground (arith, count_where-any xs)

  pub any-count_zero : (xs : List A) → count_where q xs ≡ 0 → any q xs ≡ false
  unfolding count_where
  any-count_zero [] h = refl
  any-count_zero (x ∷ xs) h = ground (arith, any-count_zero xs)

-- Rows that pass `p` or pass `r`, and never both, are among those that pass `q`.
pub count_where-add-le :
    {A : Type 0} (p r q : A → Bool)
    → ((x : A) → p x ≡ true → (q x ≡ true) × (r x ≡ false))
    → ((x : A) → r x ≡ true → q x ≡ true)
    → (xs : List A) → count_where p xs + count_where r xs ≤ count_where q xs
unfolding count_where
count_where-add-le p r q h k [] = omega arith
count_where-add-le p r q h k (x ∷ xs) = ground (arith, h x, k x, count_where-add-le p r q h k xs)
