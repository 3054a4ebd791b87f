-- ===== src/Store/Keys/Choice.antt =====
-- internal/store/keys.go: which key AcquireKey chooses.
use oc_review_bot.Common.{
  ℕ, ◌≤◌, ◌≡◌, ◌⊎◌, refl, suc, get_elem?, Bool, true, false, not, ◌||◌, Option, none, some, List,
  [], ◌∷◌, arith, leb, ◌==◌, any, all, Bool-cases, Option-cases, inl, inr, if◌then◌else◌,
}
use oc_review_bot.Store.Table.{update_where}
use oc_review_bot.Store.Keys.{
  ZenKey, keep_first, is_before, used_today, is_usable, least_used, with_use, acquire_key,
}

-- No usable key of the list was used less today than `n` times.
abbrev pub none_below : ℕ → ℕ → List ZenKey → Bool
none_below now n = all (λ k. not (is_usable now k) || leb n (used_today now k))

module _ (now : ℕ) where
  all-weaken :
      (n m : ℕ) (ks : List ZenKey) → n ≤ m → none_below now m ks ≡ true → none_below now n ks ≡ true
  all-weaken n m [] le h = refl
  all-weaken n m (k ∷ ks) le h = ground (arith, all-weaken n m ks le)

  abbrev IsLeast : List ZenKey → Option ZenKey → Type 0
  IsLeast ks none = any (is_usable now) ks ≡ false
  IsLeast ks (some k) =
      (is_usable now k ≡ true)
      × (none_below now (used_today now k) ks ≡ true)
      × ((i : ℕ) × (get_elem? ks i ≡ some k))

  nothing_before :
      (n : ℕ) (ks : List ZenKey) → any (is_usable now) ks ≡ false → none_below now n ks ≡ true
  nothing_before n [] h = refl
  nothing_before n (k ∷ ks) h = ground (arith, nothing_before n ks)

  IsLeast-step :
      (k : ZenKey) (ks : List ZenKey) (best : Option ZenKey)
      → IsLeast ks best
      → IsLeast (k ∷ ks) (if is_usable now k then keep_first now k best else best)
  IsLeast-step k ks none h = elim (Bool-cases (is_usable now k)) [
    | inl u ↦ rw u (u, ground (arith, nothing_before (used_today now k) ks h), (0, refl))
    | inr u ↦ rw u (ground (arith, u, h))
  ]
  IsLeast-step k ks (some l) (u, b, (i, e)) = elim (Bool-cases (is_usable now k)) [
    | inr v ↦ rw v (u, ground arith, (suc i, e))
    | inl v ↦ rw v (elim (Bool-cases (is_before now l k)) [
      | inl f ↦ rw f (u, ground arith, (suc i, e))
      | inr f ↦ rw f (
        v,
        ground (arith, all-weaken (used_today now k) (used_today now l) ks (ground arith) b),
        (0, refl),
      )
    ])
  ]

  least_used-IsLeast : (ks : List ZenKey) → IsLeast ks (least_used now ks)
  unfolding least_used
  least_used-IsLeast [] = refl
  least_used-IsLeast (k ∷ ks) = IsLeast-step k ks (least_used now ks) (least_used-IsLeast ks)

-- AcquireKey gives a usable key of the pool, with one use more recorded, and no usable key was used
-- less often today than that key before; or there is no usable key, and it gives none and changes
-- nothing.
pub acquires_least_used :
    (now : ℕ) (keys : List ZenKey)
    → ((k : ZenKey) × (i : ℕ) × (get_elem? keys i ≡ some k)
        × (is_usable now k ≡ true)
        × (none_below now (used_today now k) keys ≡ true)
        × (acquire_key now keys
            ≡ (some (with_use now k), update_where (λ l. l.id == k.id) (with_use now) keys)))
      ⊎ ((any (is_usable now) keys ≡ false) × (acquire_key now keys ≡ (none, keys)))
unfolding acquire_key
acquires_least_used now keys = elim (Option-cases (least_used now keys)) [
  | inl e ↦ inr (least none e, rw e refl)
  | inr (k, e) ↦ let (u, b, (i, m)) = least (some k) e in inl (k, i, m, u, b, rw e refl)
]
  where
    least : (best : Option ZenKey) → least_used now keys ≡ best → IsLeast now keys best
    least best e = rw⁻¹ e (least_used-IsLeast now keys)
