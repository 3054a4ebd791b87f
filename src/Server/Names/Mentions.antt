-- ===== src/Server/Names/Mentions.antt =====
-- internal/server/webhook.go: what mentionsBot finds.
use oc_review_bot.Common.{
  ℕ, zero, suc, ◌+◌, ◌-◌, ◌≤◌, ◌<◌, ◌≡◌, ◌⊎◌, ◌∙◌, refl, sym, ap, Bool, true, false, not, ◌&&◌,
  ◌||◌, inl, inr, [], ◌∷◌, Bytes, some, arith, length, drop, get_elem?, has_prefix, any, ◌==◌, ltb,
  Bool-cases, Option-cases,
}
use oc_review_bot.Server.Names.Matches.{drop-drop, past_end, no_second, IsFirst-at, none_at}
use oc_review_bot.Server.Names.{
  mention_loop, mentions_bot, index, stands_alone, is_login_byte, is_free_of_login, byte_before,
}

-- Whether a byte of a login is at a position of the text.
abbrev pub has_login_at : Bytes → ℕ → Bool
has_login_at [] i = false
has_login_at (b ∷ body) zero = is_login_byte b
has_login_at (b ∷ body) (suc i) = has_login_at body i

abbrev pub is_behind_login : Bytes → ℕ → Bool
is_behind_login body zero = false
is_behind_login body (suc i) = has_login_at body i

-- Whether the target stands at a position of the text, with no byte of a login around it.
abbrev pub is_mention_at : Bytes → Bytes → ℕ → Bool
is_mention_at body target i =
    has_prefix (drop i body) target
    && (not (is_behind_login body i) && not (has_login_at body (i + length target)))

free_at : (body : Bytes) (i : ℕ) → not (has_login_at body i) ≡ is_free_of_login (get_elem? body i)
free_at [] i = refl
free_at (b ∷ body) zero = refl
free_at (b ∷ body) (suc i) = free_at body i

free_before :
    (body : Bytes) (i : ℕ) → not (is_behind_login body i) ≡ is_free_of_login (byte_before body i)
free_before body zero = refl
free_before body (suc i) = free_at body i

alone_lem :
    (body : Bytes) (i k : ℕ)
    → stands_alone body i k ≡ (not (is_behind_login body i) && not (has_login_at body k))
alone_lem body i k = rw (free_before body i, free_at body k) refl

-- Whether the test holds of a number below `n`.
unfoldable pub any_below : (ℕ → Bool) → ℕ → Bool
any_below test zero = false
any_below test (suc n) = test n || any_below test n

below-cases :
    (test : ℕ → Bool) (n : ℕ)
    → ((i : ℕ) × (test i ≡ true) × (any_below test n ≡ true))
      ⊎ (((i : ℕ) → i < n → test i ≡ false) × (any_below test n ≡ false))
unfolding any_below
below-cases test zero = inr (λ i l. ground arith, refl)
below-cases test (suc n) = elim (Bool-cases (test n)) [
  | inl t ↦ inl (n, t, rw t refl)
  | inr t ↦ elim (below-cases test n) [
    | inl (i, h, a) ↦ inl (i, h, rw (t, a) refl)
    | inr (h, a) ↦ inr (
      λ i l. elim (Bool-cases (i == n)) [ inl e ↦ ground (arith, t) | inr e ↦ h i (ground arith) ],
      rw (t, a) refl,
    )
  ]
]

module _ (body name : Bytes) (plain : any (λ c. c == 64) name ≡ false) where
  abbrev target : Bytes
  target = 64 ∷ name

  found_at :
      (offset i : ℕ)
      → index (drop offset body) target ≡ some i
      → has_prefix (drop (offset + i) body) target ≡ true
  found_at offset i e =
      ground (
        arith,
        IsFirst-at (drop offset body) name 64 i e,
        drop-drop offset i (offset + i) body refl,
      )

  loop_none :
      (fuel offset : ℕ)
      → ((i : ℕ) → is_mention_at body target i ≡ false)
      → mention_loop fuel body target offset ≡ false
  unfolding mention_loop
  loop_none zero offset h = refl
  loop_none (suc fuel) offset h = elim (Option-cases (index (drop offset body) target)) [
    | inl e ↦ rw (mention_loop, e) refl
    | inr (i, e) ↦
        let clashes : stands_alone body (offset + i) (offset + i + length target) ≡ false = ground (
          arith,
          h (offset + i),
          found_at offset i e,
          alone_lem body (offset + i) (offset + i + length target),
        ) in
        rw (mention_loop, e, clashes) (loop_none fuel (offset + i + length target) h)
  ]

  matched : (j : ℕ) → is_mention_at body target j ≡ true → has_prefix (drop j body) target ≡ true
  matched j h = ground arith

  before_first :
      (offset i j : ℕ)
      → index (drop offset body) target ≡ some i
      → offset ≤ j
      → j < offset + i
      → has_prefix (drop j body) target ≡ false
  before_first offset i j e le l =
      ap (λ x. has_prefix x target) (sym (drop-drop offset (j - offset) j body (omega arith)))
      ∙ (IsFirst-at (drop offset body) name 64 i e).1 (j - offset) (omega arith)

  within_first :
      (start j : ℕ)
      → has_prefix (drop start body) target ≡ true
      → start < j
      → j < start + length target
      → has_prefix (drop j body) target ≡ false
  within_first start j p o l =
      ap (λ x. has_prefix x target) (sym (drop-drop start (j - start) j body (omega arith)))
      ∙ no_second (drop start body) name 64 (j - start) plain p (omega arith) (omega arith)

  -- A mention behind the first match, which does not stand alone, stands behind its end.
  beyond :
      (offset i j : ℕ)
      → index (drop offset body) target ≡ some i
      → stands_alone body (offset + i) (offset + i + length target) ≡ false
      → offset ≤ j
      → is_mention_at body target j ≡ true
      → offset + i + length target ≤ j
  beyond offset i j e alone le h = elim (Bool-cases (ltb j (offset + i))) [
    | inl l ↦ ground (arith, matched j h, before_first offset i j e le (ground arith))
    | inr l ↦ elim (Bool-cases (j == offset + i)) [
      | inl q ↦
          ground (arith, q, alone, h, alone_lem body (offset + i) (offset + i + length target))
      | inr q ↦ elim (Bool-cases (ltb j (offset + i + length target))) [
        | inl m ↦ ground (
          arith,
          matched j h,
          within_first (offset + i) j (found_at offset i e) (ground arith) (ground arith),
        )
        | inr m ↦ ground arith
      ]
    ]
  ]

  loop_finds :
      (fuel offset j : ℕ)
      → length body < fuel + offset
      → offset ≤ j
      → is_mention_at body target j ≡ true
      → mention_loop fuel body target offset ≡ true
  unfolding mention_loop
  loop_finds zero offset j l le h =
      ground (arith, matched j h, past_end body name 64 j (omega arith))
  loop_finds (suc fuel) offset j l le h = elim (Option-cases (index (drop offset body) target)) [
    | inl e ↦ ground (
      arith,
      matched j h,
      none_at (drop offset body) name 64 e (j - offset),
      drop-drop offset (j - offset) j body (omega arith),
    )
    | inr (i, e) ↦ elim (Bool-cases (stands_alone body (offset + i) (offset + i + length target))) [
      | inl s ↦ rw (mention_loop, e, s) refl
      | inr s ↦
          rw (mention_loop, e, s)
            (loop_finds fuel (offset + i + length target) j (omega arith)
              (beyond offset i j e s le h) h)
    ]
  ]

-- `mentionsBot` finds the bot if and only if at some position of the text, in lower case, stands
-- `@` with the bot's name in lower case, and no byte of a login right before or behind it, for a
-- name without `@`.
pub mentions_bot_lem :
    (lower : Bytes → Bytes) (body username : Bytes)
    → any (λ c. c == 64) (lower username) ≡ false
    → mentions_bot lower body username
      ≡ any_below (is_mention_at (lower body) (64 ∷ lower username)) (suc (length (lower body)))
unfolding mentions_bot
mentions_bot_lem lower body username plain =
    elim (below-cases (is_mention_at (lower body) (64 ∷ lower username))
      (suc (length (lower body)))) [
        | inl (i, h, a) ↦
            loop_finds (lower body) (lower username) plain (suc (length (lower body))) 0 i
              (omega arith) (omega arith) h
            ∙ sym a
        | inr (h, a) ↦
            loop_none (lower body) (lower username) plain (suc (length (lower body))) 0 (λ i.
              elim (Bool-cases (ltb i (suc (length (lower body))))) [
                | inl l ↦ h i (ground arith)
                | inr l ↦ ground (arith, past_end (lower body) (lower username) 64 i (ground arith))
              ])
            ∙ sym a
      ]
