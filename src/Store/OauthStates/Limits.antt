-- ===== src/Store/OauthStates/Limits.antt =====
-- internal/store/users.go: a pending sign-in is used once, and there are not too many.
use oc_review_bot.Common.{
  ℕ, ◌≤◌, ◌≡◌, refl, ap, Bool, false, not, ◌&&◌, ◌||◌, List, [], ◌∷◌, Bytes, arith, is_empty, leb,
  ◌==◌, any, text_eq, Bool-cases, inl, inr,
}
use oc_review_bot.Store.Schema.{rfc3339}
use oc_review_bot.Store.Table.{all_where, count_where}
use oc_review_bot.Store.Table.Counting.{count_where-append, any-append}
use oc_review_bot.Store.Tx.{ok}
use oc_review_bot.Store.OauthStates.{
  OauthState, is_live, is_live_of, is_state, new_state, create_oauth_state, consume_oauth_state,
  delete_oauth_state, max_oauth_states, max_oauth_states_per_client,
}

-- The calls on the pending states.
pub data StateCall : Type 0 where
  create : Bytes → Bytes → ℕ → StateCall
  consume : Bytes → StateCall
  delete : Bytes → StateCall

module _ (hash_token : Bytes → Bytes) where
  unfoldable step_states : ℕ × StateCall → List OauthState → List OauthState
  step_states (now, create state client_hash ttl) rows =
      (create_oauth_state hash_token state client_hash ttl now rows).1
  step_states (now, consume state) rows = (consume_oauth_state hash_token state now rows).1
  step_states (now, delete state) rows = delete_oauth_state hash_token state rows

  unfoldable pub run_states : List (ℕ × StateCall) → List OauthState → List OauthState
  unfolding step_states
  run_states [] rows = rows
  run_states (c ∷ cs) rows = run_states cs (step_states c rows)

  abbrev pub creates : Bytes → StateCall → Bool
  creates state (create other client_hash ttl) = text_eq (hash_token other) (hash_token state)
  creates state _ = false

  -- No call creates the state again.
  abbrev pub NotCreated : Bytes → List (ℕ × StateCall) → Type 0
  NotCreated state [] = Unit
  NotCreated state ((now, c) ∷ cs) = (creates state c ≡ false) × NotCreated state cs

any-all_where :
    (q test : OauthState → Bool) (rows : List OauthState)
    → any q rows ≡ false
    → any q (all_where test rows) ≡ false
unfolding all_where
any-all_where q test [] h = refl
any-all_where q test (s ∷ rows) h = elim (Bool-cases (test s)) [
  | inl t ↦ rw t (ground (arith, any-all_where q test rows))
  | inr t ↦ rw t (ground (arith, any-all_where q test rows))
]

none_counted :
    (q : OauthState → Bool) (rows : List OauthState)
    → any q rows ≡ false
    → (count_where q rows ≡ 0) × (all_where (λ s. not (q s)) rows ≡ rows)
unfolding count_where all_where
none_counted q [] h = (refl, refl)
none_counted q (s ∷ rows) h = elim (Bool-cases (q s)) [
  | inl t ↦ ground arith
  | inr t ↦
      let (none, same) = none_counted q rows (ground arith) in
      (rw t (omega (arith, none)), rw t (ap (λ xs. s ∷ xs) same))
]

module _ (hash_token : Bytes → Bytes) (state : Bytes) (later : ℕ) where
  abbrev at : ℕ → OauthState → Bool
  at t s = is_state hash_token state s && is_live t s

  abbrev IsSpent : List OauthState → Type 0
  IsSpent rows = any (at later) rows ≡ false

  IsSpent-after :
      (now : ℕ) (rows : List OauthState)
      → now ≤ later
      → IsSpent (all_where (λ s. not (at now s)) rows)
  unfolding all_where
  IsSpent-after now [] le = refl
  IsSpent-after now (s ∷ rows) le = elim (Bool-cases (at now s)) [
    | inl h ↦ rw h (IsSpent-after now rows le)
    | inr h ↦ rw h (ground (arith, expired, IsSpent-after now rows le))
  ]
    where
      expired : rfc3339 now ≤ rfc3339 later
      expired = omega arith

  create-IsSpent :
      (other client_hash : Bytes) (ttl now : ℕ) (rows : List OauthState)
      → text_eq (hash_token other) (hash_token state) ≡ false
      → IsSpent rows
      → IsSpent (create_oauth_state hash_token other client_hash ttl now rows).1
  unfolding create_oauth_state
  create-IsSpent other client_hash ttl now rows different h = ground (
    arith,
    any-append (at later) (all_where (is_live now) rows)
        (new_state hash_token other client_hash ttl now),
    any-all_where (at later) (is_live now) rows h,
  )

  consume-IsSpent :
      (other : Bytes) (now : ℕ) (rows : List OauthState)
      → IsSpent rows
      → IsSpent (consume_oauth_state hash_token other now rows).1
  unfolding consume_oauth_state
  consume-IsSpent other now rows h = elim (Bool-cases (is_empty other)) [
    | inl e ↦ rw e h
    | inr e ↦ rw e (any-all_where (at later) _ rows h)
  ]

  delete-IsSpent :
      (other : Bytes) (rows : List OauthState)
      → IsSpent rows
      → IsSpent (delete_oauth_state hash_token other rows)
  unfolding delete_oauth_state
  delete-IsSpent other rows h = elim (Bool-cases (is_empty other)) [
    | inl e ↦ rw e h
    | inr e ↦ rw e (any-all_where (at later) _ rows h)
  ]

  step-IsSpent :
      (c : ℕ × StateCall) (rows : List OauthState)
      → creates hash_token state c.1 ≡ false
      → IsSpent rows
      → IsSpent (step_states hash_token c rows)
  unfolding step_states
  step-IsSpent (now, create other client_hash ttl) rows n h =
      create-IsSpent other client_hash ttl now rows n h
  step-IsSpent (now, consume other) rows n h = consume-IsSpent other now rows h
  step-IsSpent (now, delete other) rows n h = delete-IsSpent other rows h

  run-IsSpent :
      (cs : List (ℕ × StateCall)) (rows : List OauthState)
      → NotCreated hash_token state cs
      → IsSpent rows
      → IsSpent (run_states hash_token cs rows)
  unfolding run_states
  run-IsSpent [] rows n h = h
  run-IsSpent (c ∷ cs) rows n h =
      run-IsSpent cs (step_states hash_token c rows) n.1 (step-IsSpent c rows n.0 h)

-- After an attempt to consume a state, accepted or not, and any calls that create, consume or delete
-- states, at any times, but do not create a state of the same hash, an attempt with that state at the
-- time of the first one or later is not accepted and changes nothing.
pub consumed_once :
    (hash_token : Bytes → Bytes) (state : Bytes) (now later : ℕ) (rows : List OauthState)
    (cs : List (ℕ × StateCall))
    → now ≤ later
    → NotCreated hash_token state cs
    → consume_oauth_state hash_token state later
        (run_states hash_token cs (consume_oauth_state hash_token state now rows).1)
      ≡ (false, run_states hash_token cs (consume_oauth_state hash_token state now rows).1)
unfolding consume_oauth_state
consumed_once hash_token state now later rows cs le n = elim (Bool-cases (is_empty state)) [
  | inl e ↦ rw e refl
  | inr e ↦ rw e (
      let start : List OauthState =
        all_where (λ s. not (is_state hash_token state s && is_live now s)) rows in
      let (none, same) =
        none_counted (at hash_token state later later) (run_states hash_token cs start) (
          run-IsSpent hash_token state later cs start n
            (IsSpent-after hash_token state later now rows le)) in
      rw (none, same) refl)
]

-- After the creation of a state for a client, at most 1024 states are pending, and at most 5 of the
-- client.
pub created_states_fit :
    (hash_token : Bytes → Bytes) (state client_hash : Bytes) (ttl now : ℕ) (rows : List OauthState)
    → is_empty client_hash ≡ false
    → (create_oauth_state hash_token state client_hash ttl now rows).0 ≡ ok tt
    → (count_where (is_live now) (create_oauth_state hash_token state client_hash ttl now rows).1
        ≤ max_oauth_states)
      × (count_where
            (is_live_of client_hash now)
            (create_oauth_state hash_token state client_hash ttl now rows).1
          ≤ max_oauth_states_per_client)
unfolding create_oauth_state
created_states_fit hash_token state client_hash ttl now rows named =
    elim (Bool-cases (is_empty state || ttl == 0)) [
      | inl e ↦ rw e (λ h. ground arith)
      | inr e ↦ rw e (elim (Bool-cases (leb max_oauth_states (count_where (is_live now) live))) [
        | inl m ↦ rw m (λ h. ground arith)
        | inr m ↦
            rw (m, named)
              (elim (Bool-cases
                (leb max_oauth_states_per_client (count_where (is_live_of client_hash now) live))) [
                  | inl c ↦ rw c (λ h. ground arith)
                  | inr c ↦ rw c (elim (Bool-cases (any (is_state hash_token state) live)) [
                    | inl a ↦ rw a (λ h. ground arith)
                    | inr a ↦ rw a (λ h. (
                      ground (arith, m, count_where-append (is_live now) live row),
                      ground (arith, c, count_where-append (is_live_of client_hash now) live row),
                    ))
                  ])
                ])
      ])
    ]
  where
    live : List OauthState
    live = all_where (is_live now) rows

    row : OauthState
    row = new_state hash_token state client_hash ttl now
