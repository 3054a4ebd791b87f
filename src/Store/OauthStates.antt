-- ===== src/Store/OauthStates.antt =====
-- internal/store/users.go: the pending states of sign-ins. The table oauth_states is a list of rows;
-- `hash_token` is hashToken, the SHA-256 of the Go library in hexadecimal.
pub mod Limits
use oc_review_bot.Common.{
  ℕ, ◌+◌, Bool, true, false, not, ◌&&◌, ◌||◌, List, [], ◌∷◌, ◌++◌, Bytes, text_eq, is_empty,
  trim_space, leb, ltb, ◌==◌, any, if◌then◌else◌,
}
use oc_review_bot.Store.Schema.{
  rfc3339, oauth_state_limit, oauth_state_client_limit, invalid_argument, unique_constraint,
}
use oc_review_bot.Store.Table.{all_where, count_where}
use oc_review_bot.Store.Tx.{Result, ok, err}

abbrev pub max_oauth_states : ℕ
max_oauth_states = 1024

abbrev pub max_oauth_states_per_client : ℕ
max_oauth_states_per_client = 5

pub record OauthState : Type 0 where
  pub state_hash : Bytes
  pub client_hash : Bytes
  pub expires_at : ℕ
  pub created_at : ℕ

-- expires_at > ?
abbrev pub is_live : ℕ → OauthState → Bool
is_live now s = ltb (rfc3339 now) s.expires_at

abbrev pub is_live_of : Bytes → ℕ → OauthState → Bool
is_live_of client_hash now s = text_eq s.client_hash client_hash && is_live now s

module _ (hash_token : Bytes → Bytes) where
  abbrev pub is_state : Bytes → OauthState → Bool
  is_state state s = text_eq s.state_hash (hash_token state)

  abbrev pub new_state : Bytes → Bytes → ℕ → ℕ → OauthState
  new_state state client_hash ttl now = record {
    state_hash = hash_token state;
    client_hash = client_hash;
    expires_at = rfc3339 (now + ttl);
    created_at = rfc3339 now;
  }

  -- The rest of the transaction, on the rows that are left when the expired ones are deleted; an
  -- error rolls the deletion back.
  abbrev insert_state :
      Bytes
      → Bytes
      → ℕ
      → ℕ
      → List OauthState
      → List OauthState
      → Result (Unit {0}) × List OauthState
  insert_state state client_hash ttl now rows live =
      if leb max_oauth_states (count_where (is_live now) live)
      then (err oauth_state_limit, rows)
      else if not (is_empty client_hash)
          && leb max_oauth_states_per_client (count_where (is_live_of client_hash now) live)
      then (err oauth_state_client_limit, rows)
      else if any (is_state state) live
      then (err unique_constraint, rows)
      else (ok tt, live ++ new_state state client_hash ttl now ∷ [])

  -- `createOAuthState`; a lifetime below 1 is 0.
  unfoldable pub create_oauth_state :
      Bytes → Bytes → ℕ → ℕ → List OauthState → Result (Unit {0}) × List OauthState
  create_oauth_state state client_hash ttl now rows =
      if is_empty state || ttl == 0
      then (err invalid_argument, rows)
      else insert_state state client_hash ttl now rows (all_where (is_live now) rows)

  unfoldable pub create_oauth_state_for_client :
      Bytes → Bytes → ℕ → ℕ → List OauthState → Result (Unit {0}) × List OauthState
  create_oauth_state_for_client state client ttl now rows =
      if is_empty (trim_space client)
      then (err invalid_argument, rows)
      else create_oauth_state state (hash_token (trim_space client)) ttl now rows

  unfoldable pub consume_oauth_state : Bytes → ℕ → List OauthState → Bool × List OauthState
  consume_oauth_state state now rows = if is_empty state then (false, rows) else (
    count_where (λ s. is_state state s && is_live now s) rows == 1,
    all_where (λ s. not (is_state state s && is_live now s)) rows,
  )

  unfoldable pub delete_oauth_state : Bytes → List OauthState → List OauthState
  delete_oauth_state state rows =
      if is_empty state then rows else all_where (λ s. not (is_state state s)) rows
