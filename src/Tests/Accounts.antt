-- ===== src/Tests/Accounts.antt =====
-- internal/store/users.go and keys.go: pending sign-ins and the pool of keys.
use oc_review_bot.Common.{
  ℕ, ◌*◌, ◌≡◌, ◌≤◌, ◌⊎◌, refl, false, true, none, some, List, [], ◌∷◌, Bytes, codes, arith, ◌==◌,
  any, get_elem?, text_eq, is_empty,
}
use oc_review_bot.Store.Schema.{second}
use oc_review_bot.Store.Table.{update_where, all_where, count_where}
use oc_review_bot.Store.OauthStates.{
  OauthState, is_live, is_live_of, create_oauth_state, consume_oauth_state,
}
use oc_review_bot.Store.OauthStates.Limits.{
  StateCall, create, consume, delete, run_states, consumed_once, created_states_fit,
}
use oc_review_bot.Store.Keys.{
  ZenKey, is_usable, used_today, with_use, least_used, acquire_key, day_of,
}
use oc_review_bot.Store.Keys.Choice.{none_below, acquires_least_used}

-- A hash without collisions.
abbrev hash : Bytes → Bytes
hash s = 104 ∷ s

abbrev pending : List OauthState
pending =
    record {
      state_hash = hash (codes "s");
      client_hash = codes "c";
      expires_at = 60;
      created_at = 0;
    }
    ∷ []

-- The first attempt is accepted.
consume_test : (consume_oauth_state hash (codes "s") second pending).0 ≡ true
unfolding consume_oauth_state count_where text_eq is_empty
consume_test = refl

abbrev between : List (ℕ × StateCall)
between =
    (second, consume (codes "s"))
    ∷ (second, create (codes "t") (codes "c") (30 * second))
    ∷ (2 * second, delete (codes "u"))
    ∷ []

consumed_once_example :
    consume_oauth_state hash
      (codes "s")
      (2 * second)
      (run_states hash between (consume_oauth_state hash (codes "s") second pending).1)
    ≡ (false, run_states hash between (consume_oauth_state hash (codes "s") second pending).1)
unfolding text_eq
consumed_once_example =
    consumed_once hash (codes "s") second (2 * second) pending between (omega arith)
      (refl, (refl, (refl, tt)))

created_states_fit_example :
    (count_where
        (is_live second)
        (create_oauth_state hash (codes "t") (codes "c") (30 * second) second pending).1
      ≤ 1024)
    × (count_where
          (is_live_of (codes "c") second)
          (create_oauth_state hash (codes "t") (codes "c") (30 * second) second pending).1
        ≤ 5)
unfolding create_oauth_state count_where all_where text_eq is_empty
created_states_fit_example =
    created_states_fit hash (codes "t") (codes "c") (30 * second) second pending refl refl

abbrev key : ℕ → ℕ → ZenKey
key id uses = record {
  id = id;
  label = [];
  ciphertext = [];
  last4 = [];
  requests_today = uses;
  usage_date = some (day_of second);
  cooldown_until = none;
  disabled_at = none;
  created_at = 0;
}

abbrev keys : List ZenKey
keys = key 1 3 ∷ key 2 1 ∷ key 3 1 ∷ []

acquire_test : (acquire_key second keys).0 ≡ some (key 2 2)
unfolding acquire_key least_used is_usable used_today
acquire_test = refl

acquires_least_used_example :
    ((k : ZenKey) × (i : ℕ) × (get_elem? keys i ≡ some k)
      × (is_usable second k ≡ true)
      × (none_below second (used_today second k) keys ≡ true)
      × (acquire_key second keys
          ≡ (some (with_use second k), update_where (λ l. l.id == k.id) (with_use second) keys)))
    ⊎ ((any (is_usable second) keys ≡ false) × (acquire_key second keys ≡ (none, keys)))
acquires_least_used_example = acquires_least_used second keys
