-- ===== src/Store/Keys.antt =====
-- internal/store/keys.go and internal/pool/pool.go: the pool of API keys. A day is a number of days;
-- the secret is left encrypted in its row.
pub mod Choice
use oc_review_bot.Common.{
  ℕ, ◌+◌, ◌*◌, ◌/◌, Bool, true, false, not, ◌&&◌, ◌||◌, Option, none, some, List, [], ◌∷◌, ◌++◌,
  Bytes, leb, ltb, ◌==◌, if◌then◌else◌, length, drop, ◌-◌,
}
use oc_review_bot.Store.Schema.{hour, rfc3339, is_due, is_some}
use oc_review_bot.Store.Table.{update_where, all_where, first_where, next_id}

pub record ZenKey : Type 0 where
  pub id : ℕ
  pub label : Bytes
  pub ciphertext : Bytes
  pub last4 : Bytes
  pub requests_today : ℕ
  pub usage_date : Option ℕ
  pub cooldown_until : Option ℕ
  pub disabled_at : Option ℕ
  pub created_at : ℕ

-- strftime('%Y-%m-%d', 'now')
abbrev pub day_of : ℕ → ℕ
day_of now = now / (24 * hour)

abbrev same_day : ℕ → Option ℕ → Bool
same_day day none = false
same_day day (some d) = d == day

-- `todayUTC`
unfoldable pub used_today : ℕ → ZenKey → ℕ
used_today now k = if same_day (day_of now) k.usage_date then k.requests_today else 0

-- disabled_at = '' AND (cooldown_until = '' OR cooldown_until <= ?)
unfoldable pub is_usable : ℕ → ZenKey → Bool
is_usable now k = not (is_some k.disabled_at) && is_due (rfc3339 now) k.cooldown_until

-- ORDER BY todayUTC ASC, id ASC
abbrev pub is_before : ℕ → ZenKey → ZenKey → Bool
is_before now k l =
    ltb (used_today now k) (used_today now l)
    || used_today now k == used_today now l && ltb k.id l.id

abbrev pub keep_first : ℕ → ZenKey → Option ZenKey → Option ZenKey
keep_first now k none = some k
keep_first now k (some l) = if is_before now l k then some l else some k

-- The first of the usable keys in that order.
unfoldable pub least_used : ℕ → List ZenKey → Option ZenKey
least_used now [] = none
least_used now (k ∷ ks) =
    let rest = least_used now ks in if is_usable now k then keep_first now k rest else rest

abbrev pub with_use : ℕ → ZenKey → ZenKey
with_use now k = record k { requests_today = used_today now k + 1; usage_date = some (day_of now) }

abbrev use_chosen : ℕ → List ZenKey → Option ZenKey → Option ZenKey × List ZenKey
use_chosen now keys none = (none, keys)
use_chosen now keys (some k) =
    (some (with_use now k), update_where (λ l. l.id == k.id) (with_use now) keys)

-- `AcquireKey`, and `Acquire` of the pool: no key is `ErrEmpty` there.
unfoldable pub acquire_key : ℕ → List ZenKey → Option ZenKey × List ZenKey
acquire_key now keys = use_chosen now keys (least_used now keys)

-- `AddKey`; `ciphertext` is what the cipher makes of `secret`.
unfoldable pub add_key : Bytes → Bytes → Bytes → ℕ → List ZenKey → List ZenKey
add_key label secret ciphertext now keys =
    keys
    ++ record {
      id = next_id (λ k. k.id) keys;
      label = label;
      ciphertext = ciphertext;
      last4 = drop (length secret - 4) secret;
      requests_today = 0;
      usage_date = none;
      cooldown_until = none;
      disabled_at = none;
      created_at = rfc3339 now;
    }
      ∷ []

unfoldable pub delete_key : ℕ → List ZenKey → List ZenKey
delete_key id = all_where (λ k. not (k.id == id))

unfoldable pub record_usage : ℕ → ℕ → List ZenKey → List ZenKey
record_usage id now = update_where (λ k. k.id == id) (with_use now)

unfoldable pub cool_key : ℕ → ℕ → List ZenKey → List ZenKey
cool_key id until =
    update_where (λ k. k.id == id) (λ k. record k { cooldown_until = some (rfc3339 until) })

-- `Exhausted` of the pool
unfoldable pub exhausted : ℕ → ℕ → ℕ → List ZenKey → List ZenKey
unfolding cool_key
exhausted cooldown id now = cool_key id (now + cooldown)

unfoldable pub disable_key : ℕ → Bool → ℕ → List ZenKey → List ZenKey
disable_key id disabled now =
    update_where (λ k. k.id == id)
      (λ k. record k { disabled_at = if disabled then some (rfc3339 now) else none })
