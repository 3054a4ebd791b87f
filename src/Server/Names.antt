-- ===== src/Server/Names.antt =====
-- internal/server/webhook.go: mentions, logins and names of repositories.
pub mod Matches
pub mod Mentions
use oc_review_bot.Common.{
  ℕ, zero, suc, ◌+◌, Bool, true, false, not, ◌&&◌, ◌||◌, Option, none, some, List, [], ◌∷◌, ◌++◌,
  Bytes, is_empty, has_prefix, leb, ltb, ◌==◌, if◌then◌else◌, length, drop, get_elem?, all,
}

abbrev pub is_login_byte : ℕ → Bool
is_login_byte c = leb 97 c && leb c 122 || leb 65 c && leb c 90 || leb 48 c && leb c 57 || c == 45

-- The byte is there, and is '-'.
abbrev pub is_dash : Option ℕ → Bool
is_dash none = false
is_dash (some c) = c == 45

abbrev last_byte : Bytes → Option ℕ
last_byte [] = none
last_byte (c ∷ []) = some c
last_byte (c ∷ d ∷ s) = last_byte (d ∷ s)

-- The source tests the bytes that start a rune; a byte that does not is above 0x7F, and so is the
-- start of its rune.
unfoldable pub valid_github_login : Bytes → Bool
valid_github_login login =
    not (
      is_empty login
      || ltb 39 (length login)
      || is_dash (get_elem? login 0)
      || is_dash (last_byte login))
    && all is_login_byte login

abbrev push_byte : ℕ → List Bytes → List Bytes
push_byte b [] = (b ∷ []) ∷ []
push_byte b (part ∷ parts) = (b ∷ part) ∷ parts

-- strings.Split(s, "/")
unfoldable pub split_slash : Bytes → List Bytes
split_slash [] = [] ∷ []
split_slash (b ∷ s) = let rest = split_slash s in if b == 47 then [] ∷ rest else push_byte b rest

abbrev is_name_byte : ℕ → Bool
is_name_byte c = is_login_byte c || c == 46 || c == 95

abbrev is_repo_name : List Bytes → Bool
is_repo_name (owner ∷ name ∷ []) =
    not (is_empty owner || ltb 39 (length owner) || is_empty name || ltb 100 (length name))
    && (all is_name_byte owner && all is_name_byte name)
is_repo_name _ = false

unfoldable pub valid_repo_full_name : Bytes → Bool
unfolding split_slash
valid_repo_full_name repo = is_repo_name (split_slash repo)

-- strings.Index: the first position at which `target` stands
unfoldable pub index : Bytes → Bytes → Option ℕ
index [] target = if is_empty target then some 0 else none
index (b ∷ s) target =
    let rest = index s target in
    if has_prefix (b ∷ s) target then some 0 else elim rest [ none ↦ none | some i ↦ some (i + 1) ]

-- There is no byte of a login at this place.
abbrev pub is_free_of_login : Option ℕ → Bool
is_free_of_login none = true
is_free_of_login (some c) = not (is_login_byte c)

-- The byte in front of a position
abbrev pub byte_before : Bytes → ℕ → Option ℕ
byte_before body zero = none
byte_before body (suc start) = get_elem? body start

abbrev pub stands_alone : Bytes → ℕ → ℕ → Bool
stands_alone body start end =
    is_free_of_login (byte_before body start) && is_free_of_login (get_elem? body end)

-- The loop of `mentionsBot` from `offset`; each turn moves `offset` by at least the length of
-- `target`, which is not empty.
unfoldable pub mention_loop : ℕ → Bytes → Bytes → ℕ → Bool
mention_loop zero body target offset = false
mention_loop (suc fuel) body target offset = elim (index (drop offset body) target) [
  | none ↦ false
  | some match ↦
      let rest = mention_loop fuel body target (offset + match + length target) in
      if stands_alone body (offset + match) (offset + match + length target) then true else rest
]

-- `lower` is strings.ToLower.
module _ (lower : Bytes → Bytes) where
  unfoldable pub mentions_bot : Bytes → Bytes → Bool
  unfolding mention_loop index
  mentions_bot body username =
      mention_loop (suc (length (lower body))) (lower body) (64 ∷ lower username) 0
