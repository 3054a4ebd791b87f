-- ===== src/Config.antt =====
-- internal/config/config.go: the test of a model's name.
use oc_review_bot.Common.{
  Bool, false, not, ◌&&◌, ◌||◌, ℕ, List, [], ◌∷◌, Bytes, any, is_empty, has_prefix, text_eq,
  trim_space, split_on, ◌==◌, if◌then◌else◌,
}

abbrev is_blank : ℕ → Bool
is_blank c = c == 9 || c == 13 || c == 10 || c == 32

abbrev are_two_names : List Bytes → Bool
are_two_names (provider ∷ name ∷ []) = not (is_empty provider) && not (is_empty name)
are_two_names _ = false

-- `ValidModel`
unfoldable pub valid_model : Bytes → Bool
unfolding split_on
valid_model model =
    if not (text_eq model (trim_space model)) || any is_blank model
    then false
    else are_two_names (split_on 47 model) && not (has_prefix model (45 ∷ []))
