-- ===== src/Tests/Webhook.antt =====
-- internal/server/webhook.go: comments that ask the bot for a review.
use oc_review_bot.Common.{
  ℕ, List, ◌*◌, ◌≡◌, ◌++◌, ◌||◌, refl, Bool, true, false, [], ◌∷◌, Bytes, codes, if◌then◌else◌,
  text_eq, is_empty, has_prefix, trim_space, trim_left, trim_right, trim_left_backwards, to_lower,
}
use oc_review_bot.Store.Schema.{empty_db, second, is_some}
use oc_review_bot.Store.Table.{count_where, first_where, all_where, next_id}
use oc_review_bot.Store.Tx.{◌>>=◌, pure, gets, modify, require, commit, transact}
use oc_review_bot.Store.Admission
use oc_review_bot.Store.History.{Call, acquire_lease, run}
use oc_review_bot.Store.Admission.{admitted}
use oc_review_bot.Server.Names
use oc_review_bot.Server.Names.{mentions_bot, mention_loop, index}
use oc_review_bot.Server.Names.Mentions.{is_mention_at, any_below, mentions_bot_lem}
use oc_review_bot.Server.Webhook
use oc_review_bot.Server.Webhook.{
  IssueComment, pos, Config, World, nothing, requested, contains_id, user_by_github_id,
  handle_issue_comment,
}
use oc_review_bot.Server.Webhook.Gates.{is_enqueued, is_relevant, irrelevant_leaves_no_trace}
use oc_review_bot.Server.Webhook.Reviews.{
  reviews_follow_the_answer, reviews_only_for_entitled, redelivery_has_no_effect,
}
use oc_review_bot.Tests.Histories.{limits}

-- strings.EqualFold on ASCII
abbrev equal_fold : Bytes → Bytes → Bool
equal_fold s t = text_eq (to_lower s) (to_lower t)

abbrev cfg : Config
cfg = record {
  bot_username = codes "Samik-Bot";
  installation_ids = 5 ∷ [];
  repository_ids = 7 ∷ [];
  admin_github_ids = 1 ∷ [];
  reviewer_github_ids = 9 ∷ [];
  admission = limits;
}

abbrev comment : Bytes → IssueComment
comment body = record {
  comment_id = 40;
  comment_body = body;
  number = pos 12;
  is_pull_request = true;
  repo_full_name = codes "a/b";
  repo_id = 7;
  installation_id = 5;
  sender_login = codes "Ann";
  sender_type = codes "User";
  sender_id = 9;
}

abbrev asking : IssueComment
asking = comment (codes "hi @samik-bot, review")

-- The bot's name is a part of another one.
abbrev chatting : IssueComment
chatting = comment (codes "hi @samik-bots")

abbrev world : World
world = record {
  db = empty_db;
  users =
      record {
        id = 1;
        github_id = 9;
        login = codes "ann";
        avatar_url = [];
        is_admin = false;
        created_at = 0;
      }
      ∷ [];
  events = [];
}

mention_test : mentions_bot to_lower (codes "x@bot @bot-2 @BOT!") (codes "Bot") ≡ true
unfolding to_lower has_prefix is_empty index mention_loop mentions_bot
mention_test = refl

no_mention_test : mentions_bot to_lower (codes "x@bot @bot-2") (codes "Bot") ≡ false
unfolding to_lower has_prefix is_empty index mention_loop mentions_bot
no_mention_test = refl

mentions_bot_lem_example :
    mentions_bot to_lower (codes "x@bot @bot-2 @BOT!") (codes "Bot")
    ≡ any_below (is_mention_at (codes "x@bot @bot-2 @bot!") (64 ∷ codes "bot")) 19
unfolding to_lower
mentions_bot_lem_example = mentions_bot_lem to_lower (codes "x@bot @bot-2 @BOT!") (codes "Bot") refl

irrelevant_leaves_no_trace_example :
    ((handle_issue_comment to_lower equal_fold cfg chatting (codes "d1") (codes "t") second world).1
      ≡ nothing)
    × ((handle_issue_comment to_lower equal_fold cfg chatting
          (codes "d1")
          (codes "t")
          second
          world).2
        ≡ world)
unfolding count_where first_where all_where next_id ◌>>=◌ pure gets modify require commit transact
    text_eq is_empty has_prefix trim_space trim_left trim_right trim_left_backwards to_lower
    Admission.is_valid_identity Admission.claim_delivery Admission.count_reviews_since
    Admission.is_conflicting Admission.active_review_of Admission.insert_review
    Admission.create_review_with_admission Names.valid_github_login Names.split_slash
    Names.valid_repo_full_name Names.index Names.mention_loop Names.mentions_bot
    Webhook.allows_review_target Webhook.can_request_review Webhook.user_by_github_id
    Webhook.valid_issue_comment_identity Webhook.append_review_event Webhook.early_answer
    Webhook.queue_nudge Webhook.admit_comment Webhook.handle_issue_comment is_relevant
irrelevant_leaves_no_trace_example =
    irrelevant_leaves_no_trace to_lower equal_fold cfg chatting (codes "d1") (codes "t") second
      world refl

reviews_follow_the_answer_example :
    (handle_issue_comment to_lower equal_fold cfg asking
      (codes "d1")
      (codes "t")
      second
      world).2.db.reviews
    ≡ (if is_enqueued
          (handle_issue_comment to_lower equal_fold cfg asking
            (codes "d1")
            (codes "t")
            second
            world).0
        then [] ++ admitted (requested asking) (codes "t") second 1 ∷ []
        else [])
unfolding count_where first_where all_where next_id ◌>>=◌ pure gets modify require commit transact
    text_eq is_empty has_prefix trim_space trim_left trim_right trim_left_backwards to_lower
    Admission.is_valid_identity Admission.claim_delivery Admission.count_reviews_since
    Admission.is_conflicting Admission.active_review_of Admission.insert_review
    Admission.create_review_with_admission Names.valid_github_login Names.split_slash
    Names.valid_repo_full_name Names.index Names.mention_loop Names.mentions_bot
    Webhook.allows_review_target Webhook.can_request_review Webhook.user_by_github_id
    Webhook.valid_issue_comment_identity Webhook.append_review_event Webhook.early_answer
    Webhook.queue_nudge Webhook.admit_comment Webhook.handle_issue_comment is_relevant
reviews_follow_the_answer_example =
    reviews_follow_the_answer to_lower equal_fold cfg asking (codes "d1") (codes "t") second world
      refl

reviews_only_for_entitled_example :
    (is_relevant to_lower equal_fold cfg asking (codes "d1") ≡ true)
    × (is_some (user_by_github_id 9 world.users) ≡ true)
    × ((contains_id cfg.admin_github_ids 9 || contains_id cfg.reviewer_github_ids 9) ≡ true)
unfolding count_where first_where all_where next_id ◌>>=◌ pure gets modify require commit transact
    text_eq is_empty has_prefix trim_space trim_left trim_right trim_left_backwards to_lower
    Admission.is_valid_identity Admission.claim_delivery Admission.count_reviews_since
    Admission.is_conflicting Admission.active_review_of Admission.insert_review
    Admission.create_review_with_admission Names.valid_github_login Names.split_slash
    Names.valid_repo_full_name Names.index Names.mention_loop Names.mentions_bot
    Webhook.allows_review_target Webhook.can_request_review Webhook.user_by_github_id
    Webhook.valid_issue_comment_identity Webhook.append_review_event Webhook.early_answer
    Webhook.queue_nudge Webhook.admit_comment Webhook.handle_issue_comment is_relevant
reviews_only_for_entitled_example =
    reviews_only_for_entitled to_lower equal_fold cfg asking (codes "d1") (codes "t") second world
      refl refl

abbrev after_first : World
after_first =
    (handle_issue_comment to_lower equal_fold cfg asking (codes "d1") (codes "t") second world).2

abbrev between : List (ℕ × Call)
between = (2 * second, acquire_lease (codes "w1") (60 * second)) ∷ []

abbrev later_world : World
later_world = record after_first { db = run between after_first.db }

redelivery_has_no_effect_example :
    ((handle_issue_comment to_lower equal_fold cfg asking
        (codes "d1")
        (codes "u")
        (2 * second)
        later_world).1
      ≡ nothing)
    × ((handle_issue_comment to_lower equal_fold cfg asking
          (codes "d1")
          (codes "u")
          (2 * second)
          later_world).2
        ≡ later_world)
unfolding count_where first_where all_where next_id ◌>>=◌ pure gets modify require commit transact
    text_eq is_empty has_prefix trim_space trim_left trim_right trim_left_backwards to_lower
    Admission.is_valid_identity Admission.claim_delivery Admission.count_reviews_since
    Admission.is_conflicting Admission.active_review_of Admission.insert_review
    Admission.create_review_with_admission Names.valid_github_login Names.split_slash
    Names.valid_repo_full_name Names.index Names.mention_loop Names.mentions_bot
    Webhook.allows_review_target Webhook.can_request_review Webhook.user_by_github_id
    Webhook.valid_issue_comment_identity Webhook.append_review_event Webhook.early_answer
    Webhook.queue_nudge Webhook.admit_comment Webhook.handle_issue_comment is_relevant
redelivery_has_no_effect_example =
    redelivery_has_no_effect to_lower equal_fold cfg asking asking (codes "d1") (codes "t")
      (codes "u") second (2 * second) world later_world between refl refl refl (refl, tt) refl
