-- ===== src/Engine/Settlement/Window.antt =====
-- internal/bot/engine.go: from the record of the start of a send to the mark that it was posted.
use oc_review_bot.Common.{
  ℕ, ◌≡◌, refl, sym, ◌∙◌, Bool, true, false, none, some, Option, Bytes, arith, ◌==◌,
}
use oc_review_bot.Store.Schema.{Review, Publication}
use oc_review_bot.Store.History.{Work}
use oc_review_bot.Engine.Errors.{
  Failure, Outcome, value, failed, errors_is, is_publication_reconcile,
}
use oc_review_bot.Engine.Program.{after, with_outcome, go_on, ◌>>=◌, bind, pure, fail}
use oc_review_bot.Engine.Checks.{process_error, review_side_effect_error, write_review}
use oc_review_bot.Engine.Publish.{
  create_publication, publication_uncertain, or_uncertain, join_mark, uncertain, mark_posted,
  send_unless_found,
}
use oc_review_bot.Engine.Settlement.{Holds, Holds-bind, Holds-weaken, unsettled_after}
use oc_review_bot.Engine.Settlement.Tidy.{
  Strict, Tidy, tidy_on, Tidy-pure, Quiet-create_publication,
}
use oc_review_bot.Engine.Settlement.Rules.{Quiet, quiet_rules, Same, and_false}
use oc_review_bot.Engine.Settlement.Checks.{Quiet-process_error, Quiet-review_side_effect_error}

module _ {A : Type 0} where
  abbrev is_failed : Outcome A → Bool
  is_failed (value a) = false
  is_failed (failed e) = true

  abbrev Failed : Bool → Outcome A × Review → Type 0
  Failed b (out, r) = b ≡ true → is_failed out ≡ true

joined :
    (A : Type 0) (id : ℕ) (b : Bool) (e : Failure) (x : Outcome Bool) (r : Review)
    → Holds id Strict b (join_mark {A = A} e x r)
unfolding Holds fail
joined A id b e (value y) r = λ h. refl
joined A id b e (failed f) r = λ h. refl

module _ (id : ℕ) (p : Publication) where
  -- What an unsettled publication says of `p`
  abbrev Matches : Bool → Type 0
  Matches b = b ≡ true → (p.id == id) ≡ true

  abbrev Loose : {A : Type 0} → Bool → Outcome A × Review → Type 0
  Loose b (value a, r) = Matches b
  Loose b (failed e, r) = b ≡ true → errors_is is_publication_reconcile e ≡ true

  uncertain_strict :
      (A : Type 0) (b : Bool) (e : Failure) (r : Review)
      → Holds id Strict b (publication_uncertain {A = A} p e r)
  unfolding publication_uncertain after write_review bind Holds
  uncertain_strict A b e r = (and_false b, λ x. joined A id b e x r)

  or_uncertain_strict :
      {A : Type 0} (b : Bool) (q : Outcome A × Review)
      → Failed b q
      → Holds id Strict b (with_outcome (or_uncertain p) q)
  unfolding Holds pure
  or_uncertain_strict b (value a, r) h = h
  or_uncertain_strict b (failed e, r) h = uncertain_strict _ b e r

  closing :
      (comment_id : ℕ) (b : Bool) (x : Outcome Bool) (r : Review)
      → Matches b
      → Failed
          (unsettled_after id b
            (Work.mark_publication_posted r.id r.execution_generation p.id comment_id)
            x)
          (x, r)
  closing comment_id true (value y) r h = λ k. ground (arith, h refl)
  closing comment_id false (value y) r h = λ k. ground arith
  closing comment_id b (failed e) r h = λ k. refl

  close :
      (comment_id : ℕ) (b b' : Bool) (q : Outcome (Unit {0}) × Review)
      → Matches b
      → b' ≡ b
      → Holds id Failed b' (go_on (λ u. mark_posted p comment_id) q)
  unfolding Holds write_review
  close comment_id b b' (value u, r) h e = rw e (and_false b, λ x. closing comment_id b x r h)
  close comment_id b b' (failed f, r) h e = λ k. refl

  uncertain_close :
      (comment_id : ℕ) (b : Bool) (r : Review)
      → Matches b
      → Holds id Strict b (uncertain p (process_error >>= λ u. mark_posted p comment_id) r)
  unfolding after ◌>>=◌
  uncertain_close comment_id b r h =
      Holds-bind id _ (with_outcome (or_uncertain p)) Failed Strict b
        (Holds-bind id (process_error r) _ (Same b) Failed b (Quiet-process_error.at b r)
          (λ b' q e. close comment_id b b' q h e))
        or_uncertain_strict

  strict-Loose : {A : Type 0} (b : Bool) (q : Outcome A × Review) → Strict b q → Loose b q
  strict-Loose true (value a, r) h = ground (arith, h refl)
  strict-Loose false (value a, r) h = λ k. ground arith
  strict-Loose b (failed e, r) h = h

  loosen :
      {A : Type 0} (b b' : Bool) (q : Outcome A × Review)
      → Matches b
      → b' ≡ b
      → Holds id Loose b' (with_outcome (or_uncertain p) q)
  unfolding Holds pure
  loosen b b' (value a, r) h e = λ k. h (sym e ∙ k)
  loosen b b' (failed e, r) h k =
      Holds-weaken id _ Strict Loose b' (uncertain_strict _ b' e r) strict-Loose

  module _ (equal_fold : Bytes → Bytes → Bool) (digest : Bytes → Bytes) where
    Quiet-post : Quiet id (review_side_effect_error >>= λ u. create_publication p)
    Quiet-post = search (quiet_rules, Quiet-review_side_effect_error, Quiet-create_publication)

    post-Loose :
        (b : Bool) (r : Review)
        → Matches b
        → Holds id Loose b (uncertain p (review_side_effect_error >>= λ u. create_publication p) r)
    unfolding after
    post-Loose b r h =
        Holds-bind id _ (with_outcome (or_uncertain p)) (Same b) Loose b (Quiet-post.at b r)
          (λ b' q e. loosen b b' q h e)

    after_begin :
        (x : Outcome Bool) (r : Review)
        → Holds id Loose
            (unsettled_after id false
              (Work.begin_publication_send r.id r.execution_generation p.id)
              x)
            (go_on
              (λ v. uncertain p (review_side_effect_error >>= λ w. create_publication p))
              (x, r))
    unfolding Holds
    after_begin (value y) r = post-Loose (p.id == id) r (λ k. k)
    after_begin (failed e) r = λ k. ground arith

    begun-Loose :
        (b : Bool) (q : Outcome (Unit {0}) × Review)
        → b ≡ false
        → Holds id Loose b (
            go_on
              (λ u.
                write_review (λ r. Work.begin_publication_send r.id r.execution_generation p.id)
                >>= λ v. uncertain p (review_side_effect_error >>= λ w. create_publication p))
              q)
    unfolding ◌>>=◌ write_review bind Holds
    begun-Loose b (value u, r) e = rw e (refl, λ x. after_begin x r)
    begun-Loose b (failed f, r) e = λ k. ground arith

    send-Loose :
        (found : Option ℕ) (r : Review)
        → Holds id Loose false (send_unless_found equal_fold digest p found r)
    unfolding send_unless_found pure Holds ◌>>=◌
    send-Loose (some comment_id) r = λ k. ground arith
    send-Loose none r =
        Holds-bind id (review_side_effect_error r) _ (Same false) Loose false
          (Quiet-review_side_effect_error.at false r) begun-Loose

    close_all :
        (b : Bool) (q : Outcome ℕ × Review)
        → Loose b q
        → Holds id Strict b (
            go_on
              (λ comment_id.
                uncertain p (process_error >>= λ u. mark_posted p comment_id) >>= λ v. pure tt)
              q)
    unfolding Holds ◌>>=◌
    close_all b (value comment_id, r) h =
        Holds-bind id _ (go_on (λ v. pure tt)) Strict Strict b (uncertain_close comment_id b r h)
          (λ b' q k. tidy_on _ b' q (λ v. Tidy-pure tt) k)
    close_all b (failed e, r) h = h

    -- The send and its settlement
    pub Tidy-send :
        (found : Option ℕ)
        → Tidy id (
            send_unless_found equal_fold digest p found >>= λ comment_id.
            uncertain p (process_error >>= λ u. mark_posted p comment_id) >>= λ v. pure tt)
    unfolding ◌>>=◌
    Tidy-send found = record {
      at = λ r.
          Holds-bind id (send_unless_found equal_fold digest p found r) _ Loose Strict false
            (send-Loose found r) close_all;
    }
