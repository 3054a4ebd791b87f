-- ===== src/Engine/Budget/Nudge.antt =====
-- internal/bot/engine.go: the worker of an access notification posts no publication.
use oc_review_bot.Common.{
  ℕ, ◌+◌, ◌-◌, Bool, true, false, ◌≡◌, refl, none, some, Option, Bytes, arith, if◌then◌else◌,
}
use oc_review_bot.Store.Schema.{Nudge, PublicationKind, Db}
use oc_review_bot.Store.Tx.{Result}
use oc_review_bot.Store.History.{Work}
use oc_review_bot.Server.Webhook.{Config}
use oc_review_bot.Engine.Errors.{Failure, Outcome, value, failed}
use oc_review_bot.Engine.Program.{Program, Pr, Request, nudge_post, bind}
use oc_review_bot.Engine.Checks.{may_process}
use oc_review_bot.Engine.Nudge.{
  Copy, End, fail_nudge, handle_nudge_error, or_handled, verify_target, after_last_mark,
  after_nudge_mark, complete_nudge, send_nudge, after_search, process_claimed_nudge,
}
use oc_review_bot.Engine.Budget.{Covers, Covers-bind, Covers-more, starts_send}
use oc_review_bot.Engine.Budget.Worker.{covers_may_process}

-- A program that needs no credit.
pub record Unpaid (id : ℕ) (m : End) : Type 0 where
  pub at : (k : ℕ) → Covers id k k m

module _ {id : ℕ} where
  Unpaid-done : Unpaid id (Program.done tt)
  unfolding Covers
  Unpaid-done = record { at = λ k. omega arith }

  Unpaid-if :
      {yes no : End} (b : Bool) → Unpaid id yes → Unpaid id no → Unpaid id (if b then yes else no)
  Unpaid-if true c d = c
  Unpaid-if false c d = d

  Unpaid-lease_owned :
      (f : Bool → End) → ((x : Bool) → Unpaid id (f x)) → Unpaid id (Program.lease_owned f)
  unfolding Covers
  Unpaid-lease_owned f c = record { at = λ k x. (c x).at k }

  Unpaid-write :
      (owner : Bytes) (fence : ℕ) (w : Work) (f : Outcome Bool → End)
      → starts_send id w ≡ false
      → ((x : Outcome Bool) → Unpaid id (f x))
      → Unpaid id (Program.write owner fence w f)
  unfolding Covers
  Unpaid-write owner fence w f h c = record {
    at = λ k x. rw h (Covers-more id (f x) k (0 + k) k (omega arith) ((c x).at k));
  }

  Unpaid-inspect :
      (t : ℕ → Db → Result Bool) (f : Outcome Bool → End)
      → ((x : Outcome Bool) → Unpaid id (f x))
      → Unpaid id (Program.inspect t f)
  unfolding Covers
  Unpaid-inspect t f c = record { at = λ k x. (c x).at k }

  Unpaid-request :
      (q : Request) (f : Outcome Bytes → End)
      → ((x : Outcome Bytes) → Unpaid id (f x))
      → Unpaid id (Program.request q f)
  unfolding Covers
  Unpaid-request q f c = record { at = λ k x. (c x).at k }

  Unpaid-get_pr :
      (repo : Bytes) (n : ℕ) (f : Outcome Pr → End)
      → ((x : Outcome Pr) → Unpaid id (f x))
      → Unpaid id (Program.get_pr repo n f)
  unfolding Covers
  Unpaid-get_pr repo n f c = record { at = λ k x. (c x).at k }

  Unpaid-find_marker :
      (kind : PublicationKind) (repo : Bytes) (n : ℕ) (marker : Bytes)
      (f : Outcome (Option ℕ) → End)
      → ((x : Outcome (Option ℕ)) → Unpaid id (f x))
      → Unpaid id (Program.find_marker kind repo n marker f)
  unfolding Covers
  Unpaid-find_marker kind repo n marker f c = record { at = λ k x. (c x).at k }

  Unpaid-create_comment :
      (nudge : Nudge) (repo : Bytes) (n : ℕ) (f : Outcome ℕ → End)
      → ((x : Outcome ℕ) → Unpaid id (f x))
      → Unpaid id (Program.create_comment (nudge_post nudge) repo n f)
  unfolding Covers
  Unpaid-create_comment nudge repo n f c = record {
    at = λ k. (omega arith, λ x. Covers-more id (f x) k (k - 0) k (omega arith) ((c x).at k));
  }

  Unpaid-may :
      (f : Bool → End) → ((may : Bool) → Unpaid id (f may)) → Unpaid id (bind may_process f)
  Unpaid-may f c = record {
    at = λ k. Covers-bind id may_process f k k k (covers_may_process id k) (λ may. (c may).at k);
  }

ruleset node_rules = (
  Unpaid-if, Unpaid-done, Unpaid-lease_owned, Unpaid-write, Unpaid-inspect, Unpaid-request,
  Unpaid-get_pr, Unpaid-find_marker, Unpaid-create_comment, Unpaid-may, refl,
)

module _ {id : ℕ} where
  Unpaid-fail_nudge : (c : Copy) → Unpaid id (fail_nudge c)
  unfolding fail_nudge
  Unpaid-fail_nudge c = search node_rules

  Unpaid-handle_nudge_error : (c : Copy) (e : Failure) → Unpaid id (handle_nudge_error c e)
  unfolding handle_nudge_error
  Unpaid-handle_nudge_error c e = search (node_rules, Unpaid-fail_nudge) depth 12

  Unpaid-or_handled :
      {A : Type 0} (c : Copy) (next : A → End)
      → ((a : A) → Unpaid id (next a))
      → (out : Outcome A) → Unpaid id (or_handled c next out)
  Unpaid-or_handled c next d (value a) = d a
  Unpaid-or_handled c next d (failed e) = Unpaid-handle_nudge_error c e

  Unpaid-verify_target :
      (c : Copy) (next : Copy → End)
      → ((v : Copy) → Unpaid id (next v))
      → Unpaid id (verify_target c next)
  Unpaid-verify_target c next d = search (node_rules, Unpaid-or_handled, d) depth 12

  Unpaid-after_last_mark : (c : Copy) (out : Outcome Bool) → Unpaid id (after_last_mark c out)
  Unpaid-after_last_mark c (value b) = search node_rules
  Unpaid-after_last_mark c (failed e) = search (node_rules, Unpaid-handle_nudge_error)

  Unpaid-after_nudge_mark : (c : Copy) (out : Outcome Bool) → Unpaid id (after_nudge_mark c out)
  Unpaid-after_nudge_mark c (value b) = search node_rules
  Unpaid-after_nudge_mark c (failed e) = Unpaid-handle_nudge_error c e

  Unpaid-complete_nudge : (c : Copy) (comment_id : ℕ) → Unpaid id (complete_nudge c comment_id)
  Unpaid-complete_nudge c comment_id =
      search (node_rules, Unpaid-after_last_mark, Unpaid-handle_nudge_error)

  Unpaid-send_nudge : (c : Copy) → Unpaid id (send_nudge c complete_nudge)
  Unpaid-send_nudge c =
      search (node_rules, Unpaid-or_handled, Unpaid-handle_nudge_error, Unpaid-complete_nudge) depth
        16

  Unpaid-after_search :
      (c : Copy) (reconciling : Bool) (found : Option ℕ)
      → Unpaid id (after_search c reconciling found)
  Unpaid-after_search c true none = search node_rules
  Unpaid-after_search c true (some comment_id) = search (node_rules, Unpaid-after_nudge_mark)
  Unpaid-after_search c false (some comment_id) = Unpaid-complete_nudge c comment_id
  Unpaid-after_search c false none = search (node_rules, Unpaid-verify_target, Unpaid-send_nudge)

  pub Unpaid-process_claimed_nudge :
      (cfg : Config) (n : Nudge) (reconciling : Bool)
      → Unpaid id (process_claimed_nudge cfg n reconciling)
  unfolding process_claimed_nudge
  Unpaid-process_claimed_nudge cfg n reconciling =
      search
        (
          node_rules, Unpaid-or_handled, Unpaid-verify_target, Unpaid-fail_nudge,
          Unpaid-after_search,
        )
        depth 30
