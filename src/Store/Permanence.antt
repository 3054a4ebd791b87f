-- ===== src/Store/Permanence.antt =====
-- What stays of a row over any history: its identity, its content, and all of it once it is
-- settled.
use oc_review_bot.Common.{ℕ, ◌≤◌, ◌≡◌, refl, List, arith}
use oc_review_bot.Store.Schema.{
  Db, Review, ReviewStatus, done, failed, Publication, PublicationStatus, posted, Nudge,
  NudgeStatus, progress,
}
use oc_review_bot.Store.Table.{Evolves, Evolves-refl, Evolves-update_where, Evolves-append}
use oc_review_bot.Store.Frame.{
  Frame, LeaseFrame, PurgeFrame, SameReview, ReviewWrite, ReviewDone, PublicationWrite, NudgeWrite,
}
use oc_review_bot.Store.History.{Call, run}
use oc_review_bot.Store.History.Induction.{run-keeps}

abbrev pub FrozenReview : ReviewStatus → Review → Review → Type 0
FrozenReview done r s = s ≡ r
FrozenReview failed r s = s ≡ r
FrozenReview _ r s = Unit

-- A review and a later state of it: its identity, request, time and token are the same, its
-- generation has not fallen, and it is the same row if it was done or failed.
pub record LaterReview (r s : Review) : Type 0 where
  pub same : SameReview r s
  pub generation : r.execution_generation ≤ s.execution_generation
  pub frozen : FrozenReview r.status r s

abbrev pub FrozenPublication : PublicationStatus → Publication → Publication → Type 0
FrozenPublication posted p q = q ≡ p
FrozenPublication _ p q = Unit

-- A publication and a later state of it: what is to be posted is the same, its status has not
-- gone back, and it is the same row if it was posted.
pub record LaterPublication (p q : Publication) : Type 0 where
  pub same_id : q.id ≡ p.id
  pub same_review : q.review_id ≡ p.review_id
  pub same_kind : q.kind ≡ p.kind
  pub same_ordinal : q.ordinal ≡ p.ordinal
  pub same_path : q.path ≡ p.path
  pub same_side : q.side ≡ p.side
  pub same_line : q.line ≡ p.line
  pub same_marker : q.marker ≡ p.marker
  pub same_body : q.body_md ≡ p.body_md
  pub same_commit : q.commit_sha ≡ p.commit_sha
  pub onward : progress p.status ≤ progress q.status
  pub frozen : FrozenPublication p.status p q

abbrev pub FrozenNudge : NudgeStatus → Nudge → Nudge → Type 0
FrozenNudge NudgeStatus.posted n m = m ≡ n
FrozenNudge NudgeStatus.failed n m = m ≡ n
FrozenNudge _ n m = Unit

pub record LaterNudge (n m : Nudge) : Type 0 where
  pub same_id : m.id ≡ n.id
  pub same_repository : m.repository_id ≡ n.repository_id
  pub same_pr : m.pr_number ≡ n.pr_number
  pub same_requester : m.requester_github_id ≡ n.requester_github_id
  pub same_login : m.requester_login ≡ n.requester_login
  pub same_installation : m.installation_id ≡ n.installation_id
  pub same_kind : m.kind ≡ n.kind
  pub same_token : m.publication_token ≡ n.publication_token
  pub generation : n.execution_generation ≤ m.execution_generation
  pub frozen : FrozenNudge n.status n m

abbrev pub AnyRow : {A : Type 0} → A → Type 0
AnyRow a = Unit

frozen_review : (r : Review) → FrozenReview r.status r r
frozen_review r = elim r.status as (λ s. FrozenReview s r r) [
  | done ↦ refl
  | failed ↦ refl
  | _ ↦ tt
]

frozen_publication : (p : Publication) → FrozenPublication p.status p p
frozen_publication p = elim p.status as (λ s. FrozenPublication s p p) [ posted ↦ refl | _ ↦ tt ]

frozen_nudge : (n : Nudge) → FrozenNudge n.status n n
frozen_nudge n = elim n.status as (λ s. FrozenNudge s n n) [
  | NudgeStatus.posted ↦ refl
  | NudgeStatus.failed ↦ refl
  | _ ↦ tt
]

review_onward : {q s t : Review} → LaterReview q s → ReviewWrite s t → LaterReview q t
review_onward l w = ground arith

done_onward :
    {q s t : Review} (publications : List Publication)
    → LaterReview q s
    → ReviewDone publications s t
    → LaterReview q t
done_onward publications l w = ground arith

publication_onward :
    {o p q : Publication} → LaterPublication o p → PublicationWrite p q → LaterPublication o q
publication_onward l w = ground arith

nudge_onward : {o n m : Nudge} → LaterNudge o n → NudgeWrite n m → LaterNudge o m
nudge_onward l w = ground arith

later_review : (r : Review) → LaterReview r r
later_review r = record {
  same = record {
    same_id = refl;
    same_repository = refl;
    same_pr = refl;
    same_requester = refl;
    same_login = refl;
    same_installation = refl;
    same_trigger = refl;
    same_creation = refl;
    same_token = refl;
  };
  generation = omega arith;
  frozen = frozen_review r;
}

later_publication : (p : Publication) → LaterPublication p p
later_publication p = record {
  same_id = refl;
  same_review = refl;
  same_kind = refl;
  same_ordinal = refl;
  same_path = refl;
  same_side = refl;
  same_line = refl;
  same_marker = refl;
  same_body = refl;
  same_commit = refl;
  onward = omega arith;
  frozen = frozen_publication p;
}

later_nudge : (n : Nudge) → LaterNudge n n
later_nudge n = record {
  same_id = refl;
  same_repository = refl;
  same_pr = refl;
  same_requester = refl;
  same_login = refl;
  same_installation = refl;
  same_kind = refl;
  same_token = refl;
  generation = omega arith;
  frozen = frozen_nudge n;
}

-- The tables of `db` come from those of `start`: each old row is kept in its place as a later
-- state of it, and new rows stand behind them.
pub record LaterDb (start db : Db) : Type 0 where
  pub reviews : Evolves LaterReview AnyRow start.reviews db.reviews
  pub publications : Evolves LaterPublication AnyRow start.publications db.publications
  pub nudges : Evolves LaterNudge AnyRow start.nudges db.nudges

module _ (start : Db) where
  later_frame : Frame (LaterDb start)
  later_frame = record {
    reviews = λ test f db w h. record {
      reviews =
          Evolves-update_where test f (λ q r t l. review_onward l (w r t)) (λ r n t. tt) h.reviews;
      publications = h.publications;
      nudges = h.nudges;
    };
    completion = λ test f db w h. record {
      reviews =
          Evolves-update_where test f (λ q r t l. done_onward db.publications l (w r t))
            (λ r n t. tt) h.reviews;
      publications = h.publications;
      nudges = h.nudges;
    };
    publications = λ test f db w h. record {
      reviews = h.reviews;
      publications =
          Evolves-update_where test f (λ o p t l. publication_onward l (w p t)) (λ r n t. tt)
            h.publications;
      nudges = h.nudges;
    };
    nudges = λ test f db w h. record {
      reviews = h.reviews;
      publications = h.publications;
      nudges =
          Evolves-update_where test f (λ o n t l. nudge_onward l (w n t)) (λ r n t. tt) h.nudges;
    };
    findings =
        λ fs db h. record { reviews = h.reviews; publications = h.publications; nudges = h.nudges };
    deliveries = λ ds db e h. record {
      reviews = h.reviews;
      publications = h.publications;
      nudges = h.nudges;
    };
    new_review = λ r db i q c h. record {
      reviews = Evolves-append r tt h.reviews;
      publications = h.publications;
      nudges = h.nudges;
    };
    new_publication = λ p db i q c h. record {
      reviews = h.reviews;
      publications = Evolves-append p tt h.publications;
      nudges = h.nudges;
    };
    new_nudge = λ n db i q h. record {
      reviews = h.reviews;
      publications = h.publications;
      nudges = Evolves-append n tt h.nudges;
    };
  }

  later_leases : LeaseFrame (LaterDb start)
  later_leases = record {
    lease = λ l db le h. record {
      reviews = h.reviews;
      publications = h.publications;
      nudges = h.nudges;
    };
  }

  later_purges : PurgeFrame (LaterDb start)
  later_purges = record {
    purge =
        λ ds db h. record { reviews = h.reviews; publications = h.publications; nudges = h.nudges };
  }

-- Over any history no row of the queues is lost. A review keeps its id, its repository's id and
-- pull request, its installation, requester (id and login), comment, creation time and publication
-- token, its generation never falls, and it never changes again once it is done or failed. A
-- publication keeps its id, review, kind and ordinal and what it posts (marker, body, commit, path,
-- side and line), its status never goes back, and it never changes again once it is posted. A
-- notification keeps its id, its repository's id and pull request, its installation, requester (id
-- and login), kind and token, its generation never falls, and it never changes again once it is
-- posted or failed.
pub rows_are_permanent : (cs : List (ℕ × Call)) (db : Db) → LaterDb db (run cs db)
rows_are_permanent cs db =
    run-keeps (later_frame db) (later_leases db) (later_purges db) cs db (record {
      reviews = Evolves-refl later_review db.reviews;
      publications = Evolves-refl later_publication db.publications;
      nudges = Evolves-refl later_nudge db.nudges;
    })
