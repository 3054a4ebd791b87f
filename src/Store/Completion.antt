-- ===== src/Store/Completion.antt =====
-- What it means that a review is done.
use oc_review_bot.Common.{
  ℕ, ◌+◌, ◌≤◌, ◌≡◌, ◌⊎◌, refl, inl, inr, Bool, true, false, not, ◌&&◌, List, [], ◌∷◌, ◌++◌, arith,
  leb, ◌==◌, if◌then◌else◌, Bool-cases,
}
use oc_review_bot.Store.Schema.{
  Db, empty_db, Review, Publication, is_done, is_running, is_posted, is_summary,
}
use oc_review_bot.Store.Table.{count_where, update_where, next_id}
use oc_review_bot.Store.Table.Counting.{
  count_where-update-le, count_where-append, next_id-update, next_id-append, any-update_false,
  any-update_true, any-append, count_where-add-le, count_where-any,
}
use oc_review_bot.Store.Reviews.{is_fully_posted}
use oc_review_bot.Store.Frame.{
  Frame, LeaseFrame, SameReview, ReviewWrite, ReviewDone, PublicationWrite, is_running_id,
}
use oc_review_bot.Store.History.{Call, run}
use oc_review_bot.Store.History.Induction.{run-keeps}

module _ (id : ℕ) where
  abbrev pub has_id : Review → Bool
  has_id r = r.id == id

  abbrev pub is_done_id : Review → Bool
  is_done_id r = r.id == id && is_done r.status

  abbrev is_running_with : Review → Bool
  is_running_with r = r.id == id && is_running r.status

  -- No review with this id is done, or every publication of it is posted.
  abbrev pub IsComplete : Db → Type 0
  IsComplete db =
      (count_where is_done_id db.reviews ≡ 0) ⊎ (is_fully_posted id db.publications ≡ true)

  -- The rows with this id, and the row that may still be inserted with it.
  abbrev rows : Db → ℕ
  rows db =
      count_where has_id db.reviews + (if leb (next_id (λ r. r.id) db.reviews) id then 1 else 0)

  record Inv (db : Db) : Type 0 where
    single : rows db ≤ 1
    complete : IsComplete db

  rows-update :
      (test : Review → Bool) (f : Review → Review) (xs : List Review)
      → ((r : Review) → test r ≡ true → SameReview r (f r))
      → (count_where has_id (update_where test f xs) ≤ count_where has_id xs)
        × (next_id (λ r. r.id) (update_where test f xs) ≡ next_id (λ r. r.id) xs)
  rows-update test f xs w = (
    count_where-update-le has_id test f (λ r t h. same_id_before (w r t) h) xs,
    next_id-update (λ r. r.id) test f (λ r t. (w r t).same_id) xs,
  )
    where
      same_id_before : {r s : Review} → SameReview r s → has_id s ≡ true → has_id r ≡ true
      same_id_before w h = ground arith

  done_before : {r s : Review} → ReviewWrite r s → is_done_id s ≡ true → is_done_id r ≡ true
  done_before w h = ground arith

  -- A completed row with this id shows that its publications are posted.
  done_before_completion :
      {r s : Review} (publications : List Publication)
      → is_fully_posted id publications ≡ false
      → ReviewDone publications r s
      → is_done_id s ≡ true
      → is_done_id r ≡ true
  done_before_completion {r} {s} publications n w h =
      let same : r.id ≡ id = ground (arith, w.same.same_id) in
      let full : is_fully_posted id publications ≡ true = rw same at w.completed in cc

  posted_after :
      (test : Publication → Bool) (f : Publication → Publication) (xs : List Publication)
      → ((p : Publication) → test p ≡ true → PublicationWrite p (f p))
      → is_fully_posted id xs ≡ true
      → is_fully_posted id (update_where test f xs) ≡ true
  unfolding is_fully_posted
  posted_after test f xs w h = ground (
    arith,
    any-update_true (λ p. p.review_id == id && (is_summary p.kind && is_posted p.status)) test f
        (λ p t k. absurd (unposted (w p t) k)) xs,
    any-update_false (λ p. p.review_id == id && not (is_posted p.status)) test f
        (λ p t k. still_unposted (w p t) k) xs,
  )
    where
      unposted :
          {p q : Publication}
          → PublicationWrite p q
          → (p.review_id == id && (is_summary p.kind && is_posted p.status)) ≡ true
          → ⊥
      unposted w k = ground arith

      still_unposted :
          {p q : Publication}
          → PublicationWrite p q
          → (q.review_id == id && not (is_posted q.status)) ≡ true
          → (p.review_id == id && not (is_posted p.status)) ≡ true
      still_unposted w k = ground arith

  posted_append :
      (p : Publication) (xs : List Publication)
      → (p.review_id == id) ≡ false
      → is_fully_posted id xs ≡ true
      → is_fully_posted id (xs ++ p ∷ []) ≡ true
  unfolding is_fully_posted
  posted_append p xs other h = ground (
    arith,
    any-append (λ q. q.review_id == id && (is_summary q.kind && is_posted q.status)) xs p,
    any-append (λ q. q.review_id == id && not (is_posted q.status)) xs p,
  )

  -- A running review and a done one with the same id would be two rows.
  done_or_running :
      (xs : List Review)
      → count_where has_id xs ≤ 1
      → is_running_id id xs ≡ true
      → count_where is_done_id xs ≡ 0
  done_or_running xs one live = ground (
    arith,
    count_where-add-le is_done_id is_running_with has_id (λ r h. ground arith) (λ r h. ground arith)
        xs,
    count_where-any is_running_with xs live,
  )

  IsComplete-after_writes :
      (test : Review → Bool) (f : Review → Review) (db : Db)
      → ((r : Review) → test r ≡ true → is_done_id (f r) ≡ true → is_done_id r ≡ true)
      → IsComplete db
      → IsComplete (record db { reviews = update_where test f db.reviews })
  IsComplete-after_writes test f db w (inl n) =
      inl (omega (arith, count_where-update-le is_done_id test f w db.reviews))
  IsComplete-after_writes test f db w (inr p) = inr p

  complete_frame : Frame Inv
  complete_frame = record {
    reviews = λ test f db w h. record {
      single = omega (arith, h.single, rows_kept test f db (λ r t. (w r t).same));
      complete = IsComplete-after_writes test f db (λ r t. done_before (w r t)) h.complete;
    };
    completion = λ test f db w h. record {
      single = omega (arith, h.single, rows_kept test f db (λ r t. (w r t).same));
      complete = elim (Bool-cases (is_fully_posted id db.publications)) [
        | inl p ↦ inr p
        | inr n ↦
            IsComplete-after_writes test f db
              (λ r t. done_before_completion db.publications n (w r t)) h.complete
      ];
    };
    publications = λ test f db w h. record {
      single = h.single;
      complete = elim h.complete [
        | inl n ↦ inl n
        | inr p ↦ inr (posted_after test f db.publications w p)
      ];
    };
    nudges = λ test f db w h. record { single = h.single; complete = h.complete };
    findings = λ fs db h. record { single = h.single; complete = h.complete };
    deliveries = λ ds db e h. record { single = h.single; complete = h.complete };
    new_review = λ r db i q c h. record {
      single = ground (
        arith,
        h.single,
        next_id-append (λ q. q.id) db.reviews r i,
        count_where-append has_id db.reviews r,
      );
      complete = elim h.complete [
        | inl n ↦ inl (ground (arith, q, count_where-append is_done_id db.reviews r))
        | inr p ↦ inr p
      ];
    };
    new_publication =
        λ p db i q c h. record { single = h.single; complete = complete_after_insert p db c h };
    new_nudge = λ n db i q h. record { single = h.single; complete = h.complete };
  }
    where
      rows_kept :
          (test : Review → Bool) (f : Review → Review) (db : Db)
          → ((r : Review) → test r ≡ true → SameReview r (f r))
          → rows (record db { reviews = update_where test f db.reviews }) ≤ rows db
      rows_kept test f db w =
          let kept = rows-update test f db.reviews w in rw kept.1 (omega (arith, kept.0))

      complete_after_insert :
          (p : Publication) (db : Db)
          → is_running_id p.review_id db.reviews ≡ true
          → Inv db
          → IsComplete (record db { publications = db.publications ++ p ∷ [] })
      complete_after_insert p db c h = elim (Bool-cases (p.review_id == id)) [
        | inl e ↦
            let same : p.review_id ≡ id = ground arith in
            inl (done_or_running db.reviews (omega (arith, h.single)) (rw same at c))
        | inr e ↦ elim h.complete [
          | inl n ↦ inl n
          | inr full ↦ inr (posted_append p db.publications e full)
        ]
      ]

  complete_leases : LeaseFrame Inv
  complete_leases = record {
    lease = λ l db le h. record { single = h.single; complete = h.complete };
  }

-- After any history of calls from the empty database, a review that is done has its summary posted
-- and none of its publications in another state than posted: for each id, no review with it is
-- done, or the publications of that review are so.
pub done_is_fully_posted : (cs : List (ℕ × Call)) (id : ℕ) → IsComplete id (run cs empty_db)
unfolding count_where next_id
done_is_fully_posted cs id =
    (run-keeps (complete_frame id) (complete_leases id)
      (record { purge = λ ds db h. record { single = h.single; complete = h.complete } }) cs
      empty_db (record { single = ground arith; complete = inl refl })).complete
