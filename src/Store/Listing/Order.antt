-- ===== src/Store/Listing/Order.antt =====
-- internal/store/reviews.go: the listing of a review's publications is in order and complete.
use oc_review_bot.Common.{
  ℕ, ◌+◌, ◌≤◌, ◌≡◌, ◌⊎◌, refl, Bool, true, false, not, ◌&&◌, ◌||◌, List, [], ◌∷◌, arith, ltb, ◌==◌,
  inl, inr, Bool-cases, if◌then◌else◌,
}
use oc_review_bot.Store.Schema.{Db, Publication, PublicationKind, summary, is_summary}
use oc_review_bot.Store.Table.{all_where, count_where}
use oc_review_bot.Store.Listing.{
  is_listed_before, insert_ordered, order_publications, list_review_publications,
}

-- How a publication and the next one of a listing stand: the summary goes before the inline
-- comments, and those of one kind go up by their ordinals.
pub data MayFollow : Publication → Publication → Type 0 where
  behind_summary :
      (p q : Publication) → p.kind ≡ summary → q.kind ≡ PublicationKind.inline → MayFollow p q
  by_ordinal : (p q : Publication) → p.kind ≡ q.kind → p.ordinal ≤ q.ordinal → MayFollow p q

pub data IsOrdered : List Publication → Type 0 where
  empty : IsOrdered []
  single : (p : Publication) → IsOrdered (p ∷ [])
  next :
      {qs : List Publication} (p q : Publication)
      → MayFollow p q
      → IsOrdered (q ∷ qs)
      → IsOrdered (p ∷ q ∷ qs)

standing :
    (k l : PublicationKind) (m n : ℕ)
    → (is_summary l && not (is_summary k) || (is_summary l || not (is_summary k)) && ltb n m)
      ≡ false
    → ((k ≡ summary) × (l ≡ PublicationKind.inline)) ⊎ ((k ≡ l) × (m ≤ n))
standing summary summary m n h = inr (refl, ground arith)
standing summary PublicationKind.inline m n h = inl (refl, refl)
standing PublicationKind.inline summary m n h = ground arith
standing PublicationKind.inline PublicationKind.inline m n h = inr (refl, ground arith)

not_before : (p q : Publication) → is_listed_before q p ≡ false → MayFollow p q
not_before p q h = elim (standing p.kind q.kind p.ordinal q.ordinal h) [
  | inl (e, k) ↦ behind_summary p q e k
  | inr (e, le) ↦ by_ordinal p q e le
]

before_once :
    (a b : Bool) (m n : ℕ)
    → (a && not b || (a || not b) && ltb m n) ≡ true
    → (b && not a || (b || not a) && ltb n m) ≡ false
before_once true true m n h = ground arith
before_once true false m n h = ground arith
before_once false true m n h = ground arith
before_once false false m n h = ground arith

before_asym : (p q : Publication) → is_listed_before q p ≡ true → is_listed_before p q ≡ false
before_asym p q h = before_once (is_summary q.kind) (is_summary p.kind) q.ordinal p.ordinal h

insert_behind :
    (p q : Publication) (qs : List Publication)
    → IsOrdered (q ∷ qs)
    → is_listed_before q p ≡ true
    → IsOrdered (q ∷ insert_ordered p qs)
unfolding insert_ordered
insert_behind p q [] o h = next q p (not_before q p (before_asym p q h)) (single p)
insert_behind p q (s ∷ qs) (next _ _ k o) h = elim (Bool-cases (is_listed_before s p)) [
  | inl e ↦ rw (e, insert_ordered) (next q s k (insert_behind p s qs o e))
  | inr e ↦
      rw (e, insert_ordered)
        (next q p (not_before q p (before_asym p q h)) (next p s (not_before p s e) o))
]

insert_ordered-IsOrdered :
    (p : Publication) (qs : List Publication) → IsOrdered qs → IsOrdered (insert_ordered p qs)
unfolding insert_ordered
insert_ordered-IsOrdered p [] o = single p
insert_ordered-IsOrdered p (q ∷ qs) o = elim (Bool-cases (is_listed_before q p)) [
  | inl e ↦ rw (e, insert_ordered) (insert_behind p q qs o e)
  | inr e ↦ rw (e, insert_ordered) (next p q (not_before p q e) o)
]

order_publications-IsOrdered : (ps : List Publication) → IsOrdered (order_publications ps)
unfolding order_publications
order_publications-IsOrdered [] = empty
order_publications-IsOrdered (p ∷ ps) =
    insert_ordered-IsOrdered p (order_publications ps) (order_publications-IsOrdered ps)

module _ (test : Publication → Bool) where
  abbrev one : Publication → ℕ
  one p = if test p then 1 else 0

  insert_counts :
      (p : Publication) (qs : List Publication)
      → count_where test (insert_ordered p qs) ≡ one p + count_where test qs
  unfolding insert_ordered count_where
  insert_counts p [] = ground arith
  insert_counts p (q ∷ qs) = elim (Bool-cases (is_listed_before q p)) [
    | inl e ↦ rw (e, insert_ordered) (ground (arith, insert_counts p qs))
    | inr e ↦ rw (e, insert_ordered) (ground arith)
  ]

  order_counts :
      (ps : List Publication) → count_where test (order_publications ps) ≡ count_where test ps
  unfolding order_publications count_where
  order_counts [] = omega arith
  order_counts (p ∷ ps) = ground (arith, insert_counts p (order_publications ps), order_counts ps)

  filter_counts :
      (mine : Publication → Bool) (ps : List Publication)
      → count_where test (all_where mine ps) ≡ count_where (λ p. mine p && test p) ps
  unfolding count_where all_where
  filter_counts mine [] = omega arith
  filter_counts mine (p ∷ ps) = elim (Bool-cases (mine p)) [
    | inl e ↦ rw (e, all_where, count_where) (ground (arith, filter_counts mine ps))
    | inr e ↦ rw (e, all_where, count_where) (ground (arith, filter_counts mine ps))
  ]

-- In the listing of a review's publications the summaries go before the inline comments, and those
-- of one kind go up by their ordinals; and any test holds of as many of its rows as of the rows of
-- that review in the table.
pub list_review_publications-IsOrdered :
    (review_id : ℕ) (db : Db) (test : Publication → Bool)
    → IsOrdered (list_review_publications review_id db)
      × (count_where test (list_review_publications review_id db)
          ≡ count_where (λ p. p.review_id == review_id && test p) db.publications)
unfolding list_review_publications
list_review_publications-IsOrdered review_id db test =
    let rows : List Publication = all_where (λ p. p.review_id == review_id) db.publications in
    (
      order_publications-IsOrdered rows,
      ground (
        arith,
        order_counts test rows,
        filter_counts test (λ p. p.review_id == review_id) db.publications,
      ),
    )
