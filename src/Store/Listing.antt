-- ===== src/Store/Listing.antt =====
-- internal/store/reviews.go: ListReviewPublications.
pub mod Order
use oc_review_bot.Common.{ℕ, Bool, not, ◌&&◌, ◌||◌, List, [], ◌∷◌, ltb, ◌==◌, if◌then◌else◌}
use oc_review_bot.Store.Schema.{Db, Publication, is_summary}
use oc_review_bot.Store.Table.{all_where}

-- ORDER BY CASE kind WHEN 'summary' THEN 0 ELSE 1 END, ordinal
abbrev pub is_listed_before : Publication → Publication → Bool
is_listed_before p q =
    is_summary p.kind && not (is_summary q.kind)
    || (is_summary p.kind || not (is_summary q.kind)) && ltb p.ordinal q.ordinal

unfoldable pub insert_ordered : Publication → List Publication → List Publication
insert_ordered p [] = p ∷ []
insert_ordered p (q ∷ qs) =
    let rest = insert_ordered p qs in if is_listed_before q p then q ∷ rest else p ∷ q ∷ qs

unfoldable pub order_publications : List Publication → List Publication
unfolding insert_ordered
order_publications [] = []
order_publications (p ∷ ps) = insert_ordered p (order_publications ps)

unfoldable pub list_review_publications : ℕ → Db → List Publication
unfolding order_publications
list_review_publications review_id db =
    order_publications (all_where (λ p. p.review_id == review_id) db.publications)
