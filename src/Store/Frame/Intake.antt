-- ===== src/Store/Frame/Intake.antt =====
-- The admission of a review keeps whatever respects the writes of `Frame`.
use oc_review_bot.Common.{
  ℕ, refl, inl, inr, [], ◌∷◌, ◌++◌, Bytes, Bool, true, false, Bool-cases, any, text_eq, arith,
  if◌then◌else◌,
}
use oc_review_bot.Store.Table.Counting.{any-append}
use oc_review_bot.Store.Schema.{Db, Review, Delivery, ReviewAdmission}
use oc_review_bot.Store.Tx.{◌>>=◌, gets, modify, commit}
use oc_review_bot.Store.Keeps.{Keeps, KeepsCall, keeps_rules}
use oc_review_bot.Store.Admission.{
  is_conflicting, claim_delivery, admit_delivery, insert_review, create_review_with_admission,
}
use oc_review_bot.Store.Frame.{Frame}

module _ {P : Db → Type 0} (frame : Frame P) where
  Keeps-recording :
      (seen : Bool) (d : Delivery)
      → Keeps P (
          modify (λ db. record db {
            deliveries = if seen then db.deliveries else db.deliveries ++ d ∷ [];
          }))
  unfolding modify
  Keeps-recording true d = record { at = λ db h. h }
  Keeps-recording false d = record {
    at = λ db h.
        frame.deliveries _ db
          (λ id seen. ground (arith, any-append (λ e. text_eq e.delivery_id id) db.deliveries d)) h;
  }

  Keeps-claim_delivery : (delivery_id : Bytes) (t : ℕ) → Keeps P (claim_delivery delivery_id t)
  unfolding claim_delivery
  Keeps-claim_delivery delivery_id t = search (keeps_rules, Keeps-recording) depth 12

  pub Keeps-admit_delivery : (delivery_id : Bytes) (t : ℕ) → Keeps P (admit_delivery delivery_id t)
  Keeps-admit_delivery delivery_id t = search (keeps_rules, Keeps-claim_delivery) depth 12

  Keeps-insert_review : (r : Review) (token : Bytes) (now : ℕ) → Keeps P (insert_review r token now)
  unfolding insert_review ◌>>=◌ gets modify commit is_conflicting
  Keeps-insert_review r token now = record {
    at = λ db h. elim (Bool-cases (any (is_conflicting r) db.reviews)) [
      | inl e ↦ rw e h
      | inr e ↦ rw e (frame.new_review _ db refl refl e h)
    ];
  }

  pub create_review_with_admission-keeps :
      (r : Review) (delivery_id : Bytes) (admission : ReviewAdmission) (token : Bytes) (now : ℕ)
      → KeepsCall P (create_review_with_admission r delivery_id admission token now)
  unfolding create_review_with_admission
  create_review_with_admission-keeps r delivery_id admission token now =
      search (keeps_rules, Keeps-admit_delivery, Keeps-insert_review) depth 14
