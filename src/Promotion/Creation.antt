-- ===== src/Promotion/Creation.antt =====
-- What `create` of src/application/service/promotion_write_service.rs does, branch by branch.
use backbone_lifecycle.Prelude.{
  ℕ, String, ◌≡◌, ◌≢◌, inl, inr, refl, ap, [], ◌∷◌, ◌++◌, Option, none, some, Option-cases, Result,
  Result-cases, ok, err, count_rows, update_rows-append, delete_rows-append, ==_refl,
}
use backbone_lifecycle.Crates.Decimals.{Decimals}
use backbone_lifecycle.Crates.Calendar.{Calendar}
use backbone_lifecycle.Settlement.Assembly.{db_error}
use backbone_lifecycle.Store.{Tables}
use backbone_lifecycle.Store.Effects.{promotion_filed}
use backbone_lifecycle.Store.Joining.{PromotionType, Promotion}
use backbone_lifecycle.Offboarding.Outcomes.{State}
use backbone_lifecycle.Promotion.{
  Failure, PromotionSeamError, unwired, unknown_approval_request, transport,
  PromotionValidationPort, PromotionFilingPort, NewPromotion, stored_type, appraisal_rating,
  is_promotion, update_promotion, requested_row, insert_promotion, delete_promotion, filing_of,
  create, settle_filing,
}
use backbone_lifecycle.Promotion.Errors.{db, appraisal_unverified}

module _ (C : Calendar) (D : Decimals) where
  open D use {Decimal}

  abbrev pub Filed : ℕ → NewPromotion C D → State C D → State C D
  Filed id input w = record w { sent = w.sent ++ promotion_filed (filing_of C D id input) ∷ [] }

  -- The merit gate, fail closed: without an appraisal there is no rating; with one, the rating is what
  -- a wired port verified, and a port that refuses or is not wired is an error.
  pub data Gate (validation : Option (PromotionValidationPort C D)) (appraisal : Option ℕ)
      (employee_id : ℕ) : Result (Failure C D) (Option Decimal) → Type 0 where
    unasked : appraisal ≡ none → Gate validation appraisal employee_id (ok none)
    verified :
        (check : PromotionValidationPort C D) (appraisal_id : ℕ) (rating : Option Decimal)
        → validation ≡ some check
        → appraisal ≡ some appraisal_id
        → check appraisal_id employee_id ≡ ok rating
        → Gate validation appraisal employee_id (ok rating)
    refused :
        (check : PromotionValidationPort C D) (appraisal_id : ℕ) (why : String)
        → validation ≡ some check
        → appraisal ≡ some appraisal_id
        → check appraisal_id employee_id ≡ err why
        → Gate validation appraisal employee_id (err (appraisal_unverified why))
    ungated :
        (appraisal_id : ℕ) (why : String)
        → validation ≡ none
        → appraisal ≡ some appraisal_id
        → Gate validation appraisal employee_id (err (appraisal_unverified why))

  appraisal_rating-Gate :
      (validation : Option (PromotionValidationPort C D)) (appraisal : Option ℕ) (employee_id : ℕ)
      → Gate validation appraisal employee_id
          (appraisal_rating C D validation appraisal employee_id)
  unfolding appraisal_rating
  appraisal_rating-Gate validation none employee_id = unasked refl
  appraisal_rating-Gate none (some a) employee_id = ungated a _ refl refl
  appraisal_rating-Gate (some check) (some a) employee_id =
      elim (Result-cases (check a employee_id)) [
        | inl (rating, k) ↦ rw k (verified check a rating refl refl k)
        | inr (why, k) ↦ rw k (refused check a why refl refl k)
      ]

  -- A request that passed the merit gate and names a type.
  pub record IsRequest (validation : Option (PromotionValidationPort C D))
      (input : NewPromotion C D) (type : PromotionType) (rating : Option Decimal) : Type 0 where
    pub rated : Gate validation input.appraisal_id input.employee_id (ok rating)
    pub typed : stored_type input.promotion_type ≡ some type

  -- What `create` returns, files and leaves, branch by branch.
  pub data RequestOutcome (validation : Option (PromotionValidationPort C D))
      (port : PromotionFilingPort C D) (id : ℕ) (input : NewPromotion C D) (w : State C D)
      : Result (Failure C D) ℕ × State C D → Type 0 where
    unverified :
        (e : Failure C D)
        → Gate validation input.appraisal_id input.employee_id (err e)
        → RequestOutcome validation port id input w (err e, w)
    untyped :
        (rating : Option Decimal)
        → Gate validation input.appraisal_id input.employee_id (ok rating)
        → stored_type input.promotion_type ≡ none
        → RequestOutcome validation port id input w (err (db db_error), w)
    linked :
        (type : PromotionType) (rating : Option Decimal) (request_id : ℕ)
        → IsRequest validation input type rating
        → port w.sent (filing_of C D id input) ≡ ok request_id
        → RequestOutcome validation port id input w (
          ok id,
          record (Filed id input w) {
            db =
                insert_promotion C D
                  (record (requested_row C D id input type rating) {
                    approval_request_id = some request_id;
                  })
                  w.db;
          },
        )
    unlinked :
        (type : PromotionType) (rating : Option Decimal)
        → IsRequest validation input type rating
        → port w.sent (filing_of C D id input) ≡ err unwired
        → RequestOutcome validation port id input w (
          ok id,
          record (Filed id input w) {
            db = insert_promotion C D (requested_row C D id input type rating) w.db;
          },
        )
    undone :
        (type : PromotionType) (rating : Option Decimal) (e : PromotionSeamError)
        → IsRequest validation input type rating
        → (port w.sent (filing_of C D id input) ≡ err e) × (e ≢ unwired)
        → RequestOutcome validation port id input w (err (db db_error), Filed id input w)

  linked_row :
      (id request_id : ℕ) (p : Promotion C D) (t : Tables C D)
      → count_rows (is_promotion C D p.id) t.promotions ≡ 0
      → update_promotion C D p.id
          (λ q. record q { approval_request_id = some request_id })
          (insert_promotion C D p t)
        ≡ insert_promotion C D (record p { approval_request_id = some request_id }) t
  linked_row id request_id p t fresh =
      ap (λ ps. record t { promotions = ps })
        (update_rows-append (is_promotion C D p.id) _ t.promotions p fresh (==_refl p.id))

  deleted_row :
      (p : Promotion C D) (t : Tables C D)
      → count_rows (is_promotion C D p.id) t.promotions ≡ 0
      → delete_promotion C D p.id (insert_promotion C D p t) ≡ t
  deleted_row p t fresh =
      ap (λ ps. record t { promotions = ps })
        (delete_rows-append (is_promotion C D p.id) t.promotions p fresh (==_refl p.id))

  module _ (validation : Option (PromotionValidationPort C D)) (port : PromotionFilingPort C D)
      (id : ℕ) (input : NewPromotion C D) (w : State C D)
      (fresh : count_rows (is_promotion C D id) w.db.promotions ≡ 0) where
    create_answered :
        (type : PromotionType) (rating : Option Decimal) (answer : Result PromotionSeamError ℕ)
        → appraisal_rating C D validation input.appraisal_id input.employee_id ≡ ok rating
        → IsRequest validation input type rating
        → port w.sent (filing_of C D id input) ≡ answer
        → RequestOutcome validation port id input w (create C D validation port id input w)
    unfolding create settle_filing
    create_answered type rating (ok r) e q a =
        rw (e, q.typed, a, linked_row id r (requested_row C D id input type rating) w.db fresh)
          (linked type rating r q a)
    create_answered type rating (err unwired) e q a = rw (e, q.typed, a) (unlinked type rating q a)
    create_answered type rating (err (unknown_approval_request n)) e q a =
        rw (e, q.typed, a, deleted_row (requested_row C D id input type rating) w.db fresh)
          (undone type rating (unknown_approval_request n) q (a, λ h. cc))
    create_answered type rating (err (transport s)) e q a =
        rw (e, q.typed, a, deleted_row (requested_row C D id input type rating) w.db fresh)
          (undone type rating (transport s) q (a, λ h. cc))

    create_rated :
        (rating : Option Decimal)
        → appraisal_rating C D validation input.appraisal_id input.employee_id ≡ ok rating
        → RequestOutcome validation port id input w (create C D validation port id input w)
    unfolding create
    create_rated rating e =
        let gate : Gate validation input.appraisal_id input.employee_id (ok rating) =
          rw e at (appraisal_rating-Gate validation input.appraisal_id input.employee_id) in
        elim (Option-cases (stored_type input.promotion_type)) [
          | inl k ↦ rw (e, k) (untyped rating gate k)
          | inr (type, k) ↦
              create_answered type rating _ e (record { rated = gate; typed = k }) refl
        ]

    -- Requesting a promotion under a fresh id, on every branch and for any ports. An appraisal that
    -- does not verify and a type that the database does not have leave everything alone; otherwise
    -- the request is filed once, and there is one more pending row, linked to the engine's request
    -- exactly when the engine answered one. An engine that is wired and fails takes the row back.
    pub create-RequestOutcome :
        RequestOutcome validation port id input w (create C D validation port id input w)
    unfolding create
    create-RequestOutcome =
        elim (Result-cases (appraisal_rating C D validation input.appraisal_id input.employee_id)) [
          | inl (rating, e) ↦ create_rated rating e
          | inr (e, k) ↦ rw k (
              unverified e
                (rw k at (appraisal_rating-Gate validation input.appraisal_id input.employee_id)))
        ]
