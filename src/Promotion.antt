-- ===== src/Promotion.antt =====
-- src/application/service/promotion_write_service.rs, with the ports of promotion_approvals_port.rs:
-- the verbs on a promotion. The engine's filing port and verdicts and the appraisal validation are
-- parameters; fresh ids and today's date are arguments.
pub mod Errors
pub mod Outcomes
pub mod Creation
pub mod Ledger
use backbone_lifecycle.Prelude.{
  ℕ, List, [], ◌∷◌, ◌++◌, String, Bool, true, false, not, ◌&&◌, Option, none, some, Result, ok, err,
  map_err, ok_or, ltb, ◌==◌, str_eq, if◌then◌else◌, find?, update_rows, count_rows, select_rows,
}
use backbone_lifecycle.Prelude.Verbs.{
  World, Verb, ◌>>=◌, ◌>>◌, pure, raise, raise_if, lift, query, fetch, execute, transaction,
}
use backbone_lifecycle.Crates.Decimals.{Decimals}
use backbone_lifecycle.Crates.Calendar.{Calendar, lt_date}
use backbone_lifecycle.Settlement.Assembly.{db_error}
use backbone_lifecycle.Store.{Tables}
use backbone_lifecycle.Store.Joining.{
  PromotionStatus, PromotionType, promotion, transfer, demotion, lateral, Promotion,
}
use backbone_lifecycle.Store.Outbox.{OutboxRow, promotion_effective}
use backbone_lifecycle.Store.Effects.{Effect, PromotionFiling, promotion_filed}
use backbone_lifecycle.Offboarding.{stage}
use Errors.{
  PromotionEffectError, appraisal_unverified, not_found, invalid_state, not_approved,
  not_yet_effective, not_pending, no_company_scope, db, Gate, no_request, not_granted, unread,
}

pub data PromotionVerdict : Type 0 where
  pending approved rejected : PromotionVerdict

pub data PromotionSeamError : Type 0 where
  unwired : PromotionSeamError
  unknown_approval_request : ℕ → PromotionSeamError
  transport : String → PromotionSeamError

abbrev pub is_pending : PromotionStatus → Bool
is_pending PromotionStatus.pending = true
is_pending _ = false

abbrev pub is_approved : PromotionStatus → Bool
is_approved PromotionStatus.approved = true
is_approved _ = false

abbrev pub is_effective : PromotionStatus → Bool
is_effective PromotionStatus.effective = true
is_effective _ = false

-- The labels of the database enum.
abbrev pub promotion_type_of : String → Option PromotionType
promotion_type_of s =
    if str_eq s "promotion"
    then some promotion
    else if str_eq s "transfer"
    then some transfer
    else if str_eq s "demotion"
    then some demotion
    else if str_eq s "lateral"
    then some lateral
    else none

-- `NULLIF($3, '')::promotion_type` into a column that is NOT NULL: a text that is absent or empty
-- is NULL, and the statement fails on it as it does on an unknown label.
abbrev pub stored_type : Option String → Option PromotionType
stored_type none = none
stored_type (some s) = if str_eq s "" then none else promotion_type_of s

-- What a filing calls the type.
abbrev pub file_type : Option String → String
file_type none = "promotion"
file_type (some s) = s

-- The engine's answer on an approval request, as the gate takes it.
unfoldable pub granted :
    {Date : Type 0}
    → Result PromotionSeamError PromotionVerdict
    → Result (PromotionEffectError Date) (Unit {0})
granted (ok PromotionVerdict.approved) = ok tt
granted (ok _) = err (invalid_state not_granted)
granted (err _) = err (invalid_state unread)

module _ (C : Calendar) (D : Decimals) where
  open C use {NaiveDate}
  open D use {Decimal}

  abbrev pub Failure : Type 0
  Failure = PromotionEffectError NaiveDate

  abbrev pub Action : Type 0 → Type 0
  Action A = Verb (Tables C D) (Effect NaiveDate Decimal) Failure A

  pub record NewPromotion : Type 0 where
    pub employee_id : ℕ
    pub promotion_type : Option String
    pub position_id_from : Option ℕ
    pub position_id_to : Option ℕ
    pub level_id_from : Option ℕ
    pub level_id_to : Option ℕ
    pub department_id_from : Option ℕ
    pub department_id_to : Option ℕ
    pub proposed_salary : Option Decimal
    pub effective_date : NaiveDate
    pub requested_by : Option ℕ
    pub reason : Option String
    pub appraisal_id : Option ℕ

  -- `validate`: an appraisal and an employee to the rating, or to what is wrong.
  abbrev pub PromotionValidationPort : Type 0
  PromotionValidationPort = ℕ → ℕ → Result String (Option Decimal)

  -- `file`, knowing what was sent before.
  abbrev pub PromotionFilingPort : Type 0
  PromotionFilingPort =
      List (Effect NaiveDate Decimal) → PromotionFiling NaiveDate → Result PromotionSeamError ℕ

  unfoldable pub unwired_promotion_approvals : PromotionFilingPort
  unwired_promotion_approvals _ _ = err unwired

  -- The merit gate; `none` is a port that is not wired.
  unfoldable pub appraisal_rating :
      Option PromotionValidationPort → Option ℕ → ℕ → Result Failure (Option Decimal)
  appraisal_rating port none employee_id = ok none
  appraisal_rating (some port) (some appraisal_id) employee_id =
      map_err appraisal_unverified (port appraisal_id employee_id)
  appraisal_rating none (some appraisal_id) employee_id = err (
      appraisal_unverified
        "the appraisal validation seam is not wired — supply a PromotionValidationPort or file without an appraisal reference")

  abbrev pub is_promotion : ℕ → Promotion C D → Bool
  is_promotion id p = p.id == id

  abbrev pub update_promotion : ℕ → (Promotion C D → Promotion C D) → Tables C D → Tables C D
  update_promotion id f t = record t { promotions = update_rows (is_promotion id) f t.promotions }

  -- The row of the INSERT.
  abbrev pub requested_row : ℕ → NewPromotion → PromotionType → Option Decimal → Promotion C D
  requested_row id input type rating = record {
    id = id;
    employee_id = input.employee_id;
    promotion_type = type;
    position_id_from = input.position_id_from;
    position_id_to = input.position_id_to;
    level_id_from = input.level_id_from;
    level_id_to = input.level_id_to;
    department_id_from = input.department_id_from;
    department_id_to = input.department_id_to;
    proposed_salary = input.proposed_salary;
    effective_date = input.effective_date;
    status = PromotionStatus.pending;
    requested_by = input.requested_by;
    approved_by = none;
    reason = input.reason;
    appraisal_id = input.appraisal_id;
    appraisal_rating = rating;
    approval_request_id = none;
  }

  abbrev pub insert_promotion : Promotion C D → Tables C D → Tables C D
  insert_promotion p t = record t { promotions = t.promotions ++ p ∷ [] }

  -- DELETE FROM lifecycle.promotions WHERE id = $1
  abbrev pub delete_promotion : ℕ → Tables C D → Tables C D
  delete_promotion id t = record t {
    promotions = select_rows (λ p. not (is_promotion id p)) t.promotions;
  }

  abbrev pub filing_of : ℕ → NewPromotion → PromotionFiling NaiveDate
  filing_of id input = record {
    promotion_id = id;
    employee_id = input.employee_id;
    promotion_type = file_type input.promotion_type;
    effective_date = input.effective_date;
    position_id_to = input.position_id_to;
    level_id_to = input.level_id_to;
    department_id_to = input.department_id_to;
  }

  -- The port is called, and its answer is a value.
  abbrev pub file :
      PromotionFilingPort → PromotionFiling NaiveDate → Action (Result PromotionSeamError ℕ)
  file port filing w =
      (ok (port w.sent filing), record w { sent = w.sent ++ promotion_filed filing ∷ [] })

  -- What follows the filing: the link, nothing when the port is not wired, or the compensating
  -- delete in a transaction of its own.
  unfoldable pub settle_filing : ℕ → Result PromotionSeamError ℕ → Action ℕ
  settle_filing id (ok request_id) =
      execute (update_promotion id λ p. record p { approval_request_id = some request_id })
      >> pure id
  settle_filing id (err unwired) = pure id
  settle_filing id (err _) = execute (delete_promotion id) >> raise (db db_error)

  unfoldable pub create :
      Option PromotionValidationPort → PromotionFilingPort → ℕ → NewPromotion → Action ℕ
  create validation port id input = do
    rating ← lift (appraisal_rating validation input.appraisal_id input.employee_id)
    transaction do
      type ← fetch (λ _. stored_type input.promotion_type) (db db_error)
      execute (insert_promotion (requested_row id input type rating))
    answer ← file port (filing_of id input)
    settle_filing id answer

  unfoldable pub approve :
      (status : ℕ → Result PromotionSeamError PromotionVerdict) → ℕ → Option ℕ → Action Bool
  approve status promotion_id approved_by = transaction do
    p ← fetch (λ t. find? (is_promotion promotion_id) t.promotions) (not_found promotion_id)
    request_id ← lift (ok_or p.approval_request_id (invalid_state no_request))
    lift (granted (status request_id))
    if is_approved p.status then pure false else do
      raise_if (not (is_pending p.status)) (not_pending promotion_id p.status)
      execute (
          update_promotion promotion_id
            λ p. record p { status = PromotionStatus.approved; approved_by = approved_by })
      pure true

  abbrev pub is_pending_promotion : ℕ → Promotion C D → Bool
  is_pending_promotion id p = (p.id == id) && is_pending p.status

  -- UPDATE … SET status = 'rejected' WHERE id = $1 AND status = 'pending'
  unfoldable pub reject : ℕ → Action Bool
  reject promotion_id = transaction do
    moved ← query (λ t. count_rows (is_pending_promotion promotion_id) t.promotions)
    execute (λ t. record t {
      promotions =
          update_rows (is_pending_promotion promotion_id)
            (λ p. record p { status = PromotionStatus.rejected }) t.promotions;
    })
    pure (ltb 0 moved)

  -- The staged event.
  abbrev pub effective_event : ℕ → ℕ → ℕ → Promotion C D → OutboxRow C D
  effective_event event_id company_id promotion_id p = promotion_effective (record {
    event_id = event_id;
    company_id = company_id;
    promotion_id = promotion_id;
    employee_id = p.employee_id;
    promotion_type = p.promotion_type;
    position_id_from = p.position_id_from;
    position_id_to = p.position_id_to;
    level_id_from = p.level_id_from;
    level_id_to = p.level_id_to;
    department_id_from = p.department_id_from;
    department_id_to = p.department_id_to;
    proposed_salary = p.proposed_salary;
    effective_date = p.effective_date;
  })

  abbrev pub make_effective : ℕ → Tables C D → Tables C D
  make_effective id = update_promotion id λ p. record p { status = PromotionStatus.effective }

  unfoldable pub effect : Option ℕ → ℕ → NaiveDate → ℕ → Action (Option ℕ)
  effect company event_id today promotion_id = do
    company_id ← lift (ok_or company no_company_scope)
    transaction do
      p ← fetch (λ t. find? (is_promotion promotion_id) t.promotions) (not_found promotion_id)
      if is_effective p.status then pure none else do
        raise_if (not (is_approved p.status)) (not_approved promotion_id p.status)
        raise_if (lt_date C today p.effective_date)
            (not_yet_effective promotion_id p.effective_date)
        execute (make_effective promotion_id)
        execute (stage C D (effective_event event_id company_id promotion_id p))
        pure (some event_id)
