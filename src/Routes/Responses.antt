-- ===== src/Routes/Responses.antt =====
-- The responses of src/presentation/http/guarded_routes.rs, less their messages.
use backbone_lifecycle.Prelude.{
  ℕ, List, length, String, Bool, Option, none, some, Result, ok, err, leb, ltb, ◌&&◌, if◌then◌else◌,
}
use backbone_lifecycle.Prelude.Verbs.{World}
use backbone_lifecycle.Pesangon.Basis
use backbone_lifecycle.FinalSettlement.{FinalSettlementError, GlPostAck}
use backbone_lifecycle.Offboarding.{
  OffboardingCloseError, not_found, not_cleared, not_in_progress, clearance_open, missing_join_date,
  missing_salary, bad_reason, invalid, pesangon, no_company_scope, db, panicked,
}

-- `IdResponse`, `OkResponse`, `ErrorBody`, the ledger's acknowledgement, and the bodies that two of
-- the handlers write: the approval request, and the number reminded.
pub data Body : Type 0 where
  id_response : ℕ → Body
  ok_response : Bool → Body
  error_body : String → Body
  ack_body : GlPostAck → Body
  filed_body : ℕ → Body
  reminded_body : ℕ → Body

pub record Response : Type 0 where
  pub status : ℕ
  pub body : Body

-- `StatusCode::from_u16`, which takes three digits.
unfoldable pub status_of : ℕ → ℕ
status_of code = if leb 100 code && ltb code 1000 then code else 500

unfoldable pub err_response : String → ℕ → Response
err_response code status = record { status = status_of status; body = error_body code }

abbrev pub created : ℕ → Option Response
created id = some (record { status = 201; body = id_response id })

abbrev pub done_id : ℕ → Option Response
done_id id = some (record { status = 200; body = id_response id })

abbrev pub done_ok : Bool → Option Response
done_ok b = some (record { status = 200; body = ok_response b })

-- The event that was staged, or none where there was nothing to do.
abbrev pub staged : Option ℕ → Option Response
staged none = done_ok Bool.false
staged (some event_id) = done_id event_id

abbrev pub acknowledged : Option GlPostAck → Option Response
acknowledged none = done_ok Bool.false
acknowledged (some ack) = some (record { status = 200; body = ack_body ack })

abbrev pub paid : Option (Unit {0}) → Option Response
paid none = done_ok Bool.false
paid (some tt) = done_ok Bool.true

abbrev pub filed : ℕ → Option Response
filed request_id = some (record { status = 201; body = filed_body request_id })

abbrev pub reminded : List ℕ → Option Response
reminded ids = some (record { status = 200; body = reminded_body (length ids) })

abbrev pub bad_request : Option Response
bad_request = some (err_response "bad_request" 400)

module _ {Db Effect : Type 0} where
  -- `match svc.verb(…).await { Ok(…) => …, Err(…) => … }`; none is a panic of the verb.
  abbrev pub respond :
      {E A : Type 0}
      → (A → Option Response)
      → (E → Option Response)
      → Result E A × World Db Effect
      → Option Response × World Db Effect
  respond f g (ok a, w) = (f a, w)
  respond f g (err e, w) = (g e, w)

-- `code` and `http_status` of an offboarding's error.
unfoldable pub offboarding_refused : {Date : Type 0} → OffboardingCloseError Date → Option Response
offboarding_refused (not_found _) = some (err_response "offboarding_not_found" 404)
offboarding_refused (not_cleared _ _) = some (err_response "offboarding_not_cleared" 422)
offboarding_refused (not_in_progress _ _) = some (err_response "offboarding_not_in_progress" 422)
offboarding_refused (clearance_open _ _) = some (err_response "clearance_items_open" 422)
offboarding_refused (missing_join_date _) = some (err_response "missing_join_date" 422)
offboarding_refused (missing_salary _) = some (err_response "missing_salary" 422)
offboarding_refused (bad_reason _) = some (err_response "invalid_offboarding_reason" 422)
offboarding_refused (invalid _) = some (err_response "offboarding_refused" 422)
offboarding_refused (pesangon e) = some (err_response (Basis.code e) (Basis.http_status e))
offboarding_refused no_company_scope = some (err_response "no_company_scope" 500)
offboarding_refused (db _) = some (err_response "internal_error" 500)
offboarding_refused panicked = none

-- `code` and `http_status` of a final settlement's error.
unfoldable pub settlement_refused :
    {Date Decimal : Type 0} → FinalSettlementError Date Decimal → Option Response
settlement_refused (FinalSettlementError.offboarding_not_found _) =
    some (err_response "offboarding_not_found" 404)
settlement_refused (FinalSettlementError.not_found _) =
    some (err_response "final_settlement_not_found" 404)
settlement_refused (FinalSettlementError.already_drafted _ _) =
    some (err_response "settlement_already_drafted" 409)
settlement_refused (FinalSettlementError.missing_join_date _) =
    some (err_response "missing_join_date" 422)
settlement_refused (FinalSettlementError.missing_salary _) =
    some (err_response "missing_salary" 422)
settlement_refused (FinalSettlementError.bad_reason _) =
    some (err_response "invalid_offboarding_reason" 422)
settlement_refused (FinalSettlementError.pesangon e) =
    some (err_response (Basis.code e) (Basis.http_status e))
settlement_refused (FinalSettlementError.not_draft _ _) =
    some (err_response "settlement_not_draft" 422)
settlement_refused (FinalSettlementError.nothing_to_post _) =
    some (err_response "nothing_to_post" 422)
settlement_refused (FinalSettlementError.tax_requires_account _ _) =
    some (err_response "tax_requires_account" 422)
settlement_refused (FinalSettlementError.gl_rejected _ _) =
    some (err_response "gl_post_rejected" 422)
settlement_refused (FinalSettlementError.unbalanced _) =
    some (err_response "envelope_unbalanced" 500)
settlement_refused FinalSettlementError.no_company_scope =
    some (err_response "no_company_scope" 500)
settlement_refused (FinalSettlementError.db _) = some (err_response "internal_error" 500)
settlement_refused FinalSettlementError.panicked = none
