-- ===== src/FinalSettlement/Errors.antt =====
-- The errors of src/application/service/final_settlement_write_service.rs, and the shapes that the
-- ledger's port is called with and answers.
use backbone_lifecycle.Prelude.{ℕ, String, Option}
use backbone_lifecycle.Pesangon.Basis.{PesangonError}
use backbone_lifecycle.Settlement.Assembly.{DbError, SettlementComputeError}
use backbone_lifecycle.Store.{SettlementStatus}
use backbone_lifecycle.Store.Effects.{AccountingPostEnvelope}

pub data FinalSettlementError (Date Decimal : Type 0) : Type 0 where
  offboarding_not_found : ℕ → FinalSettlementError Date Decimal
  not_found : ℕ → FinalSettlementError Date Decimal
  -- the offboarding and its settlement
  already_drafted : ℕ → ℕ → FinalSettlementError Date Decimal
  missing_join_date : ℕ → FinalSettlementError Date Decimal
  missing_salary : ℕ → FinalSettlementError Date Decimal
  bad_reason : String → FinalSettlementError Date Decimal
  pesangon : PesangonError Date → FinalSettlementError Date Decimal
  not_draft : ℕ → SettlementStatus → FinalSettlementError Date Decimal
  nothing_to_post : ℕ → FinalSettlementError Date Decimal
  tax_requires_account : ℕ → Decimal → FinalSettlementError Date Decimal
  gl_rejected : String → String → FinalSettlementError Date Decimal
  unbalanced : AccountingPostEnvelope Decimal → FinalSettlementError Date Decimal
  no_company_scope : FinalSettlementError Date Decimal
  db : DbError → FinalSettlementError Date Decimal
  panicked : FinalSettlementError Date Decimal

-- `From<SettlementComputeError>`
unfoldable pub from_compute :
    {Date Decimal : Type 0} → SettlementComputeError Date → FinalSettlementError Date Decimal
from_compute (SettlementComputeError.missing_join_date e) = missing_join_date e
from_compute (SettlementComputeError.missing_salary e) = missing_salary e
from_compute (SettlementComputeError.bad_reason r) = bad_reason r
from_compute (SettlementComputeError.pesangon p) = pesangon p
from_compute (SettlementComputeError.db d) = db d
from_compute SettlementComputeError.panicked = panicked

pub record SettlementAccounts : Type 0 where
  pub severance_expense_account_id : ℕ
  pub leave_encashment_expense_account_id : ℕ
  pub employee_payable_account_id : ℕ

pub record GlPostAck : Type 0 where
  pub post_id : ℕ
  pub journal_id : Option ℕ

pub record GlPostRejected : Type 0 where
  pub code : String
  pub message : String

unfoldable pub rejection_into :
    {Date Decimal : Type 0} → GlPostRejected → FinalSettlementError Date Decimal
rejection_into rej = gl_rejected rej.code rej.message
