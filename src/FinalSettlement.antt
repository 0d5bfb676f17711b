-- ===== src/FinalSettlement.antt =====
-- src/application/service/final_settlement_write_service.rs: drafting a settlement, confirming it
-- through the ledger, marking it paid. The ledger's sink answers an envelope, knowing what it was
-- sent before; `is_balanced` belongs to the accounting crate.
mod Errors
pub mod Outcomes
pub mod Ledger
pub mod Posting
pub mod Confirming
pub mod Once
use backbone_lifecycle.Prelude.{
  ℕ, List, [], ◌∷◌, ◌++◌, String, Bool, true, false, not, ◌&&◌, Option, none, some, Result, ok, err,
  map_err, ok_or, ◌==◌, if◌then◌else◌, is_some, find?, update_rows,
}
use backbone_lifecycle.Prelude.Verbs.{
  World, Verb, ◌>>=◌, ◌>>◌, pure, raise, raise_if, lift, query, fetch, execute, send, transaction,
}
use backbone_lifecycle.Crates.Decimals.{Decimals, less}
use backbone_lifecycle.Crates.Calendar.{Calendar}
use backbone_lifecycle.Pesangon.Reason.{display}
use backbone_lifecycle.Pesangon.Basis.{PesangonError}
use backbone_lifecycle.Pesangon.Compute.{SettlementBreakdown}
use backbone_lifecycle.Settlement.Assembly.{
  DbError, Sources, SettlementComputeError, compute_for_offboarding,
}
use backbone_lifecycle.Store.{
  SettlementStatus, draft, confirmed, paid, disputed, Offboarding, FinalSettlement, Tables,
}
use backbone_lifecycle.Store.Effects.{
  Effect, envelope_posted, GlPostLine, debit, credit, AccountingPostEnvelope,
}
use backbone_lifecycle.Offboarding.{has_id}
pub use Errors.{
  FinalSettlementError, offboarding_not_found, not_found, already_drafted, missing_join_date,
  missing_salary, bad_reason, pesangon, not_draft, nothing_to_post, tax_requires_account,
  gl_rejected, unbalanced, no_company_scope, db, panicked, SettlementAccounts, GlPostAck,
  GlPostRejected,
}
unfoldable pub use Errors.{from_compute, rejection_into}

abbrev pub is_draft : SettlementStatus → Bool
is_draft draft = true
is_draft _ = false

abbrev pub is_confirmed : SettlementStatus → Bool
is_confirmed confirmed = true
is_confirmed _ = false

abbrev pub is_paid : SettlementStatus → Bool
is_paid paid = true
is_paid _ = false

-- `unwrap_or`
abbrev pub unwrap_or {ℓ} : {A : Type ℓ} → A → Option A → A
unwrap_or a none = a
unwrap_or _ (some a) = a

module _ (C : Calendar) (D : Decimals) where
  open C use {NaiveDate}
  open D use {Decimal, zero_d, add, is_zero}

  abbrev pub Failure : Type 0
  Failure = FinalSettlementError NaiveDate Decimal

  abbrev pub Action : Type 0 → Type 0
  Action A = Verb (Tables C D) (Effect NaiveDate Decimal) Failure A

  -- The sink's answer to an envelope, after what it was sent before.
  abbrev pub GlPostSink : Type 0
  GlPostSink =
      List (Effect NaiveDate Decimal)
      → AccountingPostEnvelope Decimal
      → Result GlPostRejected GlPostAck

  unfoldable pub unwired_gl_sink : GlPostSink
  unwired_gl_sink _ _ = err (record {
    code = "gl_seam_unwired";
    message = "the GL seam is not wired — supply a GlPostSink to confirm settlements";
  })

  abbrev pub is_settlement : ℕ → FinalSettlement C D → Bool
  is_settlement id s = s.id == id

  -- The live row of an offboarding; the unique index is on these.
  abbrev pub is_live_for : ℕ → FinalSettlement C D → Bool
  is_live_for offboarding_id s = (s.offboarding_id == offboarding_id) && not s.deleted

  -- The row of the INSERT.
  abbrev pub drafted_row :
      (id offboarding_id : ℕ)
      → Offboarding C D
      → SettlementBreakdown NaiveDate Decimal
      → FinalSettlement C D
  drafted_row id offboarding_id o b = record {
    id = id;
    employee_id = o.employee_id;
    offboarding_id = offboarding_id;
    period = (C.year o.last_working_day, C.month o.last_working_day);
    base_pay = b.last_pay;
    unused_leave_payout = some b.unused_leave_payout;
    pesangon_amount = some b.severance_total;
    tax_deduction = none;
    net_payable = b.net_payable;
    status = draft;
    accounting_post_id = none;
    journal_id = none;
    uang_pesangon = b.uang_pesangon;
    upmk = b.upmk;
    uang_pisah = b.uang_pisah;
    monthly_wage = b.monthly_wage;
    daily_wage = b.daily_wage;
    work_days_per_week = b.work_days_per_week;
    unused_leave_days = b.unused_leave_days;
    tenure_years = b.tenure_years;
    legal_basis = b.legal_basis;
    statutory_effective_from = b.statutory_effective_from;
    last_pay_via_payroll = b.last_pay_via_payroll;
    deleted = false;
  }

  -- INSERT … ON CONFLICT (offboarding_id) WHERE live DO NOTHING RETURNING id; a conflict is the
  -- error that names the live row.
  abbrev pub no_conflict : ℕ → Option (FinalSettlement C D) → Result Failure (Unit {0})
  no_conflict offboarding_id none = ok tt
  no_conflict offboarding_id (some s) = err (already_drafted offboarding_id s.id)

  abbrev pub insert_draft : FinalSettlement C D → Tables C D → Tables C D
  insert_draft s t = record t { final_settlements = t.final_settlements ++ s ∷ [] }

  -- UPDATE lifecycle.offboardings SET final_settlement_id = $2 WHERE id = $1
  abbrev pub link_settlement : ℕ → ℕ → Tables C D → Tables C D
  link_settlement offboarding_id id t = record t {
    offboardings =
        update_rows (has_id C D offboarding_id) (λ o. record o { final_settlement_id = some id })
          t.offboardings;
  }

  unfoldable pub draft_from_offboarding : Sources C D → Option ℕ → ℕ → ℕ → Action ℕ
  draft_from_offboarding src company id offboarding_id = do
    company_id ← lift (ok_or company no_company_scope)
    transaction do
      o ←
          fetch (λ t. find? (has_id C D offboarding_id) t.offboardings)
            (offboarding_not_found offboarding_id)
      b ← lift (
          map_err from_compute (
            compute_for_offboarding C D src company_id o.employee_id (display o.reason)
              o.last_working_day))
      existing ← query (λ t. find? (is_live_for offboarding_id) t.final_settlements)
      lift (no_conflict offboarding_id existing)
      execute (insert_draft (drafted_row id offboarding_id o b))
      execute (link_settlement offboarding_id id)
      pure id

  -- A positive tax.
  abbrev pub has_tax : Option Decimal → Bool
  has_tax none = false
  has_tax (some tax) = less D zero_d tax

  abbrev pub severance_of : FinalSettlement C D → Decimal
  severance_of s = unwrap_or zero_d s.pesangon_amount

  abbrev pub leave_of : FinalSettlement C D → Decimal
  leave_of s = unwrap_or zero_d s.unused_leave_payout

  -- The lines pushed unless the amount is zero.
  abbrev pub debit_line : ℕ → Decimal → List (GlPostLine Decimal)
  debit_line account amount = if is_zero amount then [] else debit account amount ∷ []

  unfoldable pub lines_of : SettlementAccounts → FinalSettlement C D → List (GlPostLine Decimal)
  lines_of accounts s =
      debit_line accounts.severance_expense_account_id (severance_of s)
      ++ debit_line accounts.leave_encashment_expense_account_id (leave_of s)
      ++ credit accounts.employee_payable_account_id (add (severance_of s) (leave_of s))
          s.employee_id
        ∷ []

  unfoldable pub envelope_of :
      (company_id settlement_id : ℕ)
      → SettlementAccounts
      → FinalSettlement C D
      → AccountingPostEnvelope Decimal
  envelope_of company_id settlement_id accounts s = record {
    company_id = company_id;
    source_id = settlement_id;
    lines = lines_of accounts s;
  }

  -- UPDATE … SET status = 'confirmed', accounting_post_id = $2, journal_id = $3 WHERE id = $1
  abbrev pub stamp : ℕ → GlPostAck → Tables C D → Tables C D
  stamp id ack t = record t {
    final_settlements =
        update_rows (is_settlement id)
          (λ s. record s {
            status = confirmed;
            accounting_post_id = some ack.post_id;
            journal_id = ack.journal_id;
          })
          t.final_settlements;
  }

  -- The sink is called with the envelope, then answers.
  abbrev pub post : GlPostSink → AccountingPostEnvelope Decimal → Action GlPostAck
  post gl envelope w = (
    map_err rejection_into (gl w.sent envelope),
    record w { sent = w.sent ++ envelope_posted envelope ∷ [] },
  )

  unfoldable pub confirm :
      (is_balanced : AccountingPostEnvelope Decimal → Bool)
      → GlPostSink
      → Option ℕ
      → ℕ
      → SettlementAccounts
      → Action (Option GlPostAck)
  confirm is_balanced gl company settlement_id accounts = do
    company_id ← lift (ok_or company no_company_scope)
    transaction do
      s ←
          fetch (λ t. find? (is_settlement settlement_id) t.final_settlements)
            (not_found settlement_id)
      if is_some s.accounting_post_id then pure none else do
        raise_if (not (is_draft s.status)) (not_draft settlement_id s.status)
        raise_if (has_tax s.tax_deduction)
            (tax_requires_account settlement_id (unwrap_or zero_d s.tax_deduction))
        raise_if (is_zero (severance_of s) && is_zero (leave_of s)) (nothing_to_post settlement_id)
        let envelope = envelope_of company_id settlement_id accounts s
        raise_if (not (is_balanced envelope)) (unbalanced envelope)
        ack ← post gl envelope
        execute (stamp settlement_id ack)
        pure (some ack)

  -- UPDATE … SET status = 'paid' WHERE id = $1
  abbrev pub pay : ℕ → Tables C D → Tables C D
  pay id t = record t {
    final_settlements =
        update_rows (is_settlement id) (λ s. record s { status = paid }) t.final_settlements;
  }

  unfoldable pub mark_paid : ℕ → Action (Option (Unit {0}))
  mark_paid settlement_id = transaction do
    s ←
        fetch (λ t. find? (is_settlement settlement_id) t.final_settlements)
          (not_found settlement_id)
    if is_paid s.status then pure none else do
      raise_if (not (is_confirmed s.status)) (not_draft settlement_id s.status)
      execute (pay settlement_id)
      pure (some tt)
