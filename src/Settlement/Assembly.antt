-- ===== src/Settlement/Assembly.antt =====
-- src/application/service/settlement_computation.rs: the one place where a leaver's settlement is
-- assembled, and the read ports of src/application/service/offboarding_ports.rs.
pub mod Reads
use backbone_lifecycle.Prelude.{ℕ, List, String, Option, Result, map_err, ok_or}
use backbone_lifecycle.Prelude.Fallible.{◌>>=◌, ◌>>◌}
use backbone_lifecycle.Crates.Decimals.{Decimals}
use backbone_lifecycle.Crates.Calendar.{Calendar}
use backbone_lifecycle.Pesangon.Reason.{from_str}
use backbone_lifecycle.Pesangon.Basis.{PesangonError, severance_country, severance_basis}
use backbone_lifecycle.Pesangon.Compute.{SettlementInputs, SettlementBreakdown, compute_settlement}
use backbone_lifecycle.Settlement.Settings.{Sysparam, severance_settings}
use backbone_lifecycle.Settlement.Statutory.{StatutoryTables, severance_params_as_of}

-- The driver's error of a failed statement.
pub data DbError : Type 0 where
  db_error : DbError

module _ (C : Calendar) (D : Decimals) where
  open C use {NaiveDate}
  open D use {Decimal}

  -- The trait of the cross-module reads, by company and employee.
  pub record OffboardingInputs : Type 0 where
    pub join_date : ℕ → ℕ → Result DbError (Option NaiveDate)
    pub current_monthly_salary : ℕ → ℕ → Result DbError (Option Decimal)
    pub unused_leave_days : ℕ → ℕ → List String → NaiveDate → Result DbError Decimal

  -- What a settlement is assembled from: the ports, the rows of platform.sysparams where there
  -- is such a table, the statutory tables, and `to_lowercase` of the standard library.
  pub record Sources : Type 0 where
    pub inputs : OffboardingInputs
    pub sysparams : Option (List Sysparam)
    pub statutes : StatutoryTables NaiveDate Decimal
    pub to_lowercase : String → String

-- `panicked` is a panic of the calculation; in a verb it unwinds, and the transaction is dropped.
pub data SettlementComputeError (Date : Type 0) : Type 0 where
  missing_join_date : ℕ → SettlementComputeError Date
  missing_salary : ℕ → SettlementComputeError Date
  bad_reason : String → SettlementComputeError Date
  pesangon : PesangonError Date → SettlementComputeError Date
  db : DbError → SettlementComputeError Date
  panicked : SettlementComputeError Date

module _ (C : Calendar) (D : Decimals) where
  open C use {NaiveDate}
  open D use {Decimal}

  unfoldable pub compute_for_offboarding :
      Sources C D
      → (company_id employee_id : ℕ) → (reason : String) → (last_working_day : NaiveDate)
      → Result (SettlementComputeError NaiveDate) (SettlementBreakdown NaiveDate Decimal)
  compute_for_offboarding src company_id employee_id reason last_working_day = do
    reason_enum ← map_err (λ _. bad_reason reason) (from_str src.to_lowercase reason)
    map_err pesangon (severance_basis reason_enum)
    join ← map_err db (src.inputs.join_date company_id employee_id)
    join_date ← ok_or join (missing_join_date employee_id)
    salary ← map_err db (src.inputs.current_monthly_salary company_id employee_id)
    monthly_wage ← ok_or salary (missing_salary employee_id)
    settings ← map_err pesangon (severance_settings D NaiveDate src.sysparams)
    unused_leave_days ← map_err db (
        src.inputs.unused_leave_days company_id employee_id settings.leave_type_codes
          last_working_day)
    params ←
        map_err pesangon (severance_params_as_of C severance_country src.statutes last_working_day)
    let inputs : SettlementInputs NaiveDate Decimal = record {
      reason = reason_enum;
      join_date = join_date;
      last_working_day = last_working_day;
      monthly_wage = monthly_wage;
      unused_leave_days = unused_leave_days;
    }
    computed ← ok_or (compute_settlement C D inputs params settings) panicked
    map_err pesangon computed
