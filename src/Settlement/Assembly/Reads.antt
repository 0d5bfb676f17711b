-- ===== src/Settlement/Assembly/Reads.antt =====
-- What src/application/service/settlement_computation.rs reads for the settlement that it computes.
use backbone_lifecycle.Prelude.{
  ℕ, String, ◌≡◌, refl, Option, none, some, Result, ok, err, map_err, ok_or, arith,
}
use backbone_lifecycle.Prelude.Fallible.{◌>>=◌}
use backbone_lifecycle.Crates.Decimals.{Decimals}
use backbone_lifecycle.Crates.Calendar.{Calendar}
use backbone_lifecycle.Pesangon.Reason.{OffboardingReason, from_str}
use backbone_lifecycle.Pesangon.Basis.{severance_country, severance_basis}
use backbone_lifecycle.Pesangon.Params.{SeveranceParams}
use backbone_lifecycle.Pesangon.Compute.{SeveranceSettings, SettlementBreakdown, compute_settlement}
use backbone_lifecycle.Settlement.Settings.{severance_settings}
use backbone_lifecycle.Settlement.Statutory.{severance_params_as_of}
use backbone_lifecycle.Settlement.Assembly.{
  Sources, bad_reason, pesangon, db, missing_join_date, missing_salary, panicked,
  compute_for_offboarding,
}

module _ {E A B : Type 0} where
  bound :
      (r : Result E A) (k : A → Result E B) {b : B}
      → (r >>= k) ≡ ok b
      → (a : A) × (r ≡ ok a) × (k a ≡ ok b)
  bound (ok a) k h = (a, refl, h)
  bound (err e) k h = cc

module _ {E F A : Type 0} where
  mapped : (f : E → F) (r : Result E A) {a : A} → map_err f r ≡ ok a → r ≡ ok a
  mapped f (ok a) h = ground arith
  mapped f (err e) h = cc

module _ {E A : Type 0} where
  present : (e : E) (o : Option A) {a : A} → ok_or o e ≡ ok a → o ≡ some a
  present e (some a) h = ground arith
  present e none h = cc

module _ (C : Calendar) (D : Decimals) where
  open C use {NaiveDate}
  open D use {Decimal}

  -- A settlement of an employee, and what it was computed from: the reason by its label, the
  -- employee's join date, wage and unused leave as the ports answer for the company, the settings,
  -- and the statutory set in force on the last working day.
  pub record IsSettlement (src : Sources C D) (company_id employee_id : ℕ) (label : String)
      (last_working_day : NaiveDate) (b : SettlementBreakdown NaiveDate Decimal) : Type 0 where
    pub reason : OffboardingReason
    pub join_date : NaiveDate
    pub wage : Decimal
    pub settings : SeveranceSettings Decimal
    pub leave_days : Decimal
    pub params : SeveranceParams NaiveDate Decimal
    pub labelled : from_str src.to_lowercase label ≡ ok reason
    pub joined : src.inputs.join_date company_id employee_id ≡ ok (some join_date)
    pub earns : src.inputs.current_monthly_salary company_id employee_id ≡ ok (some wage)
    pub set : severance_settings D NaiveDate src.sysparams ≡ ok settings
    pub unused :
        src.inputs.unused_leave_days company_id employee_id settings.leave_type_codes
          last_working_day
        ≡ ok leave_days
    pub in_force :
        severance_params_as_of C severance_country src.statutes last_working_day ≡ ok params
    pub computed :
        compute_settlement C D
          (record {
            reason = reason;
            join_date = join_date;
            last_working_day = last_working_day;
            monthly_wage = wage;
            unused_leave_days = leave_days;
          })
          params
          settings
        ≡ some (ok b)

  -- A settlement that is assembled is one of what was read.
  pub compute_for_offboarding-IsSettlement :
      (src : Sources C D) (company_id employee_id : ℕ) (label : String)
      (last_working_day : NaiveDate) {b : SettlementBreakdown NaiveDate Decimal}
      → compute_for_offboarding C D src company_id employee_id label last_working_day ≡ ok b
      → IsSettlement src company_id employee_id label last_working_day b
  unfolding compute_for_offboarding
  compute_for_offboarding-IsSettlement src company_id employee_id label last_working_day h =
      let (reason, e₁, h₁) =
        bound (map_err (λ _. bad_reason label) (from_str src.to_lowercase label)) _ h in
      let (basis, e₂, h₂) = bound (map_err pesangon (severance_basis reason)) _ h₁ in
      let (join, e₃, h₃) = bound (map_err db (src.inputs.join_date company_id employee_id)) _ h₂ in
      let (join_date, e₄, h₄) = bound (ok_or join (missing_join_date employee_id)) _ h₃ in
      let (salary, e₅, h₅) =
        bound (map_err db (src.inputs.current_monthly_salary company_id employee_id)) _ h₄ in
      let (wage, e₆, h₆) = bound (ok_or salary (missing_salary employee_id)) _ h₅ in
      let (settings, e₇, h₇) =
        bound (map_err pesangon (severance_settings D NaiveDate src.sysparams)) _ h₆ in
      let (leave_days, e₈, h₈) =
        bound
          (map_err db (
            src.inputs.unused_leave_days company_id employee_id settings.leave_type_codes
              last_working_day))
          _ h₇ in
      let (params, e₉, h₉) =
        bound
          (map_err pesangon
            (severance_params_as_of C severance_country src.statutes last_working_day))
          _ h₈ in
      let (result, e₀, h₀) =
        bound
          (ok_or
            (compute_settlement C D
              (record {
                reason = reason;
                join_date = join_date;
                last_working_day = last_working_day;
                monthly_wage = wage;
                unused_leave_days = leave_days;
              })
              params settings)
            panicked)
          _ h₉ in
      record {
        reason = reason;
        join_date = join_date;
        wage = wage;
        settings = settings;
        leave_days = leave_days;
        params = params;
        labelled = mapped _ _ e₁;
        joined = rw (present _ _ e₄) at (mapped _ _ e₃);
        earns = rw (present _ _ e₆) at (mapped _ _ e₅);
        set = mapped _ _ e₇;
        unused = mapped _ _ e₈;
        in_force = mapped _ _ e₉;
        computed = rw (mapped _ _ h₀) at (present _ _ e₀);
      }
