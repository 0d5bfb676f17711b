-- ===== src/Settlement/Settings.antt =====
-- The settings of src/infrastructure/persistence/severance_params_repository.rs: the reading of
-- key-value rows into `SeveranceSettings`. The decimals' parser is the crate's.
pub mod Usable
use backbone_lifecycle.Prelude.{
  ℕ, ◌+◌, ◌-◌, ◌*◌, List, [], ◌∷◌, String, Bool, true, false, not, ◌&&◌, Option, none, some, Result,
  ok, err, and_then, ok_or, leb, ◌==◌, str_eq, if◌then◌else◌, select_rows,
}
use backbone_lifecycle.Prelude.Options
use backbone_lifecycle.Prelude.Texts.{trim, is_empty, split}
use backbone_lifecycle.Crates.Decimals.{Decimals}
use backbone_lifecycle.Pesangon.Basis.{PesangonError, invalid_setting}
use backbone_lifecycle.Pesangon.LastPay.{WorkWeek, from_days}
use backbone_lifecycle.Pesangon.Compute.{SeveranceSettings, default_settings}
use Prim.Native.Char.{Char, code}
use Prim.Native.String.{[], ◌∷◌}

abbrev pub settings_group : String
settings_group = "lifecycle.offboarding"

abbrev pub key_uang_pisah_months : String
key_uang_pisah_months = "uang_pisah.months"

abbrev pub key_work_days_per_week : String
key_work_days_per_week = "daily_wage.work_days_per_week"

abbrev pub key_leave_type_codes : String
key_leave_type_codes = "leave_payout.timeoff_type_codes"

-- A row of platform.sysparams.
pub record Sysparam : Type 0 where
  pub group_name : String
  pub key : String
  pub value : String
  pub is_active : Bool

-- The rows that the SELECT reads.
abbrev pub is_setting : Sysparam → Bool
is_setting r = str_eq r.group_name settings_group && r.is_active

abbrev digit : Char → Option ℕ
digit c = if leb 48 (code c) && leb (code c) 57 then some (code c - 48) else none

-- The digits after those that give `n`, where the number stays in a u8.
abbrev pub digits : ℕ → String → Option ℕ
digits n [] = some n
digits n (c ∷ s) =
    Options.◌>>=◌ (digit c) λ d. if leb (n * 10 + d) 255 then digits (n * 10 + d) s else none

-- `str::parse::<u8>` of the standard library: digits, one at least, after an optional plus.
unfoldable pub parse_u8 : String → Option ℕ
parse_u8 [] = none
parse_u8 (c ∷ s) =
    if code c == 43 then (if is_empty s then none else digits 0 s) else digits 0 (c ∷ s)

-- `split(',')`, each piece trimmed, the empty ones left out.
abbrev pub trimmed : List String → List String
trimmed [] = []
trimmed (s ∷ ss) = trim s ∷ trimmed ss

abbrev pub comma : ℕ
comma = 44

unfoldable pub codes_of : String → List String
codes_of v = select_rows (λ c. not (is_empty c)) (trimmed (split comma v))

module _ (D : Decimals) (Date : Type 0) where
  open D use {Decimal, zero_d, le}

  abbrev pub Settings : Type 0
  Settings = SeveranceSettings Decimal

  unfoldable pub invalid : String → String → String → PesangonError Date
  invalid key value detail = invalid_setting settings_group key value detail

  abbrev set_months : Settings → String → Option Decimal → Result (PesangonError Date) Settings
  set_months settings value none = err (invalid key_uang_pisah_months value "not a number")
  set_months settings value (some months) =
      if not (le zero_d months)
      then err (invalid key_uang_pisah_months value "must not be negative")
      else ok (record settings { uang_pisah_months = months })

  abbrev set_week : Settings → String → Option WorkWeek → Result (PesangonError Date) Settings
  set_week settings value none = err (invalid key_work_days_per_week value "must be 5 or 6")
  set_week settings value (some week) = ok (record settings { work_week = week })

  abbrev set_codes : Settings → String → List String → Result (PesangonError Date) Settings
  set_codes settings value [] = err (invalid key_leave_type_codes value "names no leave type")
  set_codes settings value (c ∷ cs) = ok (record settings { leave_type_codes = c ∷ cs })

  unfoldable pub apply_setting :
      Settings → (key value : String) → Result (PesangonError Date) Settings
  apply_setting settings key value =
      let v = trim value in
      if str_eq key key_uang_pisah_months
      then set_months settings value (D.parse v)
      else if str_eq key key_work_days_per_week
      then set_week settings value (Options.◌>>=◌ (parse_u8 v) from_days)
      else if str_eq key key_leave_type_codes
      then set_codes settings value (codes_of v)
      else ok settings

  abbrev pub apply_each : List Sysparam → Settings → Result (PesangonError Date) Settings
  apply_each [] settings = ok settings
  apply_each (r ∷ rs) settings =
      and_then (apply_setting settings r.key r.value) λ next. apply_each rs next

  -- `none` is a database without the table.
  unfoldable pub severance_settings : Option (List Sysparam) → Result (PesangonError Date) Settings
  severance_settings none = ok (default_settings D)
  severance_settings (some rows) = apply_each (select_rows is_setting rows) (default_settings D)
