-- ===== src/Settlement/Settings/Usable.antt =====
-- What settings `severance_settings` of
-- src/infrastructure/persistence/severance_params_repository.rs accepts.
use backbone_lifecycle.Prelude.{
  ◌≡◌, ◌≢◌, inl, inr, refl, List, [], ◌∷◌, String, Bool, true, not, Option, none, some, Bool-cases,
  Result, ok, err, and_then, str_eq, select_rows, All,
}
use backbone_lifecycle.Prelude.Texts.{trim, split, is_empty}
use mathlib.Core.List.{Memᴰ}
use backbone_lifecycle.Crates.Decimals.{Decimals}
use backbone_lifecycle.Pesangon.Basis.{PesangonError, invalid_setting}
use backbone_lifecycle.Pesangon.LastPay.{WorkWeek}
use backbone_lifecycle.Pesangon.Compute.{SeveranceSettings, default_settings}
use backbone_lifecycle.Settlement.Settings.{
  Sysparam, settings_group, key_uang_pisah_months, key_work_days_per_week, key_leave_type_codes,
  trimmed, comma, codes_of, invalid, Settings, set_months, set_week, set_codes, apply_setting,
  apply_each, is_setting, severance_settings,
}

selected_All : (p : String → Bool) (ss : List String) → All (λ s. p s ≡ true) (select_rows p ss)
selected_All p [] = tt
selected_All p (s ∷ ss) = elim (Bool-cases (p s)) [
  | inl e ↦ rw e (e, selected_All p ss)
  | inr e ↦ rw e (selected_All p ss)
]

codes_All : (v : String) → All (λ c. not (is_empty c) ≡ true) (codes_of v)
unfolding codes_of
codes_All v = selected_All (λ c. not (is_empty c)) (trimmed (split comma v))

module _ (D : Decimals) (Date : Type 0) where
  open D use {Decimal, zero_d, le}

  -- What a settlement needs of its settings.
  pub record IsUsable (s : SeveranceSettings Decimal) : Type 0 where
    pub nonneg : le zero_d s.uang_pisah_months ≡ true
    pub named : s.leave_type_codes ≢ []
    pub no_blank : All (λ c. not (is_empty c) ≡ true) s.leave_type_codes

  -- What the reading of rows returns: usable settings, or an error that names the key and the value of
  -- one of the rows.
  pub data ReadOutcome (rows : List Sysparam)
      : Result (PesangonError Date) (Settings D Date) → Type 0 where
    usable : {s : Settings D Date} → IsUsable s → ReadOutcome rows (ok s)
    refused :
        (r : Sysparam) (key detail : String)
        → Memᴰ r rows
        → str_eq r.key key ≡ true
        → ReadOutcome rows (err (invalid_setting settings_group key r.value detail))

  default-IsUsable : IsUsable (default_settings D)
  unfolding default_settings
  default-IsUsable = record { nonneg = D.le_refl zero_d; named = λ h. cc; no_blank = (refl, tt) }

  module _ (rows : List Sysparam) (s : Settings D Date) (r : Sysparam) (member : Memᴰ r rows)
      (u : IsUsable s) where
    months-ReadOutcome :
        (m : Option Decimal)
        → str_eq r.key key_uang_pisah_months ≡ true
        → ReadOutcome rows (set_months D Date s r.value m)
    unfolding invalid
    months-ReadOutcome none k = refused r key_uang_pisah_months _ member k
    months-ReadOutcome (some m) k = elim (Bool-cases (le zero_d m)) [
      | inl e ↦ rw e (usable (record { nonneg = e; named = u.named; no_blank = u.no_blank }))
      | inr e ↦ rw e (refused r key_uang_pisah_months _ member k)
    ]

    week-ReadOutcome :
        (w : Option WorkWeek)
        → str_eq r.key key_work_days_per_week ≡ true
        → ReadOutcome rows (set_week D Date s r.value w)
    unfolding invalid
    week-ReadOutcome none k = refused r key_work_days_per_week _ member k
    week-ReadOutcome (some w) k =
        usable (record { nonneg = u.nonneg; named = u.named; no_blank = u.no_blank })

    codes-ReadOutcome :
        (cs : List String)
        → All (λ c. not (is_empty c) ≡ true) cs
        → str_eq r.key key_leave_type_codes ≡ true
        → ReadOutcome rows (set_codes D Date s r.value cs)
    unfolding invalid
    codes-ReadOutcome [] all k = refused r key_leave_type_codes _ member k
    codes-ReadOutcome (c ∷ cs) all k =
        usable (record { nonneg = u.nonneg; named = λ h. cc; no_blank = all })

    apply-ReadOutcome : ReadOutcome rows (apply_setting D Date s r.key r.value)
    unfolding apply_setting
    apply-ReadOutcome = elim (Bool-cases (str_eq r.key key_uang_pisah_months)) [
      | inl a ↦ rw a (months-ReadOutcome _ a)
      | inr a ↦ elim (Bool-cases (str_eq r.key key_work_days_per_week)) [
        | inl b ↦ rw (a, b) (week-ReadOutcome _ b)
        | inr b ↦ elim (Bool-cases (str_eq r.key key_leave_type_codes)) [
          | inl c ↦ rw (a, b, c) (codes-ReadOutcome _ (codes_All (trim r.value)) c)
          | inr c ↦ rw (a, b, c) (usable u)
        ]
      ]
    ]

  and_then-ReadOutcome :
      (rows : List Sysparam) (f : Settings D Date → Result (PesangonError Date) (Settings D Date))
      {r : Result (PesangonError Date) (Settings D Date)}
      → ReadOutcome rows r
      → ((s : Settings D Date) → IsUsable s → ReadOutcome rows (f s))
      → ReadOutcome rows (and_then r f)
  and_then-ReadOutcome rows f (usable {s} u) h = h s u
  and_then-ReadOutcome rows f (refused r key detail m k) h = refused r key detail m k

  each-ReadOutcome :
      (rows part : List Sysparam) (s : Settings D Date)
      → ((r : Sysparam) → Memᴰ r part → Memᴰ r rows)
      → IsUsable s
      → ReadOutcome rows (apply_each D Date part s)
  each-ReadOutcome rows [] s inside u = usable u
  each-ReadOutcome rows (r ∷ rs) s inside u =
      and_then-ReadOutcome rows (apply_each D Date rs)
        (apply-ReadOutcome rows s r (inside r (Memᴰ.head refl)) u)
        (λ next v. each-ReadOutcome rows rs next (λ x m. inside x (Memᴰ.tail m)) v)

  -- Whatever rows stand in the table, in whatever order: the settings that are read have months of
  -- uang pisah that are not negative and name one leave type at least, none of them blank; or the
  -- reading fails with the error of an active row of the group, naming its key and its value.
  pub severance_settings-ReadOutcome :
      (rows : List Sysparam)
      → ReadOutcome (select_rows is_setting rows) (severance_settings D Date (some rows))
  unfolding severance_settings
  severance_settings-ReadOutcome rows =
      each-ReadOutcome _ (select_rows is_setting rows) (default_settings D) (λ r m. m)
        default-IsUsable
