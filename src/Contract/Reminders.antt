-- ===== src/Contract/Reminders.antt =====
-- src/application/service/contract_write_service.rs: the reminder of contracts about to expire.
use backbone_lifecycle.Prelude.{
  ℕ, zero, suc, ◌+◌, List, [], ◌∷◌, Option, none, some, Bool, true, false, not, ◌&&◌, leb,
  if◌then◌else◌, is_some, update_rows, select_rows,
}
use backbone_lifecycle.Prelude.Verbs.{◌>>=◌, ◌>>◌, pure, query, execute, send, transaction}
use backbone_lifecycle.Crates.Decimals.{Decimals}
use backbone_lifecycle.Crates.Calendar.{Calendar, le_date}
use backbone_lifecycle.Store.{Contract, Tables}
use backbone_lifecycle.Store.Effects.{contract_expiring}
use backbone_lifecycle.Offboarding.{is_pkwt}
use backbone_lifecycle.Contract.{Action, is_active, is_contract}

module _ (C : Calendar) (D : Decimals) where
  open C use {NaiveDate, DateTime, days, date_naive}

  -- `$3::date IS NULL OR end_date >= $3::date`
  abbrev pub from_start : Option DateTime → NaiveDate → Bool
  from_start none e = true
  from_start (some start) e = le_date C (date_naive start) e

  abbrev pub ends_within : DateTime → ℕ → Option DateTime → Option NaiveDate → Bool
  ends_within now n start none = false
  ends_within now n start (some e) = leb (days e) (days (date_naive now) + n) && from_start start e

  -- The rows that the SELECT reads.
  abbrev pub is_due : DateTime → ℕ → Option DateTime → Contract C D → Bool
  is_due now n start c =
      is_active c.status
      && is_pkwt c.contract_type
      && ends_within now n start c.end_date
      && not (is_some c.reminder_sent_at)
      && not c.deleted

  -- A row with its end, for the ORDER BY.
  abbrev pub expiring : List (Contract C D) → List (Contract C D × NaiveDate)
  expiring [] = []
  expiring (c ∷ cs) = with_end c c.end_date (expiring cs)
    where
      with_end :
          Contract C D
          → Option NaiveDate
          → List (Contract C D × NaiveDate)
          → List (Contract C D × NaiveDate)
      with_end c none rest = rest
      with_end c (some e) rest = (c, e) ∷ rest

  abbrev pub insert_by_end :
      Contract C D × NaiveDate → List (Contract C D × NaiveDate) → List (Contract C D × NaiveDate)
  insert_by_end r [] = r ∷ []
  insert_by_end r (s ∷ rest) =
      let later = insert_by_end r rest in if le_date C r.1 s.1 then r ∷ s ∷ rest else s ∷ later

  -- ORDER BY end_date
  abbrev pub order_by_end : List (Contract C D × NaiveDate) → List (Contract C D × NaiveDate)
  order_by_end [] = []
  order_by_end (r ∷ rest) = insert_by_end r (order_by_end rest)

  -- LIMIT
  abbrev pub limit {ℓ} : {A : Type ℓ} → ℕ → List A → List A
  limit zero xs = []
  limit (suc n) [] = []
  limit (suc n) (x ∷ xs) = x ∷ limit n xs

  unfoldable pub due_contracts :
      DateTime → ℕ → Option DateTime → Tables C D → List (Contract C D × NaiveDate)
  due_contracts now n start t =
      limit 100 (order_by_end (expiring (select_rows (is_due now n start) t.contracts)))

  -- UPDATE lifecycle.contracts SET reminder_sent_at = $2 WHERE id = $1
  abbrev pub mark_reminded : ℕ → DateTime → Tables C D → Tables C D
  mark_reminded id now t = record t {
    contracts =
        update_rows (is_contract C D id) (λ c. record c { reminder_sent_at = some now })
          t.contracts;
  }

  abbrev pub remind_each : DateTime → List (Contract C D × NaiveDate) → Action C D (List ℕ)
  remind_each now [] = pure []
  remind_each now ((c, e) ∷ rest) =
      execute (mark_reminded c.id now)
      >> (send (contract_expiring c.id c.employee_id e)
          >> (remind_each now rest >>= λ ids. pure (c.id ∷ ids)))

  unfoldable pub remind_due_from : DateTime → ℕ → Option DateTime → Action C D (List ℕ)
  remind_due_from now n start =
      transaction do rows ← query (due_contracts now n start); remind_each now rows

  unfoldable pub remind_due : DateTime → ℕ → Action C D (List ℕ)
  remind_due now n = remind_due_from now n none
