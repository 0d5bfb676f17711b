-- ===== src/FinalSettlement/Posting.antt =====
-- The envelope that `confirm` of src/application/service/final_settlement_write_service.rs builds.
use backbone_lifecycle.Prelude.{
  ℕ, ◌≡◌, ◌&&◌, refl, ap, sym, ◌∙◌, List, [], ◌∷◌, ◌++◌, Bool, true, false,
}
use backbone_lifecycle.Crates.Decimals.{Decimals}
use backbone_lifecycle.Crates.Calendar.{Calendar}
use backbone_lifecycle.Store.{FinalSettlement}
use backbone_lifecycle.Store.Effects.{GlPostLine, debit, credit, AccountingPostEnvelope}
use backbone_lifecycle.FinalSettlement.{
  SettlementAccounts, severance_of, leave_of, debit_line, lines_of, envelope_of,
}

module _ (D : Decimals) where
  open D use {Decimal, zero_d, add, is_zero}

  -- The sums that an envelope balances.
  abbrev pub debits_from : Decimal → List (GlPostLine Decimal) → Decimal
  debits_from sum [] = sum
  debits_from sum (debit account amount ∷ ls) = debits_from (add sum amount) ls
  debits_from sum (credit account amount party ∷ ls) = debits_from sum ls

  abbrev pub credits_from : Decimal → List (GlPostLine Decimal) → Decimal
  credits_from sum [] = sum
  credits_from sum (debit account amount ∷ ls) = credits_from sum ls
  credits_from sum (credit account amount party ∷ ls) = credits_from (add sum amount) ls

  abbrev pub IsBalanced : List (GlPostLine Decimal) → Type 0
  IsBalanced ls = debits_from zero_d ls ≡ credits_from zero_d ls

module _ (C : Calendar) (D : Decimals) where
  open D use {Decimal, zero_d, add, is_zero}

  lines-IsBalanced :
      (account1 account2 account3 party : ℕ) (severance leave : Decimal) (s l : Bool)
      → is_zero severance ≡ s
      → is_zero leave ≡ l
      → IsBalanced D (
          debit_line C D account1 severance
          ++ debit_line C D account2 leave
          ++ credit account3 (add severance leave) party ∷ [])
  lines-IsBalanced a1 a2 a3 party severance leave false false e k =
      rw (e, k)
        (ap (λ x. add x leave) (D.zero_add severance) ∙ sym (D.zero_add (add severance leave)))
  lines-IsBalanced a1 a2 a3 party severance leave true false e k =
      rw (e, k)
        (ap (λ x. add x leave) (sym ((D.is_zero_iff severance).0 e))
          ∙ sym (D.zero_add (add severance leave)))
  lines-IsBalanced a1 a2 a3 party severance leave false true e k =
      rw (e, k)
        (D.zero_add severance
          ∙ sym (D.add_zero severance)
          ∙ ap (λ x. add severance x) (sym ((D.is_zero_iff leave).0 k))
          ∙ sym (D.zero_add (add severance leave)))
  lines-IsBalanced a1 a2 a3 party severance leave true true e k =
      rw (e, k)
        (sym ((D.is_zero_iff leave).0 k)
          ∙ sym (D.zero_add leave)
          ∙ ap (λ x. add x leave) (sym ((D.is_zero_iff severance).0 e))
          ∙ sym (D.zero_add (add severance leave)))

  -- The lines of every settlement balance: the debits of the severance and of the leave, each left
  -- out when it is zero, add up to the credit.
  pub lines_of-IsBalanced :
      (accounts : SettlementAccounts) (s : FinalSettlement C D)
      → IsBalanced D (lines_of C D accounts s)
  unfolding lines_of
  lines_of-IsBalanced accounts s =
      lines-IsBalanced _ _ _ _ (severance_of C D s) (leave_of C D s) _ _ refl refl

  -- The lines for a settlement: each amount that is not zero is a debit of its own expense account,
  -- and the employee is credited with both.
  pub data IsPosting (accounts : SettlementAccounts) (s : FinalSettlement C D)
      : List (GlPostLine Decimal) → Type 0 where
    both :
        is_zero (severance_of C D s) ≡ false
        → is_zero (leave_of C D s) ≡ false
        → IsPosting accounts s (
            debit accounts.severance_expense_account_id (severance_of C D s)
            ∷ debit accounts.leave_encashment_expense_account_id (leave_of C D s)
            ∷ credit accounts.employee_payable_account_id
                (add (severance_of C D s) (leave_of C D s))
                s.employee_id
            ∷ [])
    severance_only :
        is_zero (severance_of C D s) ≡ false
        → is_zero (leave_of C D s) ≡ true
        → IsPosting accounts s (
            debit accounts.severance_expense_account_id (severance_of C D s)
            ∷ credit accounts.employee_payable_account_id
                (add (severance_of C D s) (leave_of C D s))
                s.employee_id
            ∷ [])
    leave_only :
        is_zero (severance_of C D s) ≡ true
        → is_zero (leave_of C D s) ≡ false
        → IsPosting accounts s (
            debit accounts.leave_encashment_expense_account_id (leave_of C D s)
            ∷ credit accounts.employee_payable_account_id
                (add (severance_of C D s) (leave_of C D s))
                s.employee_id
            ∷ [])

  -- The envelope of a settlement: of the company of the request, and it balances.
  pub record IsEnvelope (company_id id : ℕ) (accounts : SettlementAccounts)
      (s : FinalSettlement C D) (e : AccountingPostEnvelope Decimal) : Type 0 where
    pub of_company : e.company_id ≡ company_id
    pub of_settlement : e.source_id ≡ id
    pub posting : IsPosting accounts s e.lines
    pub balanced : IsBalanced D e.lines

  lines_of-IsPosting :
      (accounts : SettlementAccounts) (s : FinalSettlement C D) (no_severance no_leave : Bool)
      → is_zero (severance_of C D s) ≡ no_severance
      → is_zero (leave_of C D s) ≡ no_leave
      → (no_severance && no_leave) ≡ false
      → IsPosting accounts s (lines_of C D accounts s)
  unfolding lines_of
  lines_of-IsPosting accounts s false false e k h = rw (e, k) (both e k)
  lines_of-IsPosting accounts s false true e k h = rw (e, k) (severance_only e k)
  lines_of-IsPosting accounts s true false e k h = rw (e, k) (leave_only e k)
  lines_of-IsPosting accounts s true true e k h = cc

  -- The envelope of a settlement with an amount to post is as it should be.
  pub envelope_of-IsEnvelope :
      (company_id id : ℕ) (accounts : SettlementAccounts) (s : FinalSettlement C D)
      → (is_zero (severance_of C D s) && is_zero (leave_of C D s)) ≡ false
      → IsEnvelope company_id id accounts s (envelope_of C D company_id id accounts s)
  unfolding envelope_of
  envelope_of-IsEnvelope company_id id accounts s amount = record {
    of_company = refl;
    of_settlement = refl;
    posting = lines_of-IsPosting accounts s _ _ refl refl amount;
    balanced = lines_of-IsBalanced accounts s;
  }
