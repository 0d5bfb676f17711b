-- ===== src/FinalSettlement/Confirming.antt =====
-- What `confirm` of src/application/service/final_settlement_write_service.rs does, branch by
-- branch, with an `is_balanced` that accepts envelopes that balance.
use backbone_lifecycle.Prelude.{
  ℕ, ◌≡◌, ◌≢◌, inl, inr, refl, [], ◌∷◌, ◌++◌, Bool, true, false, ◌&&◌, Option, none, some,
  Option-cases, Result, Result-cases, ok, err, find?,
}
use backbone_lifecycle.Crates.Decimals.{Decimals, less}
use backbone_lifecycle.Crates.Calendar.{Calendar}
use backbone_lifecycle.Store.{SettlementStatus, draft, confirmed, paid, disputed, FinalSettlement}
use backbone_lifecycle.Store.Effects.{envelope_posted, AccountingPostEnvelope}
use backbone_lifecycle.Offboarding.Outcomes.{State}
use backbone_lifecycle.FinalSettlement.{
  Failure, not_found, not_draft, nothing_to_post, tax_requires_account, no_company_scope,
  SettlementAccounts, GlPostAck, GlPostRejected, GlPostSink, rejection_into, is_settlement, has_tax,
  severance_of, leave_of, envelope_of, lines_of, stamp, confirm,
}
use backbone_lifecycle.FinalSettlement.Posting.{
  IsBalanced, lines_of-IsBalanced, IsEnvelope, envelope_of-IsEnvelope,
}

module _ (C : Calendar) (D : Decimals) where
  open D use {Decimal, zero_d, add, is_zero}

  abbrev pub FoundAs : ℕ → State C D → FinalSettlement C D → Type 0
  FoundAs id w s = find? (is_settlement C D id) w.db.final_settlements ≡ some s

  -- A settlement that may be posted: an unposted draft without tax, with an amount to post.
  pub record IsPostable (s : FinalSettlement C D) : Type 0 where
    pub unposted : s.accounting_post_id ≡ none
    pub is_draft : s.status ≡ draft
    pub untaxed : has_tax C D s.tax_deduction ≡ false
    pub amount : (is_zero (severance_of C D s) && is_zero (leave_of C D s)) ≡ false

  -- What `confirm` returns and leaves, branch by branch.
  pub data ConfirmOutcome (gl : GlPostSink C D) (company : Option ℕ) (id : ℕ)
      (accounts : SettlementAccounts) (w : State C D)
      : Result (Failure C D) (Option GlPostAck) × State C D → Type 0 where
    unscoped : company ≡ none → ConfirmOutcome gl company id accounts w (err no_company_scope, w)
    missing :
        company ≢ none
        → find? (is_settlement C D id) w.db.final_settlements ≡ none
        → ConfirmOutcome gl company id accounts w (err (not_found id), w)
    posted :
        (s : FinalSettlement C D) (post_id : ℕ)
        → company ≢ none
        → FoundAs id w s
        → s.accounting_post_id ≡ some post_id
        → ConfirmOutcome gl company id accounts w (ok none, w)
    undraft :
        (s : FinalSettlement C D) (status : SettlementStatus)
        → company ≢ none
        → FoundAs id w s
        → s.accounting_post_id ≡ none
        → (s.status ≡ status) × (status ≢ draft)
        → ConfirmOutcome gl company id accounts w (err (not_draft id status), w)
    taxed :
        (s : FinalSettlement C D) (tax : Decimal)
        → company ≢ none
        → FoundAs id w s
        → (s.accounting_post_id ≡ none) × (s.status ≡ draft)
        → (s.tax_deduction ≡ some tax) × (less D zero_d tax ≡ true)
        → ConfirmOutcome gl company id accounts w (err (tax_requires_account id tax), w)
    nothing :
        (s : FinalSettlement C D)
        → company ≢ none
        → FoundAs id w s
        → (s.accounting_post_id ≡ none) × (s.status ≡ draft) × (has_tax C D s.tax_deduction ≡ false)
        → (is_zero (severance_of C D s) && is_zero (leave_of C D s)) ≡ true
        → ConfirmOutcome gl company id accounts w (err (nothing_to_post id), w)
    rejected :
        (company_id : ℕ) (s : FinalSettlement C D) (rej : GlPostRejected)
        (e : AccountingPostEnvelope Decimal)
        → company ≡ some company_id
        → FoundAs id w s
        → IsPostable s
        → IsEnvelope C D company_id id accounts s e
        → gl w.sent e ≡ err rej
        → ConfirmOutcome gl company id accounts w
            (err (rejection_into rej), record w { sent = w.sent ++ envelope_posted e ∷ [] })
    done :
        (company_id : ℕ) (s : FinalSettlement C D) (ack : GlPostAck)
        (e : AccountingPostEnvelope Decimal)
        → company ≡ some company_id
        → FoundAs id w s
        → IsPostable s
        → IsEnvelope C D company_id id accounts s e
        → gl w.sent e ≡ ok ack
        → ConfirmOutcome gl company id accounts w (
          ok (some ack),
          record { db = stamp C D id ack w.db; sent = w.sent ++ envelope_posted e ∷ [] },
        )

  module _ (is_balanced : AccountingPostEnvelope Decimal → Bool)
      (accepts : (e : AccountingPostEnvelope Decimal) → IsBalanced D e.lines → is_balanced e ≡ true)
      (gl : GlPostSink C D) where
    envelope-accepted :
        (company_id id : ℕ) (accounts : SettlementAccounts) (s : FinalSettlement C D)
        → is_balanced (envelope_of C D company_id id accounts s) ≡ true
    unfolding envelope_of
    envelope-accepted company_id id accounts s = accepts _ (lines_of-IsBalanced C D accounts s)

    confirm_postable :
        (company_id id : ℕ) (accounts : SettlementAccounts) (w : State C D)
        (s : FinalSettlement C D)
        → FoundAs id w s
        → IsPostable s
        → ConfirmOutcome gl
            (some company_id)
            id
            accounts
            w
            (confirm C D is_balanced gl (some company_id) id accounts w)
    unfolding confirm envelope_of lines_of
    confirm_postable company_id id accounts w s e p =
        let accepted = envelope-accepted company_id id accounts s in
        elim (Result-cases (gl w.sent (envelope_of C D company_id id accounts s))) [
          | inl (ack, k) ↦
              rw (e, p.unposted, p.is_draft, p.untaxed, p.amount, accepted, k)
                (done company_id s ack _ refl e p
                  (envelope_of-IsEnvelope C D company_id id accounts s p.amount) k)
          | inr (rej, k) ↦
              rw (e, p.unposted, p.is_draft, p.untaxed, p.amount, accepted, k)
                (rejected company_id s rej _ refl e p
                  (envelope_of-IsEnvelope C D company_id id accounts s p.amount) k)
        ]

    confirm_draft :
        (company_id id : ℕ) (accounts : SettlementAccounts) (w : State C D)
        (s : FinalSettlement C D) (tax : Option Decimal) (is_taxed nothing_due : Bool)
        → FoundAs id w s
        → s.accounting_post_id ≡ none
        → s.status ≡ draft
        → s.tax_deduction ≡ tax
        → has_tax C D tax ≡ is_taxed
        → (is_zero (severance_of C D s) && is_zero (leave_of C D s)) ≡ nothing_due
        → ConfirmOutcome gl
            (some company_id)
            id
            accounts
            w
            (confirm C D is_balanced gl (some company_id) id accounts w)
    unfolding confirm
    confirm_draft company_id id accounts w s none true _ e u d x t n = cc
    confirm_draft company_id id accounts w s (some tax) true _ e u d x t n =
        rw (e, u, d, x, t) (taxed s tax (λ h. cc) e (u, d) (x, t))
    confirm_draft company_id id accounts w s tax false true e u d x t n =
        rw (e, u, d, x, t, n) (nothing s (λ h. cc) e (u, d, rw x t) n)
    confirm_draft company_id id accounts w s tax false false e u d x t n =
        confirm_postable company_id id accounts w s e
          (record { unposted = u; is_draft = d; untaxed = rw x t; amount = n })

    confirm_found :
        (company_id id : ℕ) (accounts : SettlementAccounts) (w : State C D)
        (s : FinalSettlement C D) (post_id : Option ℕ) (status : SettlementStatus)
        → FoundAs id w s
        → s.accounting_post_id ≡ post_id
        → s.status ≡ status
        → ConfirmOutcome gl
            (some company_id)
            id
            accounts
            w
            (confirm C D is_balanced gl (some company_id) id accounts w)
    unfolding confirm
    confirm_found company_id id accounts w s (some p) status e u d =
        rw (e, u) (posted s p (λ h. cc) e u)
    confirm_found company_id id accounts w s none draft e u d =
        confirm_draft company_id id accounts w s _ _ _ e u d refl refl refl
    confirm_found company_id id accounts w s none confirmed e u d =
        rw (e, u, d) (undraft s confirmed (λ h. cc) e u (d, λ h. cc))
    confirm_found company_id id accounts w s none paid e u d =
        rw (e, u, d) (undraft s paid (λ h. cc) e u (d, λ h. cc))
    confirm_found company_id id accounts w s none disputed e u d =
        rw (e, u, d) (undraft s disputed (λ h. cc) e u (d, λ h. cc))

    -- Confirming a settlement, on every branch, with any ledger sink and any balance test that
    -- accepts what balances. An envelope is posted once, and only for a request with a company and
    -- an unposted draft without a positive tax and with an amount to post. It is the company's,
    -- debits each amount that is not zero to its own expense account, credits the employee with
    -- both, and balances. The row is stamped with the ledger's ids only after the acknowledgement; a
    -- posted settlement, whatever its status, is a no-op without an envelope; a rejection leaves the
    -- row a draft; every other case is the matching error without an envelope; and the error that an
    -- envelope does not balance never occurs.
    pub confirm-ConfirmOutcome :
        (company : Option ℕ) (id : ℕ) (accounts : SettlementAccounts) (w : State C D)
        → ConfirmOutcome gl company id accounts w (confirm C D is_balanced gl company id accounts w)
    unfolding confirm
    confirm-ConfirmOutcome none id accounts w = unscoped refl
    confirm-ConfirmOutcome (some company_id) id accounts w =
        elim (Option-cases (find? (is_settlement C D id) w.db.final_settlements)) [
          | inl e ↦ rw e (missing (λ h. cc) e)
          | inr (s, e) ↦ confirm_found company_id id accounts w s _ _ e refl refl
        ]
