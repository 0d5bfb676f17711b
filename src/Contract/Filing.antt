-- ===== src/Contract/Filing.antt =====
-- What `file_decision` of src/application/service/contract_write_service.rs does, branch by branch.
use backbone_lifecycle.Prelude.{
  ℕ, ◌≡◌, ◌↔◌, inl, inr, refl, [], ◌∷◌, ◌++◌, String, Bool, true, false, Option, none, some,
  Option-cases, Result, ok, err, find?,
}
use backbone_lifecycle.Crates.Decimals.{Decimals}
use backbone_lifecycle.Crates.Calendar.{Calendar, le_date}
use backbone_lifecycle.Store.{decision_pending, Contract}
use backbone_lifecycle.Store.Effects.{
  ContractType, pkwt, pkwtt, ContractDecision, renew, convert, end, decision_filed,
}
use backbone_lifecycle.Contract.{
  ContractError, not_found, transport, renewal_start, is_active_contract, set_status, check_outcome,
  filing_of, ContractApprovalsPort, file_decision,
}
use backbone_lifecycle.Contract.Applying.{State}

module _ (C : Calendar) (D : Decimals) where
  open C use {NaiveDate}

  -- What a decision needs: a renewal a fixed term and an end after the new start, a conversion a
  -- fixed term, an end a date to end on.
  abbrev pub IsSuitable : NaiveDate → Contract C D → ContractDecision → Option NaiveDate → Type 0
  IsSuitable today c renew new_end_date =
      (c.contract_type ≡ pkwt)
      × ((e : NaiveDate) × (new_end_date ≡ some e)
          × (le_date C e (renewal_start C c.end_date today) ≡ false))
  IsSuitable today c convert new_end_date = c.contract_type ≡ pkwt
  IsSuitable today c end new_end_date = (e : NaiveDate) × (c.end_date ≡ some e)

  renew-IsSuitable :
      (today e : NaiveDate) (c : Contract C D) (kind : ContractType) (early : Bool)
      → c.contract_type ≡ kind
      → le_date C e (renewal_start C c.end_date today) ≡ early
      → check_outcome C D renew (some e) today c ≡ ok tt
      → IsSuitable today c renew (some e)
  unfolding check_outcome
  renew-IsSuitable today e c pkwt false k l h = (k, (e, refl, l))
  renew-IsSuitable today e c pkwt true k l h = cc (rw (k, l) at h)
  renew-IsSuitable today e c pkwtt early k l h = cc (rw k at h)

  IsSuitable-of_check :
      (today : NaiveDate) (c : Contract C D) (outcome : ContractDecision)
      (new_end_date : Option NaiveDate) (kind : ContractType) (last : Option NaiveDate)
      → c.contract_type ≡ kind
      → c.end_date ≡ last
      → check_outcome C D outcome new_end_date today c ≡ ok tt
      → IsSuitable today c outcome new_end_date
  unfolding check_outcome
  IsSuitable-of_check today c renew (some e) kind last k l h =
      renew-IsSuitable today e c kind _ k refl h
  IsSuitable-of_check today c renew none pkwt last k l h = cc (rw k at h)
  IsSuitable-of_check today c renew none pkwtt last k l h = cc (rw k at h)
  IsSuitable-of_check today c convert n pkwt last k l h = k
  IsSuitable-of_check today c convert n pkwtt last k l h = cc (rw k at h)
  IsSuitable-of_check today c end n kind (some e) k l h = (e, l)
  IsSuitable-of_check today c end n kind none k l h = cc (rw l at h)

  check_of_suitable :
      (today : NaiveDate) (c : Contract C D) (outcome : ContractDecision)
      (new_end_date : Option NaiveDate)
      → IsSuitable today c outcome new_end_date
      → check_outcome C D outcome new_end_date today c ≡ ok tt
  unfolding check_outcome
  check_of_suitable today c renew n (k, (e, l, m)) = rw (k, l, m) refl
  check_of_suitable today c convert n k = rw k refl
  check_of_suitable today c end n (e, l) = rw l refl

  -- The check before a filing accepts exactly the decisions that suit the contract: a renewal of a
  -- fixed term to a day after the new start, a conversion of a fixed term, and an end of a contract
  -- that has an end date.
  pub check_outcome_iff :
      (today : NaiveDate) (c : Contract C D) (outcome : ContractDecision)
      (new_end_date : Option NaiveDate)
      → (check_outcome C D outcome new_end_date today c ≡ ok tt)
        ↔ IsSuitable today c outcome new_end_date
  check_outcome_iff today c outcome n =
      (IsSuitable-of_check today c outcome n _ _ refl refl, check_of_suitable today c outcome n)

  -- What `file_decision` returns, files and leaves, branch by branch.
  pub data FileOutcome (port : ContractApprovalsPort C D) (today : NaiveDate) (id : ℕ)
      (outcome : ContractDecision) (new_end_date : Option NaiveDate) (w : State C D)
      : Result ContractError ℕ × State C D → Type 0 where
    missing :
        find? (is_active_contract C D id) w.db.contracts ≡ none
        → FileOutcome port today id outcome new_end_date w (err (not_found "active contract"), w)
    unsuitable :
        (c : Contract C D) (e : ContractError)
        → find? (is_active_contract C D id) w.db.contracts ≡ some c
        → check_outcome C D outcome new_end_date today c ≡ err e
        → FileOutcome port today id outcome new_end_date w (err e, w)
    unanswered :
        (c : Contract C D) (reason : String)
        → find? (is_active_contract C D id) w.db.contracts ≡ some c
        → IsSuitable today c outcome new_end_date
        → port w.sent (filing_of C D outcome new_end_date c) ≡ err reason
        → FileOutcome port today id outcome new_end_date w (
          err (transport reason),
          record w { sent = w.sent ++ decision_filed (filing_of C D outcome new_end_date c) ∷ [] },
        )
    filed :
        (c : Contract C D) (request_id : ℕ)
        → find? (is_active_contract C D id) w.db.contracts ≡ some c
        → IsSuitable today c outcome new_end_date
        → port w.sent (filing_of C D outcome new_end_date c) ≡ ok request_id
        → FileOutcome port today id outcome new_end_date w (
          ok request_id,
          record {
            db = set_status C D id decision_pending w.db;
            sent = w.sent ++ decision_filed (filing_of C D outcome new_end_date c) ∷ [];
          },
        )

  file_checked :
      (port : ContractApprovalsPort C D) (today : NaiveDate) (id : ℕ) (outcome : ContractDecision)
      (new_end_date : Option NaiveDate) (w : State C D) (c : Contract C D)
      (checked : Result ContractError (Unit {0})) (answer : Result String ℕ)
      → find? (is_active_contract C D id) w.db.contracts ≡ some c
      → check_outcome C D outcome new_end_date today c ≡ checked
      → port w.sent (filing_of C D outcome new_end_date c) ≡ answer
      → FileOutcome port today id outcome new_end_date w
          (file_decision C D port today id outcome new_end_date w)
  unfolding file_decision
  file_checked port today id outcome n w c (err x) answer e k a = rw (e, k) (unsuitable c x e k)
  file_checked port today id outcome n w c (ok u) (err reason) e k a =
      rw (e, k, a) (unanswered c reason e ((check_outcome_iff today c outcome n).0 k) a)
  file_checked port today id outcome n w c (ok u) (ok request_id) e k a =
      rw (e, k, a) (filed c request_id e ((check_outcome_iff today c outcome n).0 k) a)

  -- Filing a decision, on every branch and for any approvals engine. A suitable decision on a live
  -- active contract is filed once, and the contract is marked pending only when the engine accepts
  -- it; a missing contract or an unsuitable decision files nothing; a refusal of the engine leaves
  -- all tables alone.
  pub file_decision-FileOutcome :
      (port : ContractApprovalsPort C D) (today : NaiveDate) (id : ℕ) (outcome : ContractDecision)
      (new_end_date : Option NaiveDate) (w : State C D)
      → FileOutcome port today id outcome new_end_date w
          (file_decision C D port today id outcome new_end_date w)
  unfolding file_decision
  file_decision-FileOutcome port today id outcome n w =
      elim (Option-cases (find? (is_active_contract C D id) w.db.contracts)) [
        | inl e ↦ rw e (missing e)
        | inr (c, e) ↦ file_checked port today id outcome n w c _ _ e refl refl
      ]
