-- ===== src/Pesangon/Compute/Items.antt =====
-- What the items of a settlement add up to, and when they are zero.
use backbone_lifecycle.Prelude.{
  String, Bool, true, false, ◌≡◌, refl, ◌∙◌, Option, some, ok, if◌then◌else◌,
}
use backbone_lifecycle.Crates.Decimals.{
  Decimals, IsMoney, money, money_zero, money-money, IsMoney-add,
}
use backbone_lifecycle.Crates.Calendar.{Calendar, le_date}
use backbone_lifecycle.Pesangon.Params.{SeveranceParams, ReasonParams}
use backbone_lifecycle.Pesangon.LastPay.{LastPay}
use backbone_lifecycle.Pesangon.Compute.{
  SettlementInputs, SettlementBreakdown, SeveranceSettings, multipliers, leaver_items, breakdown,
  compute_settlement,
}
use backbone_lifecycle.Pesangon.Compute.Steps.{Steps-of_compute}

module _ (D : Decimals) where
  open D use {Decimal, zero_d, add, mul}

  if_money : (c : Bool) (a : Decimal) → IsMoney D (if c then money D a else zero_d)
  if_money true a = money-money D a
  if_money false a = money_zero D

module _ (C : Calendar) (D : Decimals) (inputs : SettlementInputs C.NaiveDate D.Decimal)
    (params : SeveranceParams C.NaiveDate D.Decimal) (settings : SeveranceSettings D.Decimal) where
  open C use {NaiveDate, days}
  open D use {Decimal, zero_d, add, mul}

  -- The items of a settlement are whole numbers of sen, and the totals are rounded sums of them.
  record IsItemised (b : SettlementBreakdown NaiveDate Decimal) : Type 0 where
    pesangon_money : IsMoney D b.uang_pesangon
    upmk_money : IsMoney D b.upmk
    pisah_money : IsMoney D b.uang_pisah
    payout_money : IsMoney D b.unused_leave_payout
    total_at : b.severance_total ≡ money D (add (add b.uang_pesangon b.upmk) b.uang_pisah)
    net_at : b.net_payable ≡ money D (add b.severance_total b.unused_leave_payout)

  leaver_items-IsMoney :
      (started : Bool) (p : Option (ReasonParams Decimal)) (m n w : Decimal)
      → let items = leaver_items C D started inputs settings p m n w in
        IsMoney D items.0 × IsMoney D items.1 × IsMoney D items.2
  unfolding leaver_items
  leaver_items-IsMoney true p m n w =
      (money-money D _, money-money D _, if_money D (multipliers D p).2 _)
  leaver_items-IsMoney false p m n w = (money_zero D, money_zero D, money_zero D)

  breakdown-IsItemised :
      (t : Decimal) (chosen : Option String × Option (ReasonParams Decimal))
      (last : LastPay NaiveDate Decimal)
      → IsItemised (breakdown C D inputs t params settings chosen last)
  unfolding breakdown
  breakdown-IsItemised t (c, p) last =
      let (pesangon, upmk, pisah) =
        leaver_items-IsMoney (le_date C inputs.join_date inputs.last_working_day) p _ _ _ in
      record {
        pesangon_money = pesangon;
        upmk_money = upmk;
        pisah_money = pisah;
        payout_money = money-money D _;
        total_at = refl;
        net_at = refl;
      }

  -- What a settlement pays is, to the sen, the sum of uang pesangon, UPMK, uang pisah and the leave
  -- payout; rounding the sums loses nothing, and the last pay is no part of it.
  pub net_payable-eq-sum :
      {b : SettlementBreakdown NaiveDate Decimal}
      → compute_settlement C D inputs params settings ≡ some (ok b)
      → (b.severance_total ≡ add (add b.uang_pesangon b.upmk) b.uang_pisah)
        × (b.net_payable
            ≡ add (add (add b.uang_pesangon b.upmk) b.uang_pisah) b.unused_leave_payout)
  net_payable-eq-sum {b} h =
      let s = Steps-of_compute C D inputs params settings h in
      let items : IsItemised b = rw s.result at (breakdown-IsItemised s.tenure s.chosen s.last) in
      let sum_money =
        IsMoney-add D _ _ (IsMoney-add D _ _ items.pesangon_money items.upmk_money)
          items.pisah_money in
      let total = items.total_at ∙ sum_money in
      (total, items.net_at ∙ rw total (IsMoney-add D _ _ sum_money items.payout_money))
