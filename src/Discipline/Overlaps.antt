-- ===== src/Discipline/Overlaps.antt =====
-- `move_status` of src/application/service/discipline_write_service.rs reads the status without a
-- lock and writes later, so other verbs may commit in between.
use backbone_lifecycle.Prelude.{
  ℕ, ◌≡◌, ◌≤◌, ◌==◌, ◌&&◌, inl, inr, refl, List, String, Bool, true, false, not, Option, some,
  Bool-cases, Option-cases, ok, find?, update_rows, count_rows, count_rows_mono, update_rows_none,
  some_inj, arith,
}
use backbone_lifecycle.Crates.Decimals.{Decimals}
use backbone_lifecycle.Crates.Calendar.{Calendar}
use backbone_lifecycle.Store.{
  DisciplineStatus, issued, acknowledged, acknowledged_pending, contested, cancelled,
  DisciplineRecord,
}
use backbone_lifecycle.Offboarding.Outcomes.{State}
use backbone_lifecycle.Discipline.{
  is_cancelled, may_move, is_record, is_movable, moved_row, check_move,
}
use backbone_lifecycle.Discipline.Outcomes.{first_part}
use backbone_lifecycle.Discipline.Moves.{
  Move, Course, stay, then, one, Follows, Follows-refl, Steps, fresh, kept, evidence, Steps-refl,
  Steps-update_rows,
}

-- What a refusal asks for is that of a contested letter alone.
pub refusable :
    (s : DisciplineStatus) → may_move true acknowledged_pending s ≡ ok tt → s ≡ contested
unfolding may_move
refusable contested h = refl
refusable issued h = cc
refusable acknowledged h = cc
refusable acknowledged_pending h = cc
refusable cancelled h = cc

second_part : (a b : Bool) → (a && b) ≡ true → b ≡ true
second_part true b h = h
second_part false b h = cc

not-true : (b : Bool) → not b ≡ true → b ≡ false
not-true true h = cc
not-true false h = refl

-- No arrow leads back to issued.
issued_first : {s u : DisciplineStatus} → Course s u → u ≡ issued → s ≡ issued
issued_first stay e = e
issued_first (then c (Move.acknowledge h)) e = cc
issued_first (then c (Move.contest h)) e = cc
issued_first (then c Move.refuse) e = cc
issued_first (then c Move.overtake) e = cc
issued_first (then c (Move.cancel h)) e = cc

-- Wherever a contested letter has gone since, unless it is cancelled a refusal may still be written.
after_contested :
    (s : DisciplineStatus)
    → Course contested s
    → is_cancelled s ≡ false
    → Course s acknowledged_pending
after_contested contested c h = one Move.refuse
after_contested acknowledged_pending c h = stay
after_contested acknowledged c h = one Move.overtake
after_contested cancelled c h = cc
after_contested issued c h = let e = issued_first c refl in cc

module _ (C : Calendar) (D : Decimals) where
  -- A refusal of a letter that was found contested, written after the letters have moved on.
  pub Steps-refuse :
      (id : ℕ) (reason : Option String) {xs ys : List (DisciplineRecord C D)}
      {r : DisciplineRecord C D}
      → Steps C D xs ys
      → find? (is_record C D id) xs ≡ some r
      → r.status ≡ contested
      → count_rows (is_record C D id) ys ≤ 1
      → Steps C D ys
          (update_rows (is_movable C D id) (moved_row C D acknowledged_pending reason) ys)
  Steps-refuse id reason (fresh ys all) e s once = cc
  Steps-refuse id reason {r = r} (kept {x} {y} {xs} {ys} f rest) e s once =
      elim (Bool-cases (x.id == id)) [
        | inl l ↦
            let here : x ≡ r = some_inj (rw l at e) in
            let same : (y.id == id) ≡ true = rw (same_id f.kept) l in
            let alone : count_rows (is_record C D id) ys ≡ 0 = ground arith in
            let tail_none : count_rows (is_movable C D id) ys ≡ 0 = omega (
              arith,
              alone,
              count_rows_mono (is_movable C D id) (is_record C D id) ys
                  (λ z h. first_part (z.id == id) (not (is_cancelled z.status)) h),
            ) in
            rw
              (update_rows_none (is_movable C D id) (moved_row C D acknowledged_pending reason) ys
                tail_none)
              (elim (Bool-cases (is_movable C D id y)) [
                | inl m ↦ rw m (kept (refused here f.course m) (Steps-refl C D ys))
                | inr m ↦ rw m (kept (Follows-refl C D y) (Steps-refl C D ys))
              ])
        | inr l ↦
            let other : (y.id == id) ≡ false = rw (same_id f.kept) l in
            rw other (
              kept (Follows-refl C D y)
                (Steps-refuse id reason {r = r} rest (rw l at e) s (ground arith)))
      ]
    where
      same_id : evidence C D y ≡ evidence C D x → y.id ≡ x.id
      same_id k = cc

      refused :
          x ≡ r
          → Course x.status y.status
          → is_movable C D id y ≡ true
          → Follows C D y (moved_row C D acknowledged_pending reason y)
      refused here c m =
          let live =
            not-true (is_cancelled y.status)
              (second_part (y.id == id) (not (is_cancelled y.status)) m) in
          record {
            kept = refl;
            course = after_contested y.status (rw (here, s) at c) live;
            final = λ h. cc;
          }

  -- A cancellation, whenever it is written.
  pub Steps-cancel :
      (id : ℕ) (reason : Option String) (xs : List (DisciplineRecord C D))
      → Steps C D xs (update_rows (is_movable C D id) (moved_row C D cancelled reason) xs)
  Steps-cancel id reason xs =
      Steps-update_rows C D (is_movable C D id) (moved_row C D cancelled reason) xs λ x h.
        let live =
          not-true (is_cancelled x.status)
            (second_part (x.id == id) (not (is_cancelled x.status)) h) in
        record { kept = refl; course = one (Move.cancel live); final = λ e. cc }

  -- A check that a refusal passed found the letter contested.
  pub check_move-contested :
      (id : ℕ) (w : State C D)
      → (check_move C D id true acknowledged_pending w).0 ≡ ok tt
      → (r : DisciplineRecord C D) × (find? (is_record C D id) w.db.discipline_records ≡ some r)
        × (r.status ≡ contested)
  unfolding check_move
  check_move-contested id w h =
      elim (Option-cases (find? (is_record C D id) w.db.discipline_records)) [
        | inl e ↦ absurd (cc (rw e at h))
        | inr (r, e) ↦ (r, e, refusable r.status (rw e at h))
      ]
