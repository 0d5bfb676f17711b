-- ===== src/Discipline/Moves.antt =====
-- The states of a warning letter in src/application/service/discipline_write_service.rs, and that
-- the verbs move a letter along them and leave the rest of it alone.
use backbone_lifecycle.Prelude.{
  ℕ, ◌≡◌, ◌∙◌, inl, inr, refl, ap, List, [], ◌∷◌, ◌++◌, String, Bool, true, false, Option,
  Bool-cases, update_rows, All,
}
use backbone_lifecycle.Crates.Decimals.{Decimals}
use backbone_lifecycle.Crates.Calendar.{Calendar}
use backbone_lifecycle.Store.{
  DisciplineStatus, issued, acknowledged, acknowledged_pending, contested, cancelled,
  ServedDisposition, DisciplineRecord,
}
use backbone_lifecycle.Store.Effects.{DisciplineLevel}
use backbone_lifecycle.Discipline.{is_unanswered, is_cancelled}

-- One arrow: those of the documented machine, and `overtake`, of a refusal that was checked while
-- the letter was contested and is written after others have moved it.
pub data Move : DisciplineStatus → DisciplineStatus → Type 0 where
  acknowledge : {s : DisciplineStatus} → is_unanswered s ≡ true → Move s acknowledged
  contest : {s : DisciplineStatus} → is_unanswered s ≡ true → Move s contested
  refuse : Move contested acknowledged_pending
  overtake : Move acknowledged acknowledged_pending
  cancel : {s : DisciplineStatus} → is_cancelled s ≡ false → Move s cancelled

-- Arrows one after another.
pub data Course (s : DisciplineStatus) : DisciplineStatus → Type 0 where
  stay : Course s s
  then : {t u : DisciplineStatus} → Course s t → Move t u → Course s u

pub Course-trans : {s t u : DisciplineStatus} → Course s t → Course t u → Course s u
Course-trans c stay = c
Course-trans c (then d m) = then (Course-trans c d) m

pub one : {s t : DisciplineStatus} → Move s t → Course s t
one m = then stay m

module _ (C : Calendar) (D : Decimals) where
  open C use {DateTime}

  -- What a letter states, which no verb may touch: who, what for, how it was served and until when it
  -- holds, and what HR saw when it went out.
  pub record Evidence : Type 0 where
    pub id : ℕ
    pub employee_id : ℕ
    pub level : DisciplineLevel
    pub offense : String
    pub description : String
    pub issued_at : DateTime
    pub valid_until : DateTime
    pub served_disposition : ServedDisposition
    pub document_file_id : Option ℕ
    pub prior_active_sp1 : ℕ
    pub prior_active_sp2 : ℕ
    pub issued_by : Option ℕ
    pub deleted : Bool

  abbrev pub evidence : DisciplineRecord C D → Evidence
  evidence r = record {
    id = r.id;
    employee_id = r.employee_id;
    level = r.level;
    offense = r.offense;
    description = r.description;
    issued_at = r.issued_at;
    valid_until = r.valid_until;
    served_disposition = r.served_disposition;
    document_file_id = r.document_file_id;
    prior_active_sp1 = r.prior_active_sp1;
    prior_active_sp2 = r.prior_active_sp2;
    issued_by = r.issued_by;
    deleted = r.deleted;
  }

  -- A letter and what became of it; a cancelled one is final.
  pub record Follows (x y : DisciplineRecord C D) : Type 0 where
    pub kept : evidence y ≡ evidence x
    pub course : Course x.status y.status
    pub final : is_cancelled x.status ≡ true → y ≡ x

  -- A letter that was issued meanwhile.
  abbrev pub IsFresh : DisciplineRecord C D → Type 0
  IsFresh r = Course issued r.status

  -- The letters before and after: none is lost or reordered, new ones follow.
  pub data Steps : List (DisciplineRecord C D) → List (DisciplineRecord C D) → Type 0 where
    fresh : (ys : List (DisciplineRecord C D)) → All IsFresh ys → Steps [] ys
    kept :
        {x y : DisciplineRecord C D} {xs ys : List (DisciplineRecord C D)}
        → Follows x y
        → Steps xs ys
        → Steps (x ∷ xs) (y ∷ ys)

  pub Follows-refl : (x : DisciplineRecord C D) → Follows x x
  Follows-refl x = record { kept = refl; course = stay; final = λ _. refl }

  Follows-trans : (x y z : DisciplineRecord C D) → Follows x y → Follows y z → Follows x z
  Follows-trans x y z f g = record {
    kept = g.kept ∙ f.kept;
    course = Course-trans f.course g.course;
    final = λ h.
        g.final (ap (λ (r : DisciplineRecord C D). is_cancelled r.status) (f.final h) ∙ h)
        ∙ f.final h;
  }

  IsFresh-trans :
      (ys zs : List (DisciplineRecord C D)) → All IsFresh ys → Steps ys zs → All IsFresh zs
  IsFresh-trans [] zs all (fresh _ new) = new
  IsFresh-trans (y ∷ ys) [] all s = elim s [ ]
  IsFresh-trans (y ∷ ys) (z ∷ zs) all (kept f s) =
      (Course-trans all.0 f.course, IsFresh-trans ys zs all.1 s)

  pub Steps-trans :
      {xs ys zs : List (DisciplineRecord C D)} → Steps xs ys → Steps ys zs → Steps xs zs
  Steps-trans {ys = ys} {zs = zs} (fresh _ all) s = fresh zs (IsFresh-trans ys zs all s)
  Steps-trans (kept {x} {y} f r) (kept {y = z} g s) =
      kept (Follows-trans x y z f g) (Steps-trans r s)

  pub Steps-refl : (xs : List (DisciplineRecord C D)) → Steps xs xs
  Steps-refl [] = fresh [] tt
  Steps-refl (x ∷ xs) = kept (Follows-refl x) (Steps-refl xs)

  pub Steps-append :
      (xs : List (DisciplineRecord C D)) (y : DisciplineRecord C D)
      → IsFresh y
      → Steps xs (xs ++ y ∷ [])
  Steps-append [] y h = fresh (y ∷ []) (h, tt)
  Steps-append (x ∷ xs) y h = kept (Follows-refl x) (Steps-append xs y h)

  -- An update is a step where every row that it meets is.
  pub Steps-update_rows :
      (p : DisciplineRecord C D → Bool) (f : DisciplineRecord C D → DisciplineRecord C D)
      (xs : List (DisciplineRecord C D))
      → ((x : DisciplineRecord C D) → p x ≡ true → Follows x (f x))
      → Steps xs (update_rows p f xs)
  Steps-update_rows p f [] h = fresh [] tt
  Steps-update_rows p f (x ∷ xs) h = elim (Bool-cases (p x)) [
    | inl e ↦ rw e (kept (h x e) (Steps-update_rows p f xs h))
    | inr e ↦ rw e (kept (Follows-refl x) (Steps-update_rows p f xs h))
  ]
