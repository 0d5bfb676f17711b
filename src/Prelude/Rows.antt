-- ===== src/Prelude/Rows.antt =====
-- How statements change the number of the rows that meet a condition.
use mathlib.Core.List.{List, [], ◌∷◌, ◌++◌}
use mathlib.Core.Path.{◌≡◌, refl, sym, ap, subst, ◌∙◌}
use mathlib.Core.Logic.{inl, inr}
use mathlib.Core.Bool.{Bool, true, false, not}
use mathlib.Core.Option.{Option, none, some}
use Prim.Native.Nat.{ℕ, ◌+◌, ◌≤◌}
use native.Mathlib.Omega.{arith}
use backbone_lifecycle.Prelude.Tests.{Bool-cases}
use backbone_lifecycle.Prelude.Tables.{find?, update_rows, count_rows, select_rows, All}

-- 1 for a row that counts, 0 for another.
abbrev pub tally : Bool → ℕ
tally true = 1
tally false = 0

module _ {ℓ} {A : Type ℓ} where
  pub find?-holds : (p : A → Bool) (xs : List A) {x : A} → find? p xs ≡ some x → p x ≡ true
  find?-holds p [] h = cc
  find?-holds p (y ∷ xs) {x} h = ground (arith, find?-holds p xs {x = x})

  pub count_rows-append :
      (q : A → Bool) (xs : List A) (y : A)
      → count_rows q (xs ++ y ∷ []) ≡ count_rows q xs + tally (q y)
  count_rows-append q [] y = ground arith
  count_rows-append q (x ∷ xs) y = ground (arith, count_rows-append q xs y)

  -- An update that leaves a condition alone leaves its count alone.
  pub count_rows-update_same :
      (p q : A → Bool) (f : A → A) (xs : List A)
      → ((x : A) → p x ≡ true → q (f x) ≡ q x)
      → count_rows q (update_rows p f xs) ≡ count_rows q xs
  count_rows-update_same p q f [] h = refl
  count_rows-update_same p q f (x ∷ xs) h = ground (arith, h x, count_rows-update_same p q f xs h)

  pub update_rows_none :
      (p : A → Bool) (f : A → A) (xs : List A) → count_rows p xs ≡ 0 → update_rows p f xs ≡ xs
  update_rows_none p f [] h = refl
  update_rows_none p f (x ∷ xs) h = ground (arith, update_rows_none p f xs)

  -- Where one row at most is met, an update changes a count by what it does to the row found.
  pub count_rows-update_one :
      (p q : A → Bool) (f : A → A) (xs : List A) {x : A}
      → find? p xs ≡ some x
      → count_rows p xs ≤ 1
      → count_rows q (update_rows p f xs) + tally (q x) ≡ count_rows q xs + tally (q (f x))
  count_rows-update_one p q f [] h one = cc
  count_rows-update_one p q f (y ∷ xs) {x} h one = elim (Bool-cases (p y)) [
    | inl here ↦ ground (arith, update_rows_none p f xs)
    | inr there ↦ ground (arith, count_rows-update_one p q f xs {x = x})
  ]

  pub find?-none : (p : A → Bool) (xs : List A) → find? p xs ≡ none → count_rows p xs ≡ 0
  find?-none p [] h = refl
  find?-none p (x ∷ xs) h = ground (arith, find?-none p xs)

  abbrev found_image : (A → A) → Option A → Option A
  found_image f none = none
  found_image f (some x) = some (f x)

  -- An update that keeps its rows findable is what is found after it.
  pub find?-update_rows :
      (p : A → Bool) (f : A → A) (xs : List A) {x : A}
      → ((y : A) → p (f y) ≡ p y)
      → find? p xs ≡ some x
      → find? p (update_rows p f xs) ≡ some (f x)
  find?-update_rows p f [] keeps h = cc
  find?-update_rows p f (y ∷ xs) {x} keeps h = elim (Bool-cases (p y)) [
    | inl here ↦ rw (here, keeps y, here) (ap (λ o. found_image f o) (rw here at h))
    | inr there ↦ rw (there, there) (find?-update_rows p f xs {x = x} keeps (rw there at h))
  ]

  -- A row added at the end that alone is met.
  pub update_rows-append :
      (p : A → Bool) (f : A → A) (xs : List A) (y : A)
      → count_rows p xs ≡ 0
      → p y ≡ true
      → update_rows p f (xs ++ y ∷ []) ≡ xs ++ f y ∷ []
  update_rows-append p f [] y h k = rw k refl
  update_rows-append p f (x ∷ xs) y h k = ground (arith, update_rows-append p f xs y)

  pub delete_rows-append :
      (p : A → Bool) (xs : List A) (y : A)
      → count_rows p xs ≡ 0
      → p y ≡ true
      → select_rows (λ x. not (p x)) (xs ++ y ∷ []) ≡ xs
  delete_rows-append p [] y h k = rw k refl
  delete_rows-append p (x ∷ xs) y h k = ground (arith, delete_rows-append p xs y)

  pub All-append : (P : A → Type ℓ) (xs : List A) (y : A) → All P xs → P y → All P (xs ++ y ∷ [])
  All-append P [] y all h = (h, tt)
  All-append P (x ∷ xs) y all h = (all.0, All-append P xs y all.1 h)

  -- An update keeps what its function keeps on the rows that it meets.
  pub All-update_rows :
      (P : A → Type ℓ) (p : A → Bool) (f : A → A) (xs : List A)
      → ((x : A) → p x ≡ true → P x → P (f x))
      → All P xs
      → All P (update_rows p f xs)
  All-update_rows P p f [] h all = tt
  All-update_rows P p f (x ∷ xs) h all = elim (Bool-cases (p x)) [
    | inl e ↦ rw e (h x e all.0, All-update_rows P p f xs h all.1)
    | inr e ↦ rw e (all.0, All-update_rows P p f xs h all.1)
  ]

  pub some_inj : {x y : A} → some x ≡ some y → x ≡ y
  some_inj e = cc

  pub All-find? :
      (P : A → Type ℓ) (p : A → Bool) (xs : List A) {x : A} → find? p xs ≡ some x → All P xs → P x
  All-find? P p [] h all = cc
  All-find? P p (y ∷ xs) {x} h all = elim (Bool-cases (p y)) [
    | inl e ↦ subst P (some_inj (rw e at h)) all.0
    | inr e ↦ All-find? P p xs {x = x} (rw e at h) all.1
  ]

  -- Where one row at most is met, what the row found becomes is all that has to be shown.
  pub All-update_one :
      (P : A → Type ℓ) (p : A → Bool) (f : A → A) (xs : List A) {x : A}
      → find? p xs ≡ some x
      → count_rows p xs ≤ 1
      → P (f x)
      → All P xs
      → All P (update_rows p f xs)
  All-update_one P p f [] h one k all = cc
  All-update_one P p f (y ∷ xs) {x} h one k all = elim (Bool-cases (p y)) [
    | inl e ↦
        rw (e, update_rows_none p f xs (ground arith))
          (subst (λ z. P (f z)) (sym (some_inj (rw e at h))) k, all.1)
    | inr e ↦ rw e (all.0, All-update_one P p f xs {x = x} (rw e at h) (ground arith) k all.1)
  ]

  pub count_rows_mono :
      (p q : A → Bool) (xs : List A)
      → ((x : A) → p x ≡ true → q x ≡ true)
      → count_rows p xs ≤ count_rows q xs
  count_rows_mono p q [] h = omega arith
  count_rows_mono p q (x ∷ xs) h = ground (arith, h x, count_rows_mono p q xs h)

  pub find?-counted :
      (p : A → Bool) (xs : List A) {x : A} → find? p xs ≡ some x → 1 ≤ count_rows p xs
  find?-counted p [] h = cc
  find?-counted p (y ∷ xs) {x} h = ground (arith, find?-counted p xs {x = x})

  pub find?-member :
      (p q : A → Bool) (xs : List A) {x : A}
      → find? p xs ≡ some x
      → q x ≡ true
      → 1 ≤ count_rows q xs
  find?-member p q [] h k = cc
  find?-member p q (y ∷ xs) {x} h k = elim (Bool-cases (p y)) [
    | inl e ↦ rw (ap q (some_inj (rw e at h)) ∙ k) (omega arith)
    | inr e ↦ let rest = find?-member p q xs {x = x} (rw e at h) k in ground (arith, rest)
  ]

  -- A row that is found by one condition and meets another that one row at most meets.
  pub find?_other :
      (p q : A → Bool) (xs : List A) {x : A}
      → find? p xs ≡ some x
      → q x ≡ true
      → count_rows q xs ≤ 1
      → find? q xs ≡ some x
  find?_other p q [] h k one = cc
  find?_other p q (y ∷ xs) {x} h k one = elim (Bool-cases (p y)) [
    | inl e ↦ rw (ap q (some_inj (rw e at h)) ∙ k) (rw e at h)
    | inr e ↦ elim (Bool-cases (q y)) [
      | inl l ↦ elim (crowded l (find?-member p q xs {x = x} (rw e at h) k)) [ ]
      | inr l ↦ rw l (find?_other p q xs {x = x} (rw e at h) k (rest_once l))
    ]
  ]
    where
      rest_none : q y ≡ true → count_rows q xs ≡ 0
      rest_none l = ground arith

      crowded : q y ≡ true → 1 ≤ count_rows q xs → ⊥
      crowded l m = omega (arith, m, rest_none l)

      rest_once : q y ≡ false → count_rows q xs ≤ 1
      rest_once l = ground arith

  -- A row added at the end that alone is met is the one found.
  pub find?-append :
      (p : A → Bool) (xs : List A) (y : A)
      → count_rows p xs ≡ 0
      → p y ≡ true
      → find? p (xs ++ y ∷ []) ≡ some y
  find?-append p [] y h k = rw k refl
  find?-append p (x ∷ xs) y h k = elim (Bool-cases (p x)) [
    | inl e ↦ elim (counted e) [ ]
    | inr e ↦ rw e (find?-append p xs y (rest_none e) k)
  ]
    where
      counted : p x ≡ true → ⊥
      counted e = ground arith

      rest_none : p x ≡ false → count_rows p xs ≡ 0
      rest_none e = ground arith
