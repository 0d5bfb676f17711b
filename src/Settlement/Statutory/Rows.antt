-- ===== src/Settlement/Statutory/Rows.antt =====
-- Which rows of a statutory table make a set.
use mathlib.Core.List.{Memᴰ}
use backbone_lifecycle.Prelude.{
  List, [], ◌∷◌, String, Bool, true, false, ◌≡◌, ◌↔◌, ◌⊎◌, ◌&&◌, inl, inr, refl, sym, Bool-cases,
  eq_iff, leb, ==→eq, arith,
}
use backbone_lifecycle.Crates.Calendar.{Calendar}
use backbone_lifecycle.Pesangon.Params.{TenureBand}
use backbone_lifecycle.Settlement.Statutory.{
  Dated, is_of_set, values_of, set_of, insert_band, order_bands, collect,
}

pub and_parts : (a b : Bool) → (a && b) ≡ true → (a ≡ true) × (b ≡ true)
and_parts true b h = (refl, h)
and_parts false b h = cc

module _ {A : Type 0} where
  -- Collecting keeps what there was and adds what comes.
  Mem-collect : (acc xs : List A) {x : A} → Memᴰ x (collect acc xs) → Memᴰ x acc ⊎ Memᴰ x xs
  unfolding collect
  Mem-collect acc [] m = inl m
  Mem-collect acc (y ∷ xs) m = elim (Mem-collect (y ∷ acc) xs m) [
    | inl (Memᴰ.head e) ↦ inr (Memᴰ.head e)
    | inl (Memᴰ.tail k) ↦ inl k
    | inr k ↦ inr (Memᴰ.tail k)
  ]

  collect-Mem : (acc xs : List A) {x : A} → Memᴰ x acc ⊎ Memᴰ x xs → Memᴰ x (collect acc xs)
  unfolding collect
  collect-Mem acc [] (inl m) = m
  collect-Mem acc (y ∷ xs) (inl m) = collect-Mem (y ∷ acc) xs (inl (Memᴰ.tail m))
  collect-Mem acc (y ∷ xs) (inr (Memᴰ.head e)) = collect-Mem (y ∷ acc) xs (inl (Memᴰ.head e))
  collect-Mem acc (y ∷ xs) (inr (Memᴰ.tail m)) = collect-Mem (y ∷ acc) xs (inr m)
  collect-Mem acc [] (inr m) = elim m [ ]

module _ {Decimal : Type 0} where
  Mem-insert_band :
      (b : TenureBand Decimal) (bands : List (TenureBand Decimal)) {x : TenureBand Decimal}
      → Memᴰ x (insert_band b bands) ↔ Memᴰ x (b ∷ bands)
  unfolding insert_band
  Mem-insert_band b [] = (λ m. m, λ m. m)
  Mem-insert_band b (c ∷ bands) = elim (Bool-cases (leb b.min_service_years c.min_service_years)) [
    | inl e ↦ rw e (λ m. m, λ m. m)
    | inr e ↦
        let rest = Mem-insert_band b bands in
        rw e (
          λ m. elim m [
            | Memᴰ.head h ↦ Memᴰ.tail (Memᴰ.head h)
            | Memᴰ.tail k ↦ elim (rest.0 k) [
              | Memᴰ.head h ↦ Memᴰ.head h
              | Memᴰ.tail l ↦ Memᴰ.tail (Memᴰ.tail l)
            ]
          ],
          λ m. elim m [
            | Memᴰ.head h ↦ Memᴰ.tail (rest.1 (Memᴰ.head h))
            | Memᴰ.tail k ↦ elim k [
              | Memᴰ.head h ↦ Memᴰ.head h
              | Memᴰ.tail l ↦ Memᴰ.tail (rest.1 (Memᴰ.tail l))
            ]
          ],
        )
  ]

  Mem-order_bands :
      (bands : List (TenureBand Decimal)) {x : TenureBand Decimal}
      → Memᴰ x (order_bands bands) ↔ Memᴰ x bands
  unfolding order_bands
  Mem-order_bands [] = (λ m. m, λ m. m)
  Mem-order_bands (b ∷ bands) {x} =
      let rest = Mem-order_bands bands {x = x} in
      let step = Mem-insert_band b (order_bands bands) {x = x} in
      (
        λ m. elim (step.0 m) [ Memᴰ.head h ↦ Memᴰ.head h | Memᴰ.tail k ↦ Memᴰ.tail (rest.0 k) ],
        λ m. step.1 (elim m [ Memᴰ.head h ↦ Memᴰ.head h | Memᴰ.tail k ↦ Memᴰ.tail (rest.1 k) ]),
      )

module _ (C : Calendar) (country : String) {A : Type 0} where
  open C use {NaiveDate, days}

  -- A row of the country and of the date, with the values.
  abbrev pub IsRowOf : List (Dated NaiveDate A) → NaiveDate → A → Type 0
  IsRowOf rows date x =
      (r : Dated NaiveDate A) × Memᴰ r rows
      × (r.country_code ≡ country)
      × (days r.effective_from ≡ days date)
      × (r.values ≡ x)

  later_row :
      (r : Dated NaiveDate A) (rows : List (Dated NaiveDate A)) (date : NaiveDate) (x : A)
      → IsRowOf rows date x
      → IsRowOf (r ∷ rows) date x
  later_row r rows date x (s, m, c, d, v) = (s, Memᴰ.tail m, c, d, v)

  -- The values of a set are those of the country's rows of its date.
  set_of-rows :
      (rows : List (Dated NaiveDate A)) (date : NaiveDate) (x : A)
      → Memᴰ x (set_of C country rows date)
      → IsRowOf rows date x
  unfolding set_of values_of
  set_of-rows [] date x m = elim m [ ]
  set_of-rows (r ∷ rows) date x m = elim (Bool-cases (is_of_set C country date r)) [
    | inl e ↦
        let (same, day) = and_parts _ _ e in
        elim (rw e at m) [
          | Memᴰ.head h ↦
              (r, Memᴰ.head refl, (eq_iff r.country_code country).0 same, ==→eq _ _ day, sym h)
          | Memᴰ.tail k ↦ later_row r rows date x (set_of-rows rows date x k)
        ]
    | inr e ↦ later_row r rows date x (set_of-rows rows date x (rw e at m))
  ]

  rows-set_of :
      (rows : List (Dated NaiveDate A)) (date : NaiveDate) (r : Dated NaiveDate A)
      → Memᴰ r rows
      → is_of_set C country date r ≡ true
      → Memᴰ r.values (set_of C country rows date)
  unfolding set_of values_of
  rows-set_of [] date r m h = elim m [ ]
  rows-set_of (s ∷ rows) date r (Memᴰ.head e) h = rw (rw e at h) (Memᴰ.head (rw e refl))
  rows-set_of (s ∷ rows) date r (Memᴰ.tail m) h =
      let rest = rows-set_of rows date r m h in
      elim (Bool-cases (is_of_set C country date s)) [
        | inl e ↦ rw e (Memᴰ.tail rest)
        | inr e ↦ rw e rest
      ]

  is_of_set_of :
      (date : NaiveDate) (r : Dated NaiveDate A)
      → r.country_code ≡ country
      → days r.effective_from ≡ days date
      → is_of_set C country date r ≡ true
  is_of_set_of date r c d =
      let same = (eq_iff r.country_code country).1 c in ground (arith, same, d)

  abbrev pub IsSetOf : List (Dated NaiveDate A) → NaiveDate → List A → Type 0
  IsSetOf rows date xs = (x : A) → Memᴰ x xs ↔ IsRowOf rows date x

  pub set_of-IsSetOf :
      (rows : List (Dated NaiveDate A)) (date : NaiveDate)
      → IsSetOf rows date (set_of C country rows date)
  set_of-IsSetOf rows date x = (
    set_of-rows rows date x,
    λ (r, m, c, d, v). rw v at (rows-set_of rows date r m (is_of_set_of date r c d)),
  )

module _ (C : Calendar) (country : String) {Decimal : Type 0} where
  open C use {NaiveDate}

  pub order_bands-IsSetOf :
      (rows : List (Dated NaiveDate (TenureBand Decimal))) (date : NaiveDate)
      → IsSetOf C country rows date (order_bands (set_of C country rows date))
  order_bands-IsSetOf rows date x =
      let bands = Mem-order_bands (set_of C country rows date) {x = x} in
      let set = set_of-IsSetOf C country rows date x in
      (λ m. set.0 (bands.0 m), λ r. bands.1 (set.1 r))

module _ (C : Calendar) (country : String) {A : Type 0} where
  open C use {NaiveDate}

  pub collect-IsSetOf :
      (rows : List (Dated NaiveDate A)) (date : NaiveDate)
      → IsSetOf C country rows date (collect [] (set_of C country rows date))
  collect-IsSetOf rows date x =
      let set = set_of-IsSetOf C country rows date x in
      (
        λ m. elim (Mem-collect [] (set_of C country rows date) m) [
          | inl none_yet ↦ elim none_yet [ ]
          | inr k ↦ set.0 k
        ],
        λ r. collect-Mem [] (set_of C country rows date) (inr (set.1 r)),
      )
