-- ===== src/Prelude/Verbs.antt =====
-- Verbs: state passing with failure over a database and the effects sent outside it. A failed
-- `transaction` leaves the database as it was; what its body sent outside stays sent.
use mathlib.Core.Path.{◌≡◌, refl}
use mathlib.Core.Bool.{Bool}
use mathlib.Core.Option.{Option, none, some}
use mathlib.Core.List.{List, [], ◌∷◌, ◌++◌}
use backbone_lifecycle.Prelude.Tests.{if◌then◌else◌}
use backbone_lifecycle.Prelude.Results.{Result, ok, err}

-- `sent` holds the effects in the order in which they were sent.
pub record World (Db Effect : Type 0) : Type 0 where
  pub db : Db
  pub sent : List Effect

abbrev pub Verb : (Db Effect E A : Type 0) → Type 0
Verb Db Effect E A = World Db Effect → Result E A × World Db Effect

module _ {Db Effect E : Type 0} where
  abbrev pub continue_with :
      {A B : Type 0}
      → Result E A × World Db Effect
      → (A → Verb Db Effect E B)
      → Result E B × World Db Effect
  continue_with (ok a, w) f = f a w
  continue_with (err e, w) f = (err e, w)

  infixl 5 ◌>>=◌ ◌>>◌
  abbrev pub ◌>>=◌ :
      {A B : Type 0} → Verb Db Effect E A → (A → Verb Db Effect E B) → Verb Db Effect E B
  ◌>>=◌ m f w = continue_with (m w) f

  abbrev pub ◌>>◌ : {A B : Type 0} → Verb Db Effect E A → Verb Db Effect E B → Verb Db Effect E B
  m >> k = m >>= λ _. k

  abbrev pub pure : {A : Type 0} → A → Verb Db Effect E A
  pure a w = (ok a, w)

  abbrev pub raise : {A : Type 0} → E → Verb Db Effect E A
  raise e w = (err e, w)

  abbrev pub raise_if : Bool → E → Verb Db Effect E (Unit {0})
  raise_if c e w = (if c then err e else ok tt, w)

  -- A result of code without effects.
  abbrev pub lift : {A : Type 0} → Result E A → Verb Db Effect E A
  lift r w = (r, w)

  -- The value of a statement that reads.
  abbrev pub query : {A : Type 0} → (Db → A) → Verb Db Effect E A
  query f w = (ok (f w.db), w)

  abbrev pub fetched : {A : Type 0} → Option A → E → Verb Db Effect E A
  fetched (some a) e w = (ok a, w)
  fetched none e w = (err e, w)

  -- The first row that is found, or an error.
  abbrev pub fetch : {A : Type 0} → (Db → Option A) → E → Verb Db Effect E A
  fetch f e w = fetched (f w.db) e w

  -- A statement that writes.
  abbrev pub execute : (Db → Db) → Verb Db Effect E (Unit {0})
  execute f w = (ok tt, record w { db = f w.db })

  abbrev pub send : Effect → Verb Db Effect E (Unit {0})
  send x w = (ok tt, record w { sent = w.sent ++ x ∷ [] })

  abbrev pub settled :
      {A : Type 0} → Db → Result E A × World Db Effect → Result E A × World Db Effect
  settled before (ok a, w) = (ok a, w)
  settled before (err e, w) = (err e, record w { db = before })

  abbrev pub transaction : {A : Type 0} → Verb Db Effect E A → Verb Db Effect E A
  transaction m w = settled w.db (m w)

  settled_err :
      {A : Type 0} (before : Db) (r : Result E A × World Db Effect) {e : E}
      → (settled before r).0 ≡ err e
      → (settled before r).1.db ≡ before
  settled_err before (ok a, w) h = cc
  settled_err before (err e, w) h = refl

  -- A transaction that fails leaves the database as it was.
  pub transaction_err :
      {A : Type 0} (m : Verb Db Effect E A) (w : World Db Effect) {e : E}
      → (transaction m w).0 ≡ err e
      → (transaction m w).1.db ≡ w.db
  transaction_err m w h = settled_err w.db (m w) h
