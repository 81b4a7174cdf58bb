-- ===== src/Billing/Database/Ensures.antt =====
-- Postconditions of transactions, and the rule for a step and what follows it.
use yadakchi.Prelude.{◌≡◌, refl, Bool, true, false, Option, none, some, if◌then◌else◌}
use yadakchi.Billing.Database.{
  Db, Result, ok, err, Fault, Tx, after, or_raise, raise_if, ◌>>=◌, ◌>>◌,
}

-- If the call returns, `P` holds of its value and of the tables.
abbrev pub Ensures : {A : Type 0} → (A → Db → Type 0) → Result (A × Db) → Type 0
Ensures P (ok (a, db)) = P a db
Ensures P (err e) = Unit

module _ {A B : Type 0} (P : A → Db → Type 0) (Q : B → Db → Type 0) where
  pub Ensures-bind :
      (r : Result (A × Db)) (f : A → Tx B)
      → Ensures P r
      → ((a : A) (db : Db) → P a db → Ensures Q (f a db))
      → Ensures Q (elim r [ ok (a, db') ↦ f a db' | err e ↦ err e ])
  Ensures-bind (ok (a, db)) f h k = k a db h
  Ensures-bind (err e) f h k = tt

module _ {A : Type 0} (Q : A → Db → Type 0) where
  pub Ensures-if :
      (b : Bool) (m n : Tx A) (db : Db)
      → (b ≡ true → Ensures Q (m db))
      → (b ≡ false → Ensures Q (n db))
      → Ensures Q ((if b then m else n) db)
  Ensures-if true m n db hm hn = hm refl
  Ensures-if false m n db hm hn = hn refl

  pub Ensures-raise_if :
      (c : Bool) (e : Fault) (m : Tx A) (db : Db)
      → (c ≡ false → Ensures Q (m db))
      → Ensures Q ((raise_if c e >> m) db)
  Ensures-raise_if true e m db h = tt
  Ensures-raise_if false e m db h = h refl

  pub Ensures-or_raise :
      {B : Type 0} (o : Option B) (e : Fault) (f : B → Tx A) (db : Db)
      → ((b : B) → o ≡ some b → Ensures Q (f b db))
      → Ensures Q ((or_raise o e >>= f) db)
  Ensures-or_raise none e f db h = tt
  Ensures-or_raise (some b) e f db h = h b refl

-- Two postconditions of one call.
pub Ensures-and :
    {A : Type 0} (P Q : A → Db → Type 0) (r : Result (A × Db))
    → Ensures P r
    → Ensures Q r
    → Ensures (λ a db. P a db × Q a db) r
Ensures-and P Q (ok (a, db)) p q = (p, q)
Ensures-and P Q (err e) p q = tt

-- What holds of the tables if a call returns, and held before, holds after a call that may raise.
pub Ensures-after :
    {A : Type 0} (P : Db → Type 0) (r : Result (A × Db)) (db : Db)
    → P db
    → Ensures (λ _. P) r
    → P (after r db)
Ensures-after P (ok (a, db')) db h k = k
Ensures-after P (err e) db h k = h
