-- ===== src/Coherence/Keeps.antt =====
-- Rules for transactions: what holds after one that commits (`OnOk`), and what one keeps (`Keeps`).
use digital_store.Prelude.{if◌then◌else◌, Bool, true, false, ◌≡◌, refl, subst}
use digital_store.Model.{
  after, Db, Tx, Result, ok, err, Error, pure, raise, exec, gets, guard, ◌>>=◌, ◌>>◌,
}

abbrev pub Holds : {A : Type 0} → (A → Db → Type 0) → Result (A × Db) → Type 0
Holds P (ok (a, db)) = P a db
Holds P (err e) = Unit {0}

-- `P` holds of the value and the database that are returned, if there are any.
pub record OnOk {A : Type 0} (P : A → Db → Type 0) (r : Result (A × Db)) : Type 0 where
  pub holds : Holds P r

-- If `m` commits, `P` still holds; if it fails, the database is what it was.
pub record Keeps {A : Type 0} (P : Db → Type 0) (m : Tx A) : Type 0 where
  pub at : (db : Db) → P db → OnOk (λ a db'. P db') (m db)

module _ {A : Type 0} {P : A → Db → Type 0} where
  pub OnOk-ok : {a : A} {db : Db} → P a db → OnOk P (ok (a, db))
  OnOk-ok h = record { holds = h }

  pub OnOk-err : {e : Error} → OnOk P (err e)
  OnOk-err = record { holds = tt }

  -- What holds of a transaction that is known to commit.
  pub of_OnOk : {r : Result (A × Db)} {a : A} {db : Db} → OnOk P r → r ≡ ok (a, db) → P a db
  of_OnOk {r} {a} {db} h e = (subst (OnOk P) e h).holds

  pub OnOk-map :
      {Q : A → Db → Type 0} (r : Result (A × Db))
      → OnOk P r
      → ((a : A) (db : Db) → P a db → Q a db)
      → OnOk Q r
  OnOk-map (ok (a, db)) h f = record { holds = f a db h.holds }
  OnOk-map (err e) h f = record { holds = tt }

  -- A guarded transaction runs where the guard holds.
  pub OnOk-guard :
      (b : Bool) (e : Error) (m : Tx A) (db : Db)
      → (b ≡ true → OnOk P (m db))
      → OnOk P ((guard b e >> m) db)
  OnOk-guard true e m db h = h refl
  OnOk-guard false e m db h = record { holds = tt }

  pub OnOk-if :
      (b : Bool) (r s : Result (A × Db))
      → (b ≡ true → OnOk P r)
      → (b ≡ false → OnOk P s)
      → OnOk P (if b then r else s)
  OnOk-if true r s h k = h refl
  OnOk-if false r s h k = k refl

pub OnOk-any : {A : Type 0} (r : Result (A × Db)) → OnOk (λ a db. Unit {0}) r
OnOk-any (ok (a, db)) = record { holds = tt }
OnOk-any (err e) = record { holds = tt }

pub OnOk-bind :
    {A B : Type 0} (Q : A → Db → Type 0) (P : B → Db → Type 0) (m : Tx A) (f : A → Tx B) (db : Db)
    → OnOk Q (m db)
    → ((a : A) (db' : Db) → Q a db' → OnOk P (f a db'))
    → OnOk P ((m >>= f) db)
OnOk-bind {A} {B} Q P m f db q h = go (m db) q
  where
    go : (r : Result (A × Db)) → OnOk Q r → OnOk P (◌>>=◌ (λ x. r) f db)
    go (ok (a, db')) q = h a db' q.holds
    go (err e) q = record { holds = tt }

module _ {P : Db → Type 0} where
  pub Keeps-pure : {A : Type 0} (a : A) → Keeps P (pure a)
  Keeps-pure a = record { at = λ db h. OnOk-ok h }

  pub Keeps-raise : {A : Type 0} (e : Error) → Keeps P (raise {A = A} e)
  Keeps-raise e = record { at = λ db h. OnOk-err }

  pub Keeps-gets : {A : Type 0} (f : Db → A) → Keeps P (gets f)
  Keeps-gets f = record { at = λ db h. OnOk-ok h }

  pub Keeps-exec : (f : Db → Db) → ((db : Db) → P db → P (f db)) → Keeps P (exec f)
  Keeps-exec f h = record { at = λ db p. OnOk-ok (h db p) }

  pub Keeps-guard : (b : Bool) (e : Error) → Keeps P (guard b e)
  Keeps-guard true e = record { at = λ db h. OnOk-ok h }
  Keeps-guard false e = record { at = λ db h. OnOk-err }

  pub Keeps-if :
      {A : Type 0} (b : Bool) (m n : Tx A) → Keeps P m → Keeps P n → Keeps P (if b then m else n)
  Keeps-if true m n hm hn = hm
  Keeps-if false m n hm hn = hn

  pub Keeps-bind :
      {A B : Type 0} (m : Tx A) (f : A → Tx B)
      → Keeps P m
      → ((a : A) → Keeps P (f a))
      → Keeps P (m >>= f)
  Keeps-bind m f hm hf = record {
    at = λ db h.
        OnOk-bind (λ a db'. P db') (λ b db'. P db') m f db (hm.at db h) (λ a db'. (hf a).at db');
  }

-- What is kept holds after the transaction, whether it committed or not.
pub Keeps-after :
    {A : Type 0} {P : Db → Type 0} (m : Tx A) (db : Db) → Keeps P m → P db → P (after m db)
Keeps-after {A} {P} m db k h = go (m db) (k.at db h)
  where
    go : (r : Result (A × Db)) → OnOk (λ a db'. P db') r → P (after (λ x. r) db)
    go (ok (a, db')) o = o.holds
    go (err e) o = h
