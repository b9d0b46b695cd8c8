-- ===== src/Model/Transaction.antt =====
-- Transactions. An operation runs on the database and returns its result with the new database,
-- or an error; `defer tx.Rollback` makes an error leave the database as it was.
-- The clock and the UUID generator of a transaction are its environment.
use digital_store.Prelude.{ℕ, Bool, true, false, String, Option, none, some, ◌≡◌}
use digital_store.Model.Rows.{Db}

pub data Error : Type 0 where
  order_not_found product_not_found order_not_paid delivery_running : Error
  invalid_uuid unique_violation check_violation foreign_key_violation no_rows : Error
  not_claimed not_processing not_delivering : Error
  context_canceled : Error
  invalid_value : Error
  unsupported_payment_status : String → Error

pub data Result {ℓ} (A : Type ℓ) : Type ℓ where
  ok : A → Result A
  err : Error → Result A

-- `now()`, and the `gen_random_uuid()` of the attempt that is inserted for an order
pub record Env : Type 0 where
  pub now : ℕ
  pub fresh_id : ℕ → ℕ

abbrev pub Tx : Type 0 → Type 0
Tx A = Db → Result (A × Db)

abbrev pub pure : {A : Type 0} → A → Tx A
pure a db = ok (a, db)

abbrev pub raise : {A : Type 0} → Error → Tx A
raise e db = err e

-- a statement that cannot fail
abbrev pub exec : (Db → Db) → Tx (Unit {0})
exec f db = ok (tt, f db)

abbrev pub gets : {A : Type 0} → (Db → A) → Tx A
gets f db = ok (f db, db)

abbrev pub guard : Bool → Error → Tx (Unit {0})
guard true e db = ok (tt, db)
guard false e db = err e

infixl 5 ◌>>=◌ ◌>>◌
abbrev pub ◌>>=◌ : {A B : Type 0} → Tx A → (A → Tx B) → Tx B
◌>>=◌ m f db = elim (m db) [ ok (a, db') ↦ f a db' | err e ↦ err e ]

abbrev pub ◌>>◌ : {B : Type 0} → Tx (Unit {0}) → Tx B → Tx B
m >> k = m >>= λ _. k

-- The database after a transaction: `Commit`, or the deferred `Rollback`.
abbrev pub after : {A : Type 0} → Tx A → Db → Db
after m db = elim (m db) [ ok (a, db') ↦ db' | err e ↦ db ]

-- What the caller gets back.
abbrev pub result : {A : Type 0} → Tx A → Db → Result A
result m db = elim (m db) [ ok (a, db') ↦ ok a | err e ↦ err e ]

-- What the code relies on outside the repository: `github.com/google/uuid` (a printed UUID parses
-- back to itself), and the collation of the database.
pub record Platform : Type 0 where
  pub parse : String → Option ℕ
  pub show : ℕ → String
  pub text_le : String → String → Bool
  pub is_jsonb : String → Bool
  pub parse-show : (u : ℕ) → parse (show u) ≡ some u

abbrev pub parse_uuid : Platform → String → Tx ℕ
parse_uuid plat s db = elim (plat.parse s) [ some u ↦ ok (u, db) | none ↦ err invalid_uuid ]
