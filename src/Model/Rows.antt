-- ===== src/Model/Rows.antt =====
-- The rows of the tables (internal/model, internal/migration) and the database.
use digital_store.Prelude.{ℕ, ℤ, String, Option, Bool, List}
use digital_store.Model.Status.{OrderStatus, DeliveryStatus, EntryType}

-- `model.Product`, a row of `products`
pub record Product : Type 0 where
  pub sku : String
  pub name : String
  pub product_type : String
  pub price_minor : ℤ
  pub currency : String
  pub image : Option String
  pub active : Bool

-- `model.Order`, a row of `orders`; its `Code` is joined in by `get_by_id`
pub record Order : Type 0 where
  pub id : ℕ
  pub sku : String
  pub amount_minor : ℤ
  pub currency : String
  pub status : OrderStatus
  pub paid_at : Option ℕ
  pub delivered_at : Option ℕ
  pub last_error : Option String
  pub created_at : ℕ
  pub updated_at : ℕ

-- `model.PaymentWebhook`
pub record PaymentWebhook : Type 0 where
  pub event_id : String
  pub order_id : String
  pub status : String
  pub amount : ℤ
  pub currency : String

-- a row of `payment_events`
pub record PaymentEvent : Type 0 where
  pub event_id : String
  pub order_id : ℕ
  pub status : String
  pub amount_minor : ℤ
  pub currency : String
  pub payload : String
  pub received_at : ℕ
  pub processed_at : Option ℕ

-- `model.DeliveryAttempt`, a row of `delivery_attempts`
pub record DeliveryAttempt : Type 0 where
  pub id : ℕ
  pub order_id : ℕ
  pub request_id : String
  pub provider : Option String
  pub status : DeliveryStatus
  pub code : Option String
  pub error : Option String
  pub attempts : ℕ
  pub next_attempt_at : Option ℕ
  pub locked_at : Option ℕ
  pub created_at : ℕ
  pub updated_at : ℕ

-- a row of `ledger_entries`
pub record LedgerEntry : Type 0 where
  pub order_id : ℕ
  pub entry_type : EntryType
  pub amount_minor : ℤ
  pub currency : String
  pub created_at : ℕ

-- The tables that the orders and their deliveries stand in.
pub record Db : Type 0 where
  pub products : List Product
  pub orders : List Order
  pub payment_events : List PaymentEvent
  pub delivery_attempts : List DeliveryAttempt
  pub ledger_entries : List LedgerEntry
