-- ===== src/Model/Status.antt =====
-- The status columns: internal/model/order.go and the CHECK constraints of the tables.
use digital_store.Prelude.{Bool, true, false, ◌||◌}

-- `model.OrderStatus`, the enum `order_status`
pub data OrderStatus : Type 0 where
  created paid delivering delivered payment_failed out_of_stock delivery_failed : OrderStatus

-- the column `delivery_attempts.status`
pub data DeliveryStatus : Type 0 where
  pending processing delivered out_of_stock failed : DeliveryStatus

-- the column `ledger_entries.entry_type`
pub data EntryType : Type 0 where
  payment delivery refund : EntryType

pub OrderStatus-discrete : Discrete OrderStatus
OrderStatus-discrete = hlevel

abbrev pub is_created : OrderStatus → Bool
is_created OrderStatus.created = true
is_created _ = false

abbrev pub is_delivering : OrderStatus → Bool
is_delivering OrderStatus.delivering = true
is_delivering _ = false

abbrev pub is_delivered : OrderStatus → Bool
is_delivered OrderStatus.delivered = true
is_delivered _ = false

abbrev pub is_payment_failed : OrderStatus → Bool
is_payment_failed OrderStatus.payment_failed = true
is_payment_failed _ = false

-- `status IN ('paid', 'delivery_failed', 'out_of_stock')`
abbrev pub awaits_delivery : OrderStatus → Bool
awaits_delivery OrderStatus.paid = true
awaits_delivery OrderStatus.delivery_failed = true
awaits_delivery OrderStatus.out_of_stock = true
awaits_delivery _ = false

unfoldable pub is_final : OrderStatus → Bool
is_final s = is_delivered s || is_payment_failed s

unfoldable pub is_recoverable : OrderStatus → Bool
is_recoverable OrderStatus.out_of_stock = true
is_recoverable OrderStatus.delivery_failed = true
is_recoverable _ = false

abbrev pub is_pending : DeliveryStatus → Bool
is_pending DeliveryStatus.pending = true
is_pending _ = false

abbrev pub is_processing : DeliveryStatus → Bool
is_processing DeliveryStatus.processing = true
is_processing _ = false

abbrev pub is_issued : DeliveryStatus → Bool
is_issued DeliveryStatus.delivered = true
is_issued _ = false

-- `status IN ('out_of_stock', 'failed')`
abbrev pub is_retryable : DeliveryStatus → Bool
is_retryable DeliveryStatus.out_of_stock = true
is_retryable DeliveryStatus.failed = true
is_retryable _ = false

-- `status IN ('pending', 'failed', 'out_of_stock')`
abbrev pub is_claimable : DeliveryStatus → Bool
is_claimable DeliveryStatus.pending = true
is_claimable DeliveryStatus.failed = true
is_claimable DeliveryStatus.out_of_stock = true
is_claimable _ = false

abbrev pub is_payment : EntryType → Bool
is_payment EntryType.payment = true
is_payment _ = false

abbrev pub is_delivery : EntryType → Bool
is_delivery EntryType.delivery = true
is_delivery _ = false
