-- ===== src/Order/Lifecycle.antt =====
-- The life of an order as the store promises it: it is registered, its payment is accepted or
-- refused, and an accepted one is fulfilled. Which of paid, delivering, out of stock and failed a
-- paid order is in is the store's own affair. The statuses are those of internal/model/order.go.
use digital_store.Prelude.{Bool, true, false, Option, none, some, ◌≡◌, arith}
use digital_store.Model.{OrderStatus}

pub data Phase : Type 0 where
  absent awaiting refused owed fulfilled : Phase

-- The phase that a status stands for.
abbrev pub phase_of : Option OrderStatus → Phase
phase_of none = Phase.absent
phase_of (some OrderStatus.created) = Phase.awaiting
phase_of (some OrderStatus.payment_failed) = Phase.refused
phase_of (some OrderStatus.delivered) = Phase.fulfilled
phase_of (some OrderStatus.paid) = Phase.owed
phase_of (some OrderStatus.delivering) = Phase.owed
phase_of (some OrderStatus.out_of_stock) = Phase.owed
phase_of (some OrderStatus.delivery_failed) = Phase.owed

-- One step of a life.
pub data Advance : Phase → Phase → Type 0 where
  register : Advance Phase.absent Phase.awaiting
  accept : Advance Phase.awaiting Phase.owed
  refuse : Advance Phase.awaiting Phase.refused
  fulfil : Advance Phase.owed Phase.fulfilled

-- Any number of steps.
pub data Life (p : Phase) : Phase → Type 0 where
  rest : Life p p
  grow : {q r : Phase} → Life p q → Advance q r → Life p r

-- Whether a life leads from one phase to the other.
abbrev pub may_follow : Phase → Phase → Bool
may_follow Phase.absent q = true
may_follow Phase.awaiting Phase.absent = false
may_follow Phase.awaiting q = true
may_follow Phase.refused Phase.refused = true
may_follow Phase.refused q = false
may_follow Phase.owed Phase.owed = true
may_follow Phase.owed Phase.fulfilled = true
may_follow Phase.owed q = false
may_follow Phase.fulfilled Phase.fulfilled = true
may_follow Phase.fulfilled q = false

awaited : Life Phase.absent Phase.awaiting
awaited = Life.grow Life.rest Advance.register

pub may_follow-Life : (p q : Phase) → may_follow p q ≡ true → Life p q
may_follow-Life Phase.absent Phase.absent h = Life.rest
may_follow-Life Phase.absent Phase.awaiting h = awaited
may_follow-Life Phase.absent Phase.refused h = Life.grow awaited Advance.refuse
may_follow-Life Phase.absent Phase.owed h = Life.grow awaited Advance.accept
may_follow-Life Phase.absent Phase.fulfilled h =
    Life.grow (Life.grow awaited Advance.accept) Advance.fulfil
may_follow-Life Phase.awaiting Phase.awaiting h = Life.rest
may_follow-Life Phase.awaiting Phase.refused h = Life.grow Life.rest Advance.refuse
may_follow-Life Phase.awaiting Phase.owed h = Life.grow Life.rest Advance.accept
may_follow-Life Phase.awaiting Phase.fulfilled h =
    Life.grow (Life.grow Life.rest Advance.accept) Advance.fulfil
may_follow-Life Phase.refused Phase.refused h = Life.rest
may_follow-Life Phase.owed Phase.owed h = Life.rest
may_follow-Life Phase.owed Phase.fulfilled h = Life.grow Life.rest Advance.fulfil
may_follow-Life Phase.fulfilled Phase.fulfilled h = Life.rest
may_follow-Life p q h = elim (let never : ⊥ = ground (arith, h) in never) [ ]
