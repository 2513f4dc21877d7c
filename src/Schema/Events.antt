-- ===== src/Schema/Events.antt =====
-- The model OutboxEvent, its `type` and `payload` together as one constructor.
use udv_shop_api.Prelude.{ℕ, Option}
use udv_shop_api.Schema.Enums.{OutboxStatus}

-- What a Stripe transfer is paid from: the charge of a payment, or the invoice of a cycle.
pub data TransferSource : Type 0 where
  charge_id invoice_id : ℕ → TransferSource

-- An orphaned payment is of an order or of a donation.
pub data Aggregate : Type 0 where
  order donation : ℕ → Aggregate

pub data OutboxPayload : Type 0 where
  order_paid : (order_id : ℕ) → OutboxPayload
  order_paid_store : (order_id : ℕ) → OutboxPayload
  donation_received : (donation_id : ℕ) → OutboxPayload
  donation_received_store : (donation_id : ℕ) → OutboxPayload
  payment_orphaned : Aggregate → (payment_id : ℕ) → OutboxPayload
  interest_notified : (interest_id : ℕ) → OutboxPayload
  stripe_transfer : (payment_id : ℕ) → TransferSource → OutboxPayload
  woovi_withdraw : (store_id pix_key payment_id : ℕ) → OutboxPayload
  raffle_drawn : (raffle_id : ℕ) → OutboxPayload

pub record OutboxEvent : Type 0 where
  pub id : ℕ
  pub payload : OutboxPayload
  pub status : OutboxStatus
  pub attempts : ℕ
  pub processed_at : Option ℕ
  pub claimed_at : Option ℕ
  pub claimed_by : Option ℕ
