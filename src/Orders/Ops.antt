-- ===== src/Orders/Ops.antt =====
-- The operations of the repository as the transactions that change the database: what the order
-- routes, the checkout and the workers can do to orders, in any sequence.
use udv_shop_api.Prelude.{ℕ, Option, List, [], ◌∷◌}
use udv_shop_api.Errors.{Result, ok, err, transaction}
use udv_shop_api.Schema.{OrderStatus, PaymentStatus, Db}
use udv_shop_api.Orders.{
  NewOrder, create_pending_order, attach_provider_id, attach_pix_charge, cancel_pending_order,
  mark_paid, update_order_status,
}
use udv_shop_api.Orders.Refunds.{refund, claim_refund, release_refund_claim}

-- The statuses that the store sets by hand, with `VALID_FROM` of update-order-status.controller.ts.
pub data DeliveryStatus : Type 0 where
  delivery_arranged delivered : DeliveryStatus

abbrev pub valid_from : DeliveryStatus → List OrderStatus
valid_from delivery_arranged = OrderStatus.paid ∷ []
valid_from delivered = OrderStatus.paid ∷ OrderStatus.delivery_arranged ∷ []

abbrev pub target_status : DeliveryStatus → OrderStatus
target_status delivery_arranged = OrderStatus.delivery_arranged
target_status delivered = OrderStatus.delivered

-- The second argument of `cancelPendingOrder`.
pub data CancelReason : Type 0 where
  expired failed cancelled : CancelReason

abbrev pub reason_status : CancelReason → PaymentStatus
reason_status expired = PaymentStatus.expired
reason_status failed = PaymentStatus.failed
reason_status cancelled = PaymentStatus.cancelled

pub data OrderOp : Type 0 where
  create : NewOrder → OrderOp
  attach_provider : (payment_id provider_id : ℕ) → OrderOp
  attach_pix : (payment_id br_code qr_code_url : ℕ) → OrderOp
  pay : (payment_id : ℕ) → Option ℕ → OrderOp
  cancel : (order_id : ℕ) → CancelReason → OrderOp
  give_money_back : (payment_id : ℕ) → OrderOp
  claim : (payment_id : ℕ) → OrderOp
  release : (payment_id : ℕ) → OrderOp
  deliver : (order_id : ℕ) → DeliveryStatus → OrderOp

-- `db.payment.update` alone: it throws and writes nothing, or it writes.
abbrev pub or_unchanged : Db → Result Db → Db
or_unchanged db (ok db') = db'
or_unchanged db (err e) = db

-- One operation at a time `now`. A transaction that throws leaves the database as it was.
unfoldable pub step : OrderOp → ℕ → Db → Db
step (create input) now db = (transaction db (create_pending_order now input db)).1
step (attach_provider p x) now db = or_unchanged db (attach_provider_id p x now db)
step (attach_pix p b q) now db = or_unchanged db (attach_pix_charge p b q now db)
step (pay p x) now db = (transaction db (mark_paid p x now db)).1
step (cancel o why) now db = (transaction db (cancel_pending_order o (reason_status why) now db)).1
step (give_money_back p) now db = (transaction db (refund p now db)).1
step (claim p) now db = (claim_refund p now db).1
step (release p) now db = release_refund_claim p now db
step (deliver o to) now db = (update_order_status o (valid_from to) (target_status to) now db).1

-- A history: each operation with its time.
unfoldable pub run : List (ℕ × OrderOp) → Db → Db
run [] db = db
run ((now, op) ∷ ops) db = run ops (step op now db)
