-- ===== src/Orders.antt =====
-- src/http/api/orders/orders.repository.ts: the repository of orders; Refunds has its refunds.
-- Each operation takes the time of the call and the database, and returns what it returns with the
-- database that it leaves.
use udv_shop_api.Prelude.{
  ℕ, suc, ◌+◌, ◌*◌, ℤ, Bool, true, false, ◌&&◌, ◌||◌, Option, none, some, List, [], ◌∷◌, ◌++◌, ltb,
  ◌==◌, map, if◌then◌else◌, all, is_none, is_some_of, take,
}
pub mod Refunds
pub mod Ops
pub mod Moves
pub mod Effects
pub mod Conservation
pub mod Transitions
pub mod Repeats
pub mod Notices
pub mod Tests
use mathlib.Core.Bool.{xor, not}
use udv_shop_api.Errors.{Result, ok, err, failure, ◌>>=◌}
use udv_shop_api.Schema.{
  OrderStatus, PaymentProvider, PaymentStatus, order_in, payment_in, Order, OrderItem, Payment, Db,
  enqueue, order_paid, order_paid_store, payment_orphaned, order,
}
use udv_shop_api.Table.{update_many, find_first, find_many, update_first}
use udv_shop_api.Table.Keys.{update_key, count_at, find_key, count_key}
use udv_shop_api.Shelf.{sorted_items, reserve_items, restock_items}

-- STALE_REFUND_CLAIM_MS
abbrev pub stale_refund_claim_ms : ℕ
stale_refund_claim_ms = 15 * 60000

-- A line of an order that is asked for; nobody has checked in with it.
pub record NewOrderItem : Type 0 where
  pub product_id : Option ℕ
  pub event_id : Option ℕ
  pub event_batch_id : Option ℕ
  pub name : ℕ
  pub price_cents : ℕ
  pub qty : ℕ
  pub supplier_id : Option ℕ
  pub payout_cents : ℕ

-- The row of a line.
abbrev pub item_row : NewOrderItem → OrderItem
item_row i = record {
  product_id = i.product_id;
  event_id = i.event_id;
  event_batch_id = i.event_batch_id;
  name = i.name;
  price_cents = i.price_cents;
  qty = i.qty;
  supplier_id = i.supplier_id;
  payout_cents = i.payout_cents;
  checked_in_at = none;
}

-- The input of `createPendingOrder`.
pub record NewOrder : Type 0 where
  pub store_id : ℕ
  pub user_id : ℕ
  pub provider : PaymentProvider
  pub items : List NewOrderItem
  pub total_cents : ℕ
  pub application_fee_cents : ℕ
  pub provider_fee_cents : ℤ
  pub contact_phone : ℕ
  pub note : Option ℕ
  pub public_token : Option ℕ
  pub expires_at : ℕ

-- The CHECKs of order_items: a product or an event, and a batch only with its event.
unfoldable pub one_target : OrderItem → Bool
one_target i =
    xor (is_none i.product_id) (is_none i.event_id)
    && (is_none i.event_batch_id || not (is_none i.event_id))

-- The rows that `tx.order.create` writes: the order, its items and its payment.
abbrev pub item_rows : NewOrder → List OrderItem
item_rows input = map item_row input.items

unfoldable pub new_order : ℕ → ℕ → NewOrder → Order
new_order id now input = record {
  id = id;
  store_id = input.store_id;
  user_id = input.user_id;
  status = OrderStatus.pending_payment;
  total_cents = input.total_cents;
  currency = "BRL";
  contact_phone = input.contact_phone;
  note = input.note;
  public_token = input.public_token;
  expires_at = input.expires_at;
  created_at = now;
  updated_at = now;
  items = item_rows input;
}

unfoldable pub new_payment : ℕ → ℕ → ℕ → NewOrder → Payment
new_payment id order_id now input = record {
  id = id;
  order_id = some order_id;
  donation_id = none;
  provider = input.provider;
  provider_id = none;
  pix_br_code = none;
  pix_qr_code_url = none;
  amount_cents = input.total_cents;
  application_fee_cents = input.application_fee_cents;
  provider_fee_cents = some input.provider_fee_cents;
  stripe_transfer_id = none;
  status = PaymentStatus.pending;
  updated_at = now;
}

-- The identifiers of the new order and of its payment are the next two.
insert_order : ℕ → NewOrder → Db → Result (Order × Db)
insert_order now input db =
    if all one_target (item_rows input)
    then ok (
      new_order db.next_id now input,
      record db {
        next_id = suc (suc db.next_id);
        orders = db.orders ++ new_order db.next_id now input ∷ [];
        payments = db.payments ++ new_payment (suc db.next_id) db.next_id now input ∷ [];
      },
    )
    else err (failure "order_items_target_check")

-- `createPendingOrder`: the body of its transaction.
unfoldable pub create_pending_order : ℕ → NewOrder → Db → Result (Order × Db)
unfolding insert_order new_order new_payment
create_pending_order now input db = do
  shelves ← reserve_items (sorted_items (item_rows input)) db.shelves
  insert_order now input (record db { shelves = shelves })

-- `update` of a payment by its id; it throws if there is none.
unfoldable pub update_payment : ℕ → (Payment → Payment) → Db → Result Db
update_payment payment_id f db =
    if count_key (λ (p : Payment). p.id) payment_id db.payments == 0
    then err (failure "record_not_found")
    else ok (record db { payments = update_first (λ p. p.id == payment_id) f db.payments })

unfoldable pub attach_provider_id : ℕ → ℕ → ℕ → Db → Result Db
unfolding update_payment
attach_provider_id payment_id provider_id now db =
    update_payment payment_id (λ p. record p { provider_id = some provider_id; updated_at = now })
      db

unfoldable pub attach_pix_charge : ℕ → ℕ → ℕ → ℕ → Db → Result Db
unfolding update_payment
attach_pix_charge payment_id br_code qr_code_url now db =
    update_payment payment_id
      (λ p. record p {
        pix_br_code = some br_code;
        pix_qr_code_url = some qr_code_url;
        updated_at = now;
      })
      db

abbrev pub set_order_status : OrderStatus → ℕ → Order → Order
set_order_status to now o = record o { status = to; updated_at = now }

abbrev pub set_payment_status : PaymentStatus → ℕ → Payment → Payment
set_payment_status to now p = record p { status = to; updated_at = now }

abbrev pub is_pending_order : Order → Bool
is_pending_order o = order_in (OrderStatus.pending_payment ∷ []) o.status

-- `payment.updateMany({ where: { orderId, status: "pending" } })`
unfoldable pub close_payments : ℕ → PaymentStatus → ℕ → Db → Db
close_payments order_id to now db = record db {
  payments =
      update_many
        (λ p. is_some_of order_id p.order_id && payment_in (PaymentStatus.pending ∷ []) p.status)
        (set_payment_status to now) db.payments;
}

pub items_of : Option Order → List OrderItem
items_of none = []
items_of (some o) = o.items

-- The rest of a cancellation that won its order.
unfoldable pub release_order : List OrderItem → ℕ → PaymentStatus → ℕ → Db → Result (Bool × Db)
unfolding close_payments
release_order items order_id payment_status now db = do
  shelves ← restock_items items db.shelves
  ok (true, close_payments order_id payment_status now (record db { shelves = shelves }))

-- `cancelPendingOrder` and `compensateFailedCheckout`, which cancels with "failed".
unfoldable pub cancel_pending_order : ℕ → PaymentStatus → ℕ → Db → Result (Bool × Db)
unfolding items_of release_order
cancel_pending_order order_id payment_status now db =
    let cancelled = record db {
      orders =
          update_key (λ (o : Order). o.id) order_id is_pending_order
            (set_order_status OrderStatus.cancelled now) db.orders;
    } in
    if count_at (λ (o : Order). o.id) order_id is_pending_order db.orders == 1
    then release_order (items_of (find_key (λ (o : Order). o.id) order_id cancelled.orders))
        order_id payment_status now cancelled
    else ok (false, cancelled)

unfoldable pub compensate_failed_checkout : ℕ → ℕ → Db → Result (Bool × Db)
unfolding cancel_pending_order
compensate_failed_checkout order_id now db =
    cancel_pending_order order_id PaymentStatus.failed now db

-- A payment that may still succeed: also one that expired, failed or was cancelled here.
abbrev pub is_payable : Payment → Bool
is_payable p =
    payment_in
      (PaymentStatus.pending ∷ PaymentStatus.expired ∷ PaymentStatus.failed
        ∷ PaymentStatus.cancelled ∷ [])
      p.status

abbrev pub settle : Option ℕ → ℕ → Payment → Payment
settle provider_id now p = record p {
  status = PaymentStatus.succeeded;
  provider_id = (elim provider_id [ none ↦ p.provider_id | some x ↦ some x ]);
  updated_at = now;
}

-- The order's half of `markPaid`: the two notices, or the sign of an orphaned payment.
unfoldable pub pay_order : ℕ → ℕ → ℕ → Db → Bool × Db
pay_order order_id payment_id now db =
    let paid = record db {
      orders =
          update_key (λ (o : Order). o.id) order_id is_pending_order
            (set_order_status OrderStatus.paid now) db.orders;
    } in
    if count_at (λ (o : Order). o.id) order_id is_pending_order db.orders == 1
    then (true, enqueue (order_paid_store order_id) (enqueue (order_paid order_id) paid))
    else (false, enqueue (payment_orphaned (order order_id) payment_id) paid)

pay_order_of : Option Payment → ℕ → Db → Result (Option (ℕ × Bool) × Db)
pay_order_of none now db = err (failure "record_not_found")
pay_order_of (some p) now db = elim p.order_id [
  | none ↦ ok (none, db)
  | some o ↦ let (pending, db') = pay_order o p.id now db in ok (some (o, pending), db')
]

-- `markPaid`: the order and whether it was pending, or `none`.
unfoldable pub mark_paid : ℕ → Option ℕ → ℕ → Db → Result (Option (ℕ × Bool) × Db)
unfolding pay_order_of
mark_paid payment_id provider_id now db =
    let paid = record db {
      payments =
          update_key (λ (p : Payment). p.id) payment_id is_payable (settle provider_id now)
            db.payments;
    } in
    if count_at (λ (p : Payment). p.id) payment_id is_payable db.payments == 1
    then pay_order_of (find_key (λ (p : Payment). p.id) payment_id paid.payments) now paid
    else ok (none, paid)

unfoldable pub update_order_status : ℕ → List OrderStatus → OrderStatus → ℕ → Db → Bool × Db
update_order_status id from to now db = (
  count_at (λ (o : Order). o.id) id (λ o. order_in from o.status) db.orders == 1,
  record db {
    orders =
        update_key (λ (o : Order). o.id) id (λ o. order_in from o.status) (set_order_status to now)
          db.orders;
  },
)

-- `listExpiredPending`
unfoldable pub list_expired_pending : ℕ → Db → List Order
list_expired_pending now db =
    take 200 (find_many (λ o. is_pending_order o && ltb o.expires_at now) db.orders)

unfoldable pub find_payment_by_order_id : ℕ → Db → Option Payment
find_payment_by_order_id order_id db = find_first (λ p. is_some_of order_id p.order_id) db.payments
