-- ===== src/Orders/Effects.antt =====
-- What an operation can do to the orders and to the shelves, whatever it does elsewhere.
use udv_shop_api.Prelude.{
  ℕ, ◌≤◌, ◌≡◌, refl, Bool, true, false, inl, inr, Option, none, some, List, arith, if◌then◌else◌,
  Option-cases, ◌==◌, ◌&&◌,
}
use udv_shop_api.Errors.{Result, ok, transaction, ◌>>=◌, Result-cases}
use udv_shop_api.Schema.{OrderStatus, order_in, Order, Payment, Db, enqueue, PaymentStatus}
use udv_shop_api.Table.Laws.{find_first-update_many}
use udv_shop_api.Table.Keys.{update_key, count_at, find_key, count_key, update_key-Point}
use udv_shop_api.Shelf.{restock_items}
use udv_shop_api.Orders.{
  is_pending_order, set_order_status, cancel_pending_order, mark_paid, pay_order, pay_order_of,
  is_payable, settle, set_payment_status, update_order_status, update_payment, attach_provider_id,
  attach_pix_charge, items_of, close_payments, release_order,
}
use udv_shop_api.Orders.Refunds.{
  refund_order_of, is_refundable, refund, claim_refund, release_refund_claim, is_sold,
}
use udv_shop_api.Orders.Ops.{
  OrderOp, create, attach_provider, attach_pix, pay, cancel, give_money_back, claim, release,
  deliver, DeliveryStatus, valid_from, target_status, reason_status, step, or_unchanged,
}
use udv_shop_api.Orders.Moves.{
  Effect, create-Effect, created, delivering, kept, moved, order_id_of, paying, refunding, released,
}

update_payment-Effect :
    (k : ℕ) (f : Payment → Payment) (db : Db) → Effect db (or_unchanged db (update_payment k f db))
unfolding update_payment
update_payment-Effect k f db = kept (ground arith) (ground arith) (ground arith)

-- The order's half of a payment moves the order from pending to paid, or leaves the orders alone.
pay_order-Effect : (k p now : ℕ) (db : Db) → Effect db (pay_order k p now db).1
unfolding pay_order enqueue
pay_order-Effect k p now db =
    moved k is_pending_order OrderStatus.paid now (λ o. paying o.status) (ground arith)
      (ground arith) (ground arith)

-- An operation that first writes payments alone.
after_payments :
    (db db' : Db) (ps : List Payment) → Effect (record db { payments = ps }) db' → Effect db db'
after_payments db db' ps (kept a b c) = kept a b c
after_payments db db' ps (moved k q to now h a b c) = moved k q to now h a b c
after_payments db db' ps (created o a b c d e) = created o a b c d e
after_payments db db' ps (released k o now a b c d e) = released k o now a b c d e

if-Effect :
    {A : Type 0} (db d : Db) (b : Bool) (m n : Result (A × Db))
    → Effect d (transaction db m).1
    → Effect d (transaction db n).1
    → Effect d (transaction db (if b then m else n)).1
if-Effect db d true m n hm hn = hm
if-Effect db d false m n hm hn = hn

pay_order_of-Effect :
    (found : Option Payment) (now : ℕ) (ps : List Payment) (db : Db)
    → Effect db (transaction db (pay_order_of found now (record db { payments = ps }))).1
unfolding pay_order_of
pay_order_of-Effect none now ps db = kept refl refl (omega arith)
pay_order_of-Effect (some p) now ps db = elim (Option-cases p.order_id) [
  | inl e ↦ rw e (kept refl refl (omega arith))
  | inr (k, e) ↦
      rw e (after_payments db _ ps (pay_order-Effect k p.id now (record db { payments = ps })))
]

mark_paid-Effect :
    (k : ℕ) (x : Option ℕ) (now : ℕ) (db : Db) → Effect db (transaction db (mark_paid k x now db)).1
unfolding mark_paid
mark_paid-Effect k x now db =
    let ps = update_key (λ (p : Payment). p.id) k is_payable (settle x now) db.payments in
    let found = find_key (λ (p : Payment). p.id) k ps in
    if-Effect db db (count_at (λ (p : Payment). p.id) k is_payable db.payments == 1)
      (pay_order_of found now (record db { payments = ps }))
      (ok (none, record db { payments = ps })) (pay_order_of-Effect found now ps db)
      (kept refl refl (omega arith))

refund_order_of-Effect :
    (found : Option Payment) (now : ℕ) (ps : List Payment) (db : Db)
    → Effect db (transaction db (refund_order_of found now (record db { payments = ps }))).1
unfolding refund_order_of
refund_order_of-Effect none now ps db = kept refl refl (omega arith)
refund_order_of-Effect (some p) now ps db = elim (Option-cases p.order_id) [
  | inl e ↦ rw e (kept refl refl (omega arith))
  | inr (k, e) ↦
      rw e
        (moved k is_sold OrderStatus.refunded now (λ o. refunding o.status) refl refl (omega arith))
]

refund-Effect : (k now : ℕ) (db : Db) → Effect db (transaction db (refund k now db)).1
unfolding refund
refund-Effect k now db =
    let ps =
      update_key (λ (p : Payment). p.id) k is_refundable
        (set_payment_status PaymentStatus.refunded now) db.payments in
    let found = find_key (λ (p : Payment). p.id) k ps in
    if-Effect db db (count_at (λ (p : Payment). p.id) k is_refundable db.payments == 1)
      (refund_order_of found now (record db { payments = ps }))
      (ok (false, record db { payments = ps })) (refund_order_of-Effect found now ps db)
      (kept refl refl (omega arith))

claim_refund-Effect : (k now : ℕ) (db : Db) → Effect db (claim_refund k now db).1
unfolding claim_refund
claim_refund-Effect k now db = kept refl refl (omega arith)

release_refund_claim-Effect : (k now : ℕ) (db : Db) → Effect db (release_refund_claim k now db)
unfolding release_refund_claim
release_refund_claim-Effect k now db = kept refl refl (omega arith)

deliver-Effect :
    (k : ℕ) (to : DeliveryStatus) (now : ℕ) (db : Db)
    → Effect db (update_order_status k (valid_from to) (target_status to) now db).1
unfolding update_order_status
deliver-Effect k to now db =
    moved k (λ o. order_in (valid_from to) o.status) (target_status to) now
      (λ o. delivering to o.status) refl refl (omega arith)

-- The order that a cancellation releases, with its lines, stood pending in the table.
pub cancelled_items :
    (k now : ℕ) (os : List Order) (o : Order)
    → find_key order_id_of k os ≡ some o
    → items_of (
        find_key order_id_of k (
          update_key order_id_of k is_pending_order
            (set_order_status OrderStatus.cancelled now)
            os))
      ≡ o.items
unfolding items_of
cancelled_items k now os o h =
    rw
      (find_first-update_many (λ r. r.id == k) (λ r. r.id == k && is_pending_order r)
        (set_order_status OrderStatus.cancelled now) os (λ r. refl))
      (rw h (ground arith))

release_order-Effect :
    (k : ℕ) (to : PaymentStatus) (now : ℕ) (db : Db) (o : Order)
    → find_key order_id_of k db.orders ≡ some o
    → is_pending_order o ≡ true
    → Effect db
        (transaction db (
          release_order o.items k to now (record db {
            orders =
                update_key order_id_of k is_pending_order
                  (set_order_status OrderStatus.cancelled now)
                  db.orders;
          }))).1
unfolding release_order close_payments
release_order-Effect k to now db o found pending =
    elim (Result-cases (restock_items o.items db.shelves)) [
      | inl (s, r) ↦ rw (r, ◌>>=◌) (released k o now found pending refl r (omega arith))
      | inr (e, r) ↦ rw (r, ◌>>=◌) (kept refl refl (omega arith))
    ]

cancel_pending_order-Effect :
    (k : ℕ) (to : PaymentStatus) (now : ℕ) (db : Db)
    → count_key order_id_of k db.orders ≤ 1
    → Effect db (transaction db (cancel_pending_order k to now db)).1
unfolding cancel_pending_order
cancel_pending_order-Effect k to now db unique =
    elim (update_key-Point order_id_of k is_pending_order
      (set_order_status OrderStatus.cancelled now) db.orders unique) [
        | inl (c, same) ↦ rw c (kept same refl (omega arith))
        | inr (o, found, pending, c, sums) ↦
            rw (c, cancelled_items k now db.orders o found)
              (release_order-Effect k to now db o found pending)
      ]

-- Every operation has one of these effects, where the order's identifiers are unique.
pub step-Effect :
    (op : OrderOp) (now : ℕ) (db : Db)
    → ((k : ℕ) → count_key order_id_of k db.orders ≤ 1)
    → Effect db (step op now db)
unfolding step attach_provider_id attach_pix_charge
step-Effect (create input) now db u = create-Effect now input db
step-Effect (attach_provider p x) now db u = update_payment-Effect p _ db
step-Effect (attach_pix p b q) now db u = update_payment-Effect p _ db
step-Effect (pay p x) now db u = mark_paid-Effect p x now db
step-Effect (cancel o why) now db u = cancel_pending_order-Effect o (reason_status why) now db (u o)
step-Effect (give_money_back p) now db u = refund-Effect p now db
step-Effect (claim p) now db u = claim_refund-Effect p now db
step-Effect (release p) now db u = release_refund_claim-Effect p now db
step-Effect (deliver o to) now db u = deliver-Effect o to now db
