-- ===== src/Orders/Notices.antt =====
-- The notices that paid orders leave in the outbox, over a history (orders.repository.ts).
use udv_shop_api.Prelude.{
  ℕ, ◌+◌, ◌≤◌, ◌≡◌, refl, Bool, true, false, ◌&&◌, ◌==◌, Option, none, some, List, [], ◌∷◌, inl,
  inr, arith, sum_of-append, if◌then◌else◌, Bool-cases, Option-cases,
}
use udv_shop_api.Errors.{Result, ok, transaction, ◌>>=◌, Result-cases}
use udv_shop_api.Schema.{
  OrderStatus, PaymentStatus, order_in, Order, OrderItem, Payment, Db, OutboxPayload, order_paid,
  order_paid_store, payment_orphaned, order, Aggregate, enqueue, sent, sent-enqueue, orders-enqueue,
}
use udv_shop_api.Table.{update_many}
use udv_shop_api.Table.Laws.{sum_of-update_many}
use udv_shop_api.Table.Keys.{update_key, count_at, count_at-le, find_key, count_key}
use udv_shop_api.Shelf.{restock_items}
use udv_shop_api.Orders.{
  NewOrder, create_pending_order, mark_paid, pay_order, pay_order_of, is_payable, settle,
  set_payment_status, cancel_pending_order, release_order, close_payments, is_pending_order,
  set_order_status, items_of, update_order_status, update_payment, attach_provider_id,
  attach_pix_charge, new_order,
}
use udv_shop_api.Orders.Refunds.{
  refund, refund_order_of, is_refundable, is_sold, claim_refund, release_refund_claim,
}
use udv_shop_api.Orders.Ops.{
  OrderOp, create, attach_provider, attach_pix, pay, cancel, give_money_back, claim, release,
  deliver, DeliveryStatus, valid_from, target_status, reason_status, or_unchanged, step, run,
}
use udv_shop_api.Orders.Moves.{order_id_of, create_pending_order-Created}
use udv_shop_api.Orders.Conservation.{IsConsistent, step-IsConsistent, run-IsConsistent}

-- The notice to who bought, of the order `k`.
abbrev pub is_notice : ℕ → OutboxPayload → Bool
is_notice k (order_paid j) = j == k
is_notice k _ = false

-- The notice to who sold.
abbrev pub is_store_notice : ℕ → OutboxPayload → Bool
is_store_notice k (order_paid_store j) = j == k
is_store_notice k _ = false

-- An order that has been paid, whatever became of it.
abbrev pub was_paid : OrderStatus → Bool
was_paid OrderStatus.pending_payment = false
was_paid OrderStatus.cancelled = false
was_paid _ = true

abbrev pub paid_orders : ℕ → List Order → ℕ
paid_orders k os = count_at order_id_of k (λ o. was_paid o.status) os

-- Between two databases, each order that came to be paid brought one event that the test accepts.
abbrev Balance : (OutboxPayload → Bool) → ℕ → Db → Db → Type 0
Balance test k db db' =
    sent test db' + paid_orders k db.orders ≡ sent test db + paid_orders k db'.orders

-- A status change between two paid statuses, or two unpaid ones, pays no order.
paid_orders-moved :
    (j k : ℕ) (q : Order → Bool) (to : OrderStatus) (now : ℕ) (os : List Order)
    → ((o : Order) → q o ≡ true → was_paid o.status ≡ was_paid to)
    → paid_orders j (update_key order_id_of k q (set_order_status to now) os) ≡ paid_orders j os
paid_orders-moved j k q to now os h =
    sum_of-update_many (λ o. if o.id == j && was_paid o.status then 1 else 0)
      (λ r. r.id == k && q r) (set_order_status to now) os (λ r e. ground (arith, h r))

paid_orders-paid :
    (j k now : ℕ) (os : List Order)
    → paid_orders j
        (update_key order_id_of k is_pending_order (set_order_status OrderStatus.paid now) os)
      ≡ paid_orders j os + (if k == j then count_at order_id_of k is_pending_order os else 0)
unfolding update_many
paid_orders-paid j k now [] = ground arith
paid_orders-paid j k now (o ∷ os) = ground (arith, paid_orders-paid j k now os)

-- The test accepts one of the two notices of each order, and no orphan.
record Counts (test : OutboxPayload → Bool) (j : ℕ) : Type 0 where
  once :
      (k : ℕ)
      → (if test (order_paid k) then 1 else 0) + (if test (order_paid_store k) then 1 else 0)
        ≡ (if◌then◌else◌ {A = ℕ} (k == j) 1 0)
  orphan : (a : Aggregate) (p : ℕ) → test (payment_orphaned a p) ≡ false

buyer : (j : ℕ) → Counts (is_notice j) j
buyer j = record { once = λ k. ground arith; orphan = λ a p. refl }

seller : (j : ℕ) → Counts (is_store_notice j) j
seller j = record { once = λ k. ground arith; orphan = λ a p. refl }

module _ (test : OutboxPayload → Bool) (j : ℕ) (c : Counts test j) where
  pay_order-Balance :
      (k p now : ℕ) (db : Db)
      → count_key order_id_of k db.orders ≤ 1
      → Balance test j db (pay_order k p now db).1
  unfolding pay_order
  pay_order-Balance k p now db unique =
      let paid = record db {
        orders =
            update_key order_id_of k is_pending_order (set_order_status OrderStatus.paid now)
              db.orders;
      } in
      elim (Bool-cases (count_at order_id_of k is_pending_order db.orders == 1)) [
        | inl e ↦ rw e (
            ground (
              arith,
              paid_orders-paid j k now db.orders,
              c.once k,
              sent-enqueue test (order_paid_store k) (enqueue (order_paid k) paid),
              sent-enqueue test (order_paid k) paid,
              orders-enqueue (order_paid_store k) (enqueue (order_paid k) paid),
              orders-enqueue (order_paid k) paid,
            ))
        | inr e ↦ rw e (
            ground (
              arith,
              paid_orders-paid j k now db.orders,
              count_at-le order_id_of k is_pending_order db.orders,
              c.orphan (order k) p,
              sent-enqueue test (payment_orphaned (order k) p) paid,
              orders-enqueue (payment_orphaned (order k) p) paid,
            ))
      ]

  pay_order_of-Balance :
      (found : Option Payment) (now : ℕ) (ps : List Payment) (db : Db)
      → ((k : ℕ) → count_key order_id_of k db.orders ≤ 1)
      → Balance test j db (transaction db (pay_order_of found now (record db { payments = ps }))).1
  unfolding pay_order_of
  pay_order_of-Balance none now ps db unique = refl
  pay_order_of-Balance (some p) now ps db unique = elim (Option-cases p.order_id) [
    | inl e ↦ rw e
    | inr (k, e) ↦ rw e (pay_order-Balance k p.id now (record db { payments = ps }) (unique k))
  ]

  if-Balance :
      {A : Type 0} (db : Db) (b : Bool) (m n : Result (A × Db))
      → Balance test j db (transaction db m).1
      → Balance test j db (transaction db n).1
      → Balance test j db (transaction db (if b then m else n)).1
  if-Balance db true m n hm hn = hm
  if-Balance db false m n hm hn = hn

  mark_paid-Balance :
      (k : ℕ) (x : Option ℕ) (now : ℕ) (db : Db)
      → ((o : ℕ) → count_key order_id_of o db.orders ≤ 1)
      → Balance test j db (transaction db (mark_paid k x now db)).1
  unfolding mark_paid
  mark_paid-Balance k x now db unique =
      let ps = update_key (λ (p : Payment). p.id) k is_payable (settle x now) db.payments in
      let found = find_key (λ (p : Payment). p.id) k ps in
      if-Balance db (count_at (λ (p : Payment). p.id) k is_payable db.payments == 1)
        (pay_order_of found now (record db { payments = ps }))
        (ok (none, record db { payments = ps })) (pay_order_of-Balance found now ps db unique) refl

  refund_order_of-Balance :
      (found : Option Payment) (now : ℕ) (ps : List Payment) (db : Db)
      → Balance test j db
          (transaction db (refund_order_of found now (record db { payments = ps }))).1
  unfolding refund_order_of
  refund_order_of-Balance none now ps db = refl
  refund_order_of-Balance (some p) now ps db = elim (Option-cases p.order_id) [
    | inl e ↦ rw e
    | inr (k, e) ↦ rw e (
        ground (
          arith,
          paid_orders-moved j k is_sold OrderStatus.refunded now db.orders (λ o h. ground arith),
        ))
  ]

  refund-Balance : (k now : ℕ) (db : Db) → Balance test j db (transaction db (refund k now db)).1
  unfolding refund
  refund-Balance k now db =
      let ps =
        update_key (λ (p : Payment). p.id) k is_refundable
          (set_payment_status PaymentStatus.refunded now) db.payments in
      let found = find_key (λ (p : Payment). p.id) k ps in
      if-Balance db (count_at (λ (p : Payment). p.id) k is_refundable db.payments == 1)
        (refund_order_of found now (record db { payments = ps }))
        (ok (false, record db { payments = ps })) (refund_order_of-Balance found now ps db) refl

  cancelled-Balance :
      (k now : ℕ) (db : Db)
      → paid_orders j (
          update_key order_id_of k is_pending_order
            (set_order_status OrderStatus.cancelled now)
            db.orders)
        ≡ paid_orders j db.orders
  cancelled-Balance k now db =
      paid_orders-moved j k is_pending_order OrderStatus.cancelled now db.orders
        (λ o h. ground arith)

  release_order-Balance :
      (items : List OrderItem) (k : ℕ) (to : PaymentStatus) (now : ℕ) (db : Db)
      → Balance test j db
          (transaction db (
            release_order items k to now (record db {
              orders =
                  update_key order_id_of k is_pending_order
                    (set_order_status OrderStatus.cancelled now)
                    db.orders;
            }))).1
  unfolding release_order close_payments
  release_order-Balance items k to now db = elim (Result-cases (restock_items items db.shelves)) [
    | inl (s, r) ↦ rw (r, ◌>>=◌) (omega (arith, cancelled-Balance k now db))
    | inr (e, r) ↦ rw (r, ◌>>=◌)
  ]

  cancel_pending_order-Balance :
      (k : ℕ) (to : PaymentStatus) (now : ℕ) (db : Db)
      → Balance test j db (transaction db (cancel_pending_order k to now db)).1
  unfolding cancel_pending_order
  cancel_pending_order-Balance k to now db =
      let cancelled = record db {
        orders =
            update_key order_id_of k is_pending_order (set_order_status OrderStatus.cancelled now)
              db.orders;
      } in
      let items = items_of (find_key order_id_of k cancelled.orders) in
      if-Balance db (count_at order_id_of k is_pending_order db.orders == 1)
        (release_order items k to now cancelled) (ok (false, cancelled))
        (release_order-Balance items k to now db) (omega (arith, cancelled-Balance k now db))

  create-Balance :
      (now : ℕ) (input : NewOrder) (db : Db)
      → Balance test j db (transaction db (create_pending_order now input db)).1
  unfolding new_order
  create-Balance now input db = elim (Result-cases (create_pending_order now input db)) [
    | inl ((o, db'), h) ↦
        let w = create_pending_order-Created now input db o db' h in
        rw (h, w.silent, w.appended, w.made) (rw sum_of-append (ground arith))
    | inr (e, h) ↦ rw h
  ]

  update_payment-Balance :
      (k : ℕ) (f : Payment → Payment) (db : Db)
      → Balance test j db (or_unchanged db (update_payment k f db))
  unfolding update_payment
  update_payment-Balance k f db = ground arith

  deliver-Balance :
      (k : ℕ) (to : DeliveryStatus) (now : ℕ) (db : Db)
      → Balance test j db (update_order_status k (valid_from to) (target_status to) now db).1
  unfolding update_order_status
  deliver-Balance k to now db = omega (
    arith,
    paid_orders-moved j k (λ o. order_in (valid_from to) o.status) (target_status to) now db.orders
        (λ o h. ground arith),
  )

  step-Balance :
      (op : OrderOp) (now : ℕ) (db : Db)
      → ((o : ℕ) → count_key order_id_of o db.orders ≤ 1)
      → Balance test j db (step op now db)
  unfolding step attach_provider_id attach_pix_charge claim_refund release_refund_claim
  step-Balance (create input) now db u = create-Balance now input db
  step-Balance (attach_provider p x) now db u = update_payment-Balance p _ db
  step-Balance (attach_pix p b q) now db u = update_payment-Balance p _ db
  step-Balance (pay p x) now db u = mark_paid-Balance p x now db u
  step-Balance (cancel o why) now db u = cancel_pending_order-Balance o (reason_status why) now db
  step-Balance (give_money_back p) now db u = refund-Balance p now db
  step-Balance (claim p) now db u = refl
  step-Balance (release p) now db u = refl
  step-Balance (deliver o to) now db u = deliver-Balance o to now db

  run-Balance :
      (ops : List (ℕ × OrderOp)) (db : Db) → IsConsistent db → Balance test j db (run ops db)
  unfolding run
  run-Balance [] db cons = refl
  run-Balance ((now, op) ∷ ops) db cons = omega (
    arith,
    step-Balance op now db cons.unique,
    run-Balance ops (step op now db) (step-IsConsistent op now db cons),
  )

-- From a database with consistent order tables whose outbox has, for each order that was paid, one
-- notice to who bought and one to who sold, and none for the others, the same holds after any
-- history; so no history sends an order a second notice of either kind.
pub run-notices :
    (ops : List (ℕ × OrderOp)) (db : Db) (j : ℕ)
    → IsConsistent db
    → sent (is_notice j) db ≡ paid_orders j db.orders
    → sent (is_store_notice j) db ≡ paid_orders j db.orders
    → (sent (is_notice j) (run ops db) ≡ paid_orders j (run ops db).orders)
      × (sent (is_store_notice j) (run ops db) ≡ paid_orders j (run ops db).orders)
      × (sent (is_notice j) (run ops db) ≤ 1)
run-notices ops db j cons hb hs = (
  omega (arith, run-Balance (is_notice j) j (buyer j) ops db cons),
  omega (arith, run-Balance (is_store_notice j) j (seller j) ops db cons),
  omega (
    arith,
    run-Balance (is_notice j) j (buyer j) ops db cons,
    count_at-le order_id_of j (λ o. was_paid o.status) (run ops db).orders,
    (run-IsConsistent ops db cons).unique j,
  ),
)
