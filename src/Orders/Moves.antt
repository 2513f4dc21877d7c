-- ===== src/Orders/Moves.antt =====
-- What a write of orders.repository.ts may do to the orders: a new order, or a move of one.
use mathlib.Core.Path.{subst}
use udv_shop_api.Prelude.{
  ℕ, suc, ◌≤◌, ◌<◌, ◌≡◌, refl, sym, Bool, true, false, inl, inr, some, [], ◌∷◌, ◌++◌, arith, all,
}
use udv_shop_api.Errors.{ok, transaction, >>=-eq-ok, Result-cases}
use udv_shop_api.Schema.{OrderStatus, order_in, Order, Db, Shelves}
use udv_shop_api.Table.Keys.{update_key, find_key}
use udv_shop_api.Shelf.{reserve_items, sorted_items, restock_items}
use udv_shop_api.Orders.{
  NewOrder, item_rows, one_target, new_order, new_payment, insert_order, is_pending_order,
  set_order_status, create_pending_order,
}
use udv_shop_api.Orders.Ops.{DeliveryStatus, valid_from, target_status}

abbrev pub order_id_of : Order → ℕ
order_id_of o = o.id

-- An order that still holds what it reserved: every order that is not cancelled.
abbrev pub holds : OrderStatus → Bool
holds OrderStatus.cancelled = false
holds _ = true

-- The status changes that keep the reservation.
pub data Move : OrderStatus → OrderStatus → Type 0 where
  pays : Move OrderStatus.pending_payment OrderStatus.paid
  arranges : Move OrderStatus.paid OrderStatus.delivery_arranged
  hands_over : Move OrderStatus.paid OrderStatus.delivered
  delivers : Move OrderStatus.delivery_arranged OrderStatus.delivered
  refunds_paid : Move OrderStatus.paid OrderStatus.refunded
  refunds_arranged : Move OrderStatus.delivery_arranged OrderStatus.refunded
  refunds_delivered : Move OrderStatus.delivered OrderStatus.refunded

pub Move-holds : {s t : OrderStatus} → Move s t → holds s ≡ holds t
Move-holds pays = refl
Move-holds arranges = refl
Move-holds hands_over = refl
Move-holds delivers = refl
Move-holds refunds_paid = refl
Move-holds refunds_arranged = refl
Move-holds refunds_delivered = refl

pub paying :
    (s : OrderStatus)
    → order_in (OrderStatus.pending_payment ∷ []) s ≡ true
    → Move s OrderStatus.paid
paying OrderStatus.pending_payment h = pays
paying _ h = absurd (cc)

pub refunding :
    (s : OrderStatus)
    → order_in (OrderStatus.paid ∷ OrderStatus.delivery_arranged ∷ OrderStatus.delivered ∷ []) s
      ≡ true
    → Move s OrderStatus.refunded
refunding OrderStatus.paid h = refunds_paid
refunding OrderStatus.delivery_arranged h = refunds_arranged
refunding OrderStatus.delivered h = refunds_delivered
refunding _ h = absurd (cc)

pub delivering :
    (to : DeliveryStatus) (s : OrderStatus)
    → order_in (valid_from to) s ≡ true
    → Move s (target_status to)
delivering DeliveryStatus.delivery_arranged OrderStatus.paid h = arranges
delivering DeliveryStatus.delivered OrderStatus.paid h = hands_over
delivering DeliveryStatus.delivered OrderStatus.delivery_arranged h = delivers
delivering _ _ h = absurd (cc)

-- The effect of one operation.
pub data Effect (db db' : Db) : Type 0 where
  kept :
      db'.orders ≡ db.orders → db'.shelves ≡ db.shelves → db.next_id ≤ db'.next_id → Effect db db'
  moved :
      (k : ℕ) (q : Order → Bool) (to : OrderStatus) (now : ℕ)
      → ((o : Order) → q o ≡ true → Move o.status to)
      → db'.orders ≡ update_key order_id_of k q (set_order_status to now) db.orders
      → db'.shelves ≡ db.shelves
      → db.next_id ≤ db'.next_id
      → Effect db db'
  created :
      (o : Order)
      → o.id ≡ db.next_id
      → holds o.status ≡ true
      → db.next_id < db'.next_id
      → db'.orders ≡ db.orders ++ o ∷ []
      → reserve_items (sorted_items o.items) db.shelves ≡ ok db'.shelves
      → Effect db db'
  released :
      (k : ℕ) (o : Order) (now : ℕ)
      → find_key order_id_of k db.orders ≡ some o
      → is_pending_order o ≡ true
      → db'.orders
        ≡ update_key order_id_of k is_pending_order
            (set_order_status OrderStatus.cancelled now)
            db.orders
      → restock_items o.items db.shelves ≡ ok db'.shelves
      → db.next_id ≤ db'.next_id
      → Effect db db'

-- What `createPendingOrder` writes when it returns.
pub record Created (now : ℕ) (input : NewOrder) (db : Db) (o : Order) (db' : Db) : Type 0 where
  pub reserved : reserve_items (sorted_items (item_rows input)) db.shelves ≡ ok db'.shelves
  pub targets : all one_target (item_rows input) ≡ true
  pub made : o ≡ new_order db.next_id now input
  pub appended : db'.orders ≡ db.orders ++ o ∷ []
  pub paying : db'.payments ≡ db.payments ++ new_payment (suc db.next_id) db.next_id now input ∷ []
  pub drawn : db'.next_id ≡ suc (suc db.next_id)
  pub silent : db'.outbox ≡ db.outbox

inserted :
    (now : ℕ) (input : NewOrder) (db : Db) (s : Shelves) (o : Order) (db' : Db)
    → reserve_items (sorted_items (item_rows input)) db.shelves ≡ ok s
    → insert_order now input (record db { shelves = s }) ≡ ok (o, db')
    → Created now input db o db'
unfolding insert_order
inserted now input db s o db' r h = ground arith

pub create_pending_order-Created :
    (now : ℕ) (input : NewOrder) (db : Db) (o : Order) (db' : Db)
    → create_pending_order now input db ≡ ok (o, db')
    → Created now input db o db'
unfolding create_pending_order
create_pending_order-Created now input db o db' h =
    let (s, reserved, rest) =
      >>=-eq-ok (reserve_items (sorted_items (item_rows input)) db.shelves)
        (λ s. insert_order now input (record db { shelves = s })) {w = (o, db')} h in
    inserted now input db s o db' reserved rest

Created-Effect :
    (now : ℕ) (input : NewOrder) (db : Db) (o : Order) (db' : Db)
    → Created now input db o db'
    → Effect db db'
unfolding new_order
Created-Effect now input db o db' c =
    let e : o.items ≡ item_rows input = ground arith in
    created o (ground arith) (ground arith) (omega (arith, c.drawn)) c.appended
      (subst (λ l. reserve_items (sorted_items l) db.shelves ≡ ok db'.shelves) (sym e) c.reserved)

pub create-Effect :
    (now : ℕ) (input : NewOrder) (db : Db)
    → Effect db (transaction db (create_pending_order now input db)).1
create-Effect now input db = elim (Result-cases (create_pending_order now input db)) [
  | inl ((o, db'), h) ↦
      rw h (Created-Effect now input db o db' (create_pending_order-Created now input db o db' h))
  | inr (e, h) ↦ rw h (kept refl refl (omega arith))
]
