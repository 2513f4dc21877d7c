-- ===== src/Expiry/Drained.antt =====
-- Orders that wait past their time, and the ticks of src/workers/expire-reservations.ts.
use mathlib.Core.Path.{subst}
use udv_shop_api.Prelude.{
  ℕ, suc, ◌+◌, ◌-◌, ◌≤◌, ◌≡◌, refl, Bool, true, false, ◌&&◌, List, [], ◌∷◌, some, inl, inr, arith,
  sum_of, length, length-take, min, if◌then◌else◌, ◌==◌, All, ltb, ◌∙◌, ap,
}
use udv_shop_api.Errors.{Result, ok, transaction}
use udv_shop_api.Schema.{Order, OrderStatus, PaymentStatus, Db}
use udv_shop_api.Table.{count_where, find_many}
use udv_shop_api.Table.Keys.{
  update_key, count_key, find_key, update_key-Point, count_at-found, find_key-update_key,
}
use udv_shop_api.Table.Every.{All-find_many}
use udv_shop_api.Table.Selected.{
  length-find_many, sum_of-find_many-le, sum_of-take-le, sum_of-found, All-take, All-found,
}
use udv_shop_api.Shelf.Lines.{missing, restock_items-ok}
use udv_shop_api.Orders.{
  cancel_pending_order, release_order, close_payments, is_pending_order, set_order_status,
  list_expired_pending,
}
use udv_shop_api.Orders.Ops.{cancel, expired, step}
use udv_shop_api.Orders.Moves.{order_id_of}
use udv_shop_api.Orders.Effects.{cancelled_items}
use udv_shop_api.Orders.Conservation.{IsConsistent, step-IsConsistent}
use udv_shop_api.Expiry.{expire_orders, expire_reservations}

-- Pending, with its time over.
abbrev pub is_late : ℕ → Order → Bool
is_late now o = is_pending_order o && ltb o.expires_at now

abbrev pub late : ℕ → Db → ℕ
late now db = count_where (is_late now) db.orders

abbrev cancel_row : ℕ → Order → Order
cancel_row now = set_order_status OrderStatus.cancelled now

-- Nothing keeps a pending order from being cancelled where its lines stand on the shelves.
cancel_pending_order-ok :
    (now : ℕ) (db : Db) (o : Order)
    → IsConsistent db
    → find_key order_id_of o.id db.orders ≡ some o
    → is_pending_order o ≡ true
    → (db' : Db) × (cancel_pending_order o.id PaymentStatus.expired now db ≡ ok (true, db'))
      × (db'.orders ≡ update_key order_id_of o.id is_pending_order (cancel_row now) db.orders)
unfolding cancel_pending_order release_order close_payments
cancel_pending_order-ok now db o c found pending =
    elim (update_key-Point order_id_of o.id is_pending_order (cancel_row now) db.orders
      (c.unique o.id)) [
        | inl (z, same) ↦
            absurd (count_at-found order_id_of o.id is_pending_order db.orders o found pending z)
        | inr (r, found', pending', z, sums) ↦
            let (s, good) = restock_items-ok o.items db.shelves (
              sum_of-found (λ (o : Order). sum_of (missing db.shelves) o.items) (λ r. r.id == o.id)
                db.orders o found c.stocked) in
            (
              close_payments o.id PaymentStatus.expired now (record db {
                orders = update_key order_id_of o.id is_pending_order (cancel_row now) db.orders;
                shelves = s;
              }),
              rw (z, cancelled_items o.id now db.orders o found, good) refl,
              refl,
            )
      ]

-- A listed order, as the database stands.
abbrev Listed : ℕ → Db → Order → Type 0
Listed now db o = (find_key order_id_of o.id db.orders ≡ some o) × (is_late now o ≡ true)

-- The cancellation of one order leaves the others as they were listed, and one order less late.
Listed-after :
    (now : ℕ) (db db' : Db) (o r : Order)
    → db'.orders ≡ update_key order_id_of o.id is_pending_order (cancel_row now) db.orders
    → (o.id == r.id) ≡ false
    → Listed now db r
    → Listed now db' r
Listed-after now db db' o r e other (found, t) = (
  rw e (
      rw
        (find_key-update_key order_id_of o.id r.id is_pending_order (cancel_row now) db.orders
          (λ x. refl))
        (rw found (ground arith))),
  t,
)

late-after :
    (now : ℕ) (db db' : Db) (o : Order)
    → db'.orders ≡ update_key order_id_of o.id is_pending_order (cancel_row now) db.orders
    → count_key order_id_of o.id db.orders ≤ 1
    → Listed now db o
    → late now db' + 1 ≡ late now db
late-after now db db' o e u (found, t) =
    elim (update_key-Point order_id_of o.id is_pending_order (cancel_row now) db.orders u) [
      | inl (z, same) ↦
          absurd
            (count_at-found order_id_of o.id is_pending_order db.orders o found (ground arith) z)
      | inr (r, found', pending', z, sums) ↦
          let same : o ≡ r = cc in rw e (ground (arith, sums (λ x. if is_late now x then 1 else 0)))
    ]

-- Among rows with different keys, the first one is none of the others.
others :
    (now : ℕ) (db db' : Db) (o : Order) (os : List Order)
    → db'.orders ≡ update_key order_id_of o.id is_pending_order (cancel_row now) db.orders
    → count_key order_id_of o.id os ≡ 0
    → All (Listed now db) os
    → All (Listed now db') os
others now db db' o [] e z a = tt
others now db db' o (r ∷ os) e z (b, a) =
    (Listed-after now db db' o r e (ground arith) b, others now db db' o os e (ground arith) a)

late-pending : (now : ℕ) (o : Order) → is_late now o ≡ true → is_pending_order o ≡ true
late-pending now o t = ground arith

cancelled-IsConsistent :
    (k now : ℕ) (db db' : Db)
    → cancel_pending_order k PaymentStatus.expired now db ≡ ok (true, db')
    → IsConsistent db
    → IsConsistent db'
unfolding step
cancelled-IsConsistent k now db db' h c =
    subst (λ (m : Result (Bool × Db)). IsConsistent (transaction db m).1) h
      (step-IsConsistent (cancel k expired) now db c)

-- What the loop over the rest of the list leaves, from what the first cancellation left.
abbrev Drains : List Order → ℕ → ℕ → Db → Type 0
Drains os n now db =
    (db' : Db) × (expire_orders os n now db ≡ (ok (n + length os), db'))
    × (late now db' + length os ≡ late now db)
    × IsConsistent db'

Drains-next :
    (o : Order) (os : List Order) (n now : ℕ) (db db1 : Db)
    → cancel_pending_order o.id PaymentStatus.expired now db ≡ ok (true, db1)
    → late now db1 + 1 ≡ late now db
    → Drains os (suc n) now db1
    → Drains (o ∷ os) n now db
unfolding expire_orders
Drains-next o os n now db db1 first fewer (db', rest, drained, c) =
    (db', rw (expire_orders, first, rest) (ground arith), omega (arith, drained, fewer), c)

expire_orders-Drains :
    (os : List Order) (n now : ℕ) (db : Db)
    → IsConsistent db
    → ((k : ℕ) → count_key order_id_of k os ≤ 1)
    → All (Listed now db) os
    → Drains os n now db
unfolding expire_orders
expire_orders-Drains [] n now db c u a = (db, ground arith, omega arith, c)
expire_orders-Drains (o ∷ os) n now db c u (b, a) =
    let (db1, first, orders) = cancel_pending_order-ok now db o c b.0 (late-pending now o b.1) in
    Drains-next o os n now db db1 first (late-after now db db1 o orders (c.unique o.id) b) (
      expire_orders-Drains os (suc n) now db1 (cancelled-IsConsistent o.id now db db1 first c)
        (λ k. omega (arith, u k)) (others now db db1 o os orders (ground (arith, u o.id)) a))

listed-Listed :
    (now : ℕ) (db : Db) → IsConsistent db → All (Listed now db) (list_expired_pending now db)
unfolding list_expired_pending
listed-Listed now db c = All-take (Listed now db) 200 (find_many (is_late now) db.orders) (
    All-find_many (λ o. find_key order_id_of o.id db.orders ≡ some o) (Listed now db) (is_late now)
      db.orders (λ o t found. (found, t)) (All-found order_id_of db.orders c.unique))

listed_unique :
    (now : ℕ) (db : Db) (k : ℕ)
    → IsConsistent db
    → count_key order_id_of k (list_expired_pending now db) ≤ 1
unfolding list_expired_pending
listed_unique now db k c = omega (
  arith,
  sum_of-take-le (λ o. if o.id == k then 1 else 0) 200 (find_many (is_late now) db.orders),
  sum_of-find_many-le (λ o. if o.id == k then 1 else 0) (is_late now) db.orders,
  c.unique k,
)

length-listed : (now : ℕ) (db : Db) → length (list_expired_pending now db) ≡ min 200 (late now db)
unfolding list_expired_pending
length-listed now db = omega (
  arith,
  length-take 200 (find_many (is_late now) db.orders),
  length-find_many (is_late now) db.orders,
)

-- From consistent order tables a tick does not throw: it cancels every order that was late, or 200 of
-- them where there are more, says how many, and leaves the tables consistent.
pub expire_reservations-drains :
    (now : ℕ) (db : Db)
    → IsConsistent db
    → (db' : Db) × (expire_reservations now db ≡ (ok (min 200 (late now db)), db'))
      × (late now db' ≡ late now db - 200)
      × IsConsistent db'
unfolding expire_reservations
expire_reservations-drains now db c =
    let (db', done, fewer, c') =
      expire_orders-Drains (list_expired_pending now db) 0 now db c (λ k. listed_unique now db k c)
        (listed-Listed now db c) in
    (
      db',
      done ∙ ap (λ n. (ok n, db')) (omega (arith, length-listed now db)),
      omega (arith, fewer, length-listed now db),
      c',
    )
