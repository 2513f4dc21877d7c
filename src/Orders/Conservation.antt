-- ===== src/Orders/Conservation.antt =====
-- Shelves and live orders over a history of the order operations.
use udv_shop_api.Prelude.{
  ℕ, ◌+◌, ◌≤◌, ◌≡◌, refl, ◌∙◌, ◌&&◌, Bool, true, inl, inr, some, List, [], ◌∷◌, sum_of,
  sum_of-append, arith, if◌then◌else◌, ◌==◌,
}
use udv_shop_api.Schema.{Order, Db, Shelves, OrderStatus}
use udv_shop_api.Table.Laws.{sum_of-update_many}
use udv_shop_api.Table.Keys.{update_key, find_key, count_key, update_key-Point, count_at-found}
use udv_shop_api.Shelf.{Target, available, demand, sorted_items}
use udv_shop_api.Shelf.Lines.{
  missing, SameRows, OnShelf-SameRows, reserve_items-SameRows, reserve_items-OnShelf,
  available-reserve_items, restock_items-SameRows, available-restock_items, demand-sorted_items,
  OnShelf-sorted_items,
}
use udv_shop_api.Orders.{set_order_status, is_pending_order}
use udv_shop_api.Orders.Ops.{OrderOp, step, run}
use udv_shop_api.Orders.Moves.{
  Effect, kept, moved, created, released, holds, Move-holds, order_id_of,
}
use udv_shop_api.Orders.Effects.{step-Effect}

-- Order identifiers are unique and below the next one, and every line stands on the shelves.
pub record IsConsistent (db : Db) : Type 0 where
  pub unique : (k : ℕ) → count_key order_id_of k db.orders ≤ 1
  pub fresh : (k : ℕ) → db.next_id ≤ k → count_key order_id_of k db.orders ≡ 0
  pub stocked : sum_of (λ (o : Order). sum_of (missing db.shelves) o.items) db.orders ≡ 0

-- What the orders that are not cancelled hold of a target.
abbrev pub held : Target → List Order → ℕ
held t orders = sum_of (λ o. if holds o.status then demand t o.items else 0) orders

-- What is left of a target and what is held of it.
abbrev pub total : Target → Db → ℕ
total t db = available t db.shelves + held t db.orders

abbrev lost : Shelves → Order → ℕ
lost s o = sum_of (missing s) o.items

lost-SameRows :
    (s s' : Shelves) (os : List Order)
    → SameRows s s'
    → sum_of (lost s) os ≡ 0
    → sum_of (lost s') os ≡ 0
lost-SameRows s s' [] same h = refl
lost-SameRows s s' (o ∷ os) same h = omega (
  arith,
  OnShelf-SameRows s s' o.items same (omega arith),
  lost-SameRows s s' os same (omega arith),
)

-- Moving orders to another status keeps their identifiers and their lines.
count-moved :
    (k j : ℕ) (q : Order → Bool) (to : OrderStatus) (now : ℕ) (os : List Order)
    → count_key order_id_of j (update_key order_id_of k q (set_order_status to now) os)
      ≡ count_key order_id_of j os
count-moved k j q to now os = sum_of-update_many _ _ _ os (λ r h. refl)

lost-moved :
    (s : Shelves) (k : ℕ) (q : Order → Bool) (to : OrderStatus) (now : ℕ) (os : List Order)
    → sum_of (lost s) (update_key order_id_of k q (set_order_status to now) os) ≡ sum_of (lost s) os
lost-moved s k q to now os = sum_of-update_many _ _ _ os (λ r h. refl)

moved-IsConsistent :
    (db db' : Db) (k : ℕ) (q : Order → Bool) (to : OrderStatus) (now : ℕ)
    → db'.orders ≡ update_key order_id_of k q (set_order_status to now) db.orders
    → SameRows db.shelves db'.shelves
    → db.next_id ≤ db'.next_id
    → IsConsistent db
    → IsConsistent db'
moved-IsConsistent db db' k q to now orders same later c = record {
  unique = λ j. rw orders (omega (arith, count-moved k j q to now db.orders, c.unique j));
  fresh = λ j h. rw orders (omega (arith, count-moved k j q to now db.orders, c.fresh j));
  stocked = rw orders (
      omega (
        arith,
        lost-moved db'.shelves k q to now db.orders,
        lost-SameRows db.shelves db'.shelves db.orders same c.stocked,
      ));
}

pub Effect-IsConsistent : {db db' : Db} → Effect db db' → IsConsistent db → IsConsistent db'
Effect-IsConsistent {db} {db'} (kept orders shelves later) c = record {
  unique = λ j. rw orders (c.unique j);
  fresh = λ j h. rw orders (c.fresh j (omega arith));
  stocked = rw (orders, shelves) c.stocked;
}
Effect-IsConsistent {db} {db'} (moved k q to now h orders shelves later) c =
    moved-IsConsistent db db' k q to now orders (λ u. rw shelves) later c
Effect-IsConsistent {db} {db'} (released k o now found p orders restocked later) c =
    moved-IsConsistent db db' k is_pending_order OrderStatus.cancelled now orders
      (restock_items-SameRows o.items db.shelves restocked) later c
Effect-IsConsistent {db} {db'} (created o id live later orders reserved) c = record {
  unique = λ j. rw (orders, sum_of-append) (ground (arith, c.unique j, c.fresh j));
  fresh = λ j h. rw (orders, sum_of-append) (ground (arith, c.fresh j));
  stocked =
      rw (orders, sum_of-append)
        (omega (
          arith,
          lost-SameRows db.shelves db'.shelves db.orders
              (reserve_items-SameRows (sorted_items o.items) db.shelves reserved) c.stocked,
          OnShelf-SameRows db.shelves db'.shelves o.items
              (reserve_items-SameRows (sorted_items o.items) db.shelves reserved)
              (OnShelf-sorted_items db.shelves o.items
                (reserve_items-OnShelf (sorted_items o.items) db.shelves reserved)),
        ));
}

held-released :
    (t : Target) (k now : ℕ) (o : Order) (os : List Order)
    → count_key order_id_of k os ≤ 1
    → find_key order_id_of k os ≡ some o
    → is_pending_order o ≡ true
    → held t (
          update_key order_id_of k is_pending_order (set_order_status OrderStatus.cancelled now) os)
        + demand t o.items
      ≡ held t os
held-released t k now o os unique found pending =
    elim (update_key-Point order_id_of k is_pending_order
      (set_order_status OrderStatus.cancelled now) os unique) [
        | inl (c, same) ↦
            absurd (count_at-found order_id_of k is_pending_order os o found pending c)
        | inr (r, found', pending', c, sums) ↦
            let e : o ≡ r = cc in
            rw e (ground (arith, sums (λ x. if holds x.status then demand t x.items else 0)))
      ]

held-moved :
    (t : Target) (k : ℕ) (q : Order → Bool) (to : OrderStatus) (now : ℕ) (os : List Order)
    → ((o : Order) → q o ≡ true → holds o.status ≡ holds to)
    → held t (update_key order_id_of k q (set_order_status to now) os) ≡ held t os
held-moved t k q to now os h =
    sum_of-update_many (λ o. if holds o.status then demand t o.items else 0) (λ r. r.id == k && q r)
      (set_order_status to now) os (λ r e. ground (arith, h r))

Effect-total :
    (t : Target) {db db' : Db} → Effect db db' → IsConsistent db → total t db' ≡ total t db
Effect-total t {db} {db'} (kept orders shelves later) c = rw (orders, shelves)
Effect-total t {db} {db'} (moved k q to now h orders shelves later) c =
    rw (orders, shelves)
      (omega (arith, held-moved t k q to now db.orders (λ o e. Move-holds (h o e))))
Effect-total t {db} {db'} (released k o now found p orders restocked later) c = rw orders (
    omega (
      arith,
      held-released t k now o db.orders (c.unique k) found p,
      available-restock_items t o.items db.shelves restocked,
    ))
Effect-total t {db} {db'} (created o id live later orders reserved) c =
    rw (orders, sum_of-append, live)
      (omega (
        arith,
        available-reserve_items t (sorted_items o.items) db.shelves reserved,
        demand-sorted_items t o.items,
      ))

-- An operation keeps the tables consistent.
pub step-IsConsistent :
    (op : OrderOp) (now : ℕ) (db : Db) → IsConsistent db → IsConsistent (step op now db)
step-IsConsistent op now db c = Effect-IsConsistent (step-Effect op now db c.unique) c

pub run-IsConsistent :
    (ops : List (ℕ × OrderOp)) (db : Db) → IsConsistent db → IsConsistent (run ops db)
unfolding run
run-IsConsistent [] db c = c
run-IsConsistent ((now, op) ∷ ops) db c =
    run-IsConsistent ops (step op now db) (step-IsConsistent op now db c)

-- From a database whose order tables are consistent, whatever the history of checkouts, payments,
-- cancellations, expirations, refunds and deliveries, failing or not, and in whatever order, what
-- is left of a product, an event or a batch together with what the orders that are not cancelled
-- hold of it stays the same: nothing is oversold, and no reservation leaks or is given back twice.
pub run-total :
    (ops : List (ℕ × OrderOp)) (t : Target) (db : Db)
    → IsConsistent db
    → total t (run ops db) ≡ total t db
unfolding run
run-total [] t db c = refl
run-total ((now, op) ∷ ops) t db c =
    run-total ops t (step op now db) (step-IsConsistent op now db c)
    ∙ Effect-total t (step-Effect op now db c.unique) c
