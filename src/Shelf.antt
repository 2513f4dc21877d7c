-- ===== src/Shelf.antt =====
-- The stock that an order reserves and gives back: `restockItems` and the reservation loop of
-- `createPendingOrder` (src/http/api/orders/orders.repository.ts).
pub mod Rows
pub mod Laws
pub mod Lines
use udv_shop_api.Prelude.{
  ℕ, ◌+◌, ◌-◌, Bool, true, false, ◌&&◌, Option, none, some, List, [], ◌∷◌, sum_of, leb, ltb, ◌==◌,
  if◌then◌else◌, or_else, is_none,
}
use udv_shop_api.Errors.{Result, ok, err, AppError, conflict, failure, ◌>>=◌}
use udv_shop_api.Schema.{Product, Event, EventBatch, OrderItem, Shelves}
use udv_shop_api.Table.{update_many, update_first, count_where, sort_by}

-- What one line of an order is taken from.
pub data Target : Type 0 where
  batch event product : ℕ → Target

abbrev pub target_eq : Target → Target → Bool
target_eq (batch a) (batch b) = a == b
target_eq (event a) (event b) = a == b
target_eq (product a) (product b) = a == b
target_eq _ _ = false

-- A line of a batch also names the event: the batch goes first, then the event.
unfoldable pub target_of : OrderItem → Option Target
target_of item = elim item.event_batch_id [
  | some b ↦ some (batch b)
  | none ↦ elim item.event_id [
    | some e ↦ some (event e)
    | none ↦ elim item.product_id [ some p ↦ some (product p) | none ↦ none ]
  ]
]

-- `if (updated.count !== 1) throw new ConflictError("insufficient_stock")`
abbrev one_row : ℕ → Shelves → Result Shelves
one_row count s = if count == 1 then ok s else err (conflict "insufficient_stock")

-- The guarded `updateMany` of the reservation: the quantity is taken only where so much is left.
unfoldable pub reserve_target : Target → ℕ → Shelves → Result Shelves
reserve_target (batch k) qty s =
    let fits = λ (b : EventBatch). b.id == k && leb qty b.seats in
    one_row (count_where fits s.batches)
      (record s { batches = update_many fits (λ b. record b { seats = b.seats - qty }) s.batches })
reserve_target (event k) qty s =
    let fits = λ (e : Event). e.id == k && leb qty e.seats in
    one_row (count_where fits s.events)
      (record s { events = update_many fits (λ e. record e { seats = e.seats - qty }) s.events })
reserve_target (product k) qty s =
    let fits = λ (p : Product). p.id == k && leb qty p.stock in
    one_row (count_where fits s.products) (record s {
      products = update_many fits (λ p. record p { stock = p.stock - qty }) s.products;
    })

-- A line with no target never becomes a row: the CHECK of order_items refuses it.
unfoldable pub reserve_item : OrderItem → Shelves → Result Shelves
reserve_item item s = elim (target_of item) [
  | none ↦ err (failure "order_items_target_check")
  | some t ↦ reserve_target t item.qty s
]

unfoldable pub reserve_items : List OrderItem → Shelves → Result Shelves
reserve_items [] s = ok s
reserve_items (item ∷ items) s = reserve_item item s >>= reserve_items items

-- The order in which the lines are locked.
abbrev lock_key : OrderItem → ℕ
lock_key i = or_else i.event_batch_id (or_else i.product_id (or_else i.event_id 0))

unfoldable pub sorted_items : List OrderItem → List OrderItem
sorted_items items = sort_by (λ s r. ltb (lock_key s) (lock_key r)) items

-- `update` of a row that is not there throws.
abbrev found_row : ℕ → Shelves → Result Shelves
found_row count s = if count == 0 then err (failure "record_not_found") else ok s

-- `update` with `increment`
unfoldable pub restock_target : Target → ℕ → Shelves → Result Shelves
restock_target (batch k) qty s =
    let is_it = λ (b : EventBatch). b.id == k in
    found_row (count_where is_it s.batches) (record s {
      batches = update_first is_it (λ b. record b { seats = b.seats + qty }) s.batches;
    })
restock_target (event k) qty s =
    let is_it = λ (e : Event). e.id == k in
    found_row (count_where is_it s.events)
      (record s { events = update_first is_it (λ e. record e { seats = e.seats + qty }) s.events })
restock_target (product k) qty s =
    let is_it = λ (p : Product). p.id == k in
    found_row (count_where is_it s.products) (record s {
      products = update_first is_it (λ p. record p { stock = p.stock + qty }) s.products;
    })

unfoldable pub restock_item : OrderItem → Shelves → Result Shelves
restock_item item s = elim (target_of item) [ none ↦ ok s | some t ↦ restock_target t item.qty s ]

unfoldable pub restock_items : List OrderItem → Shelves → Result Shelves
restock_items [] s = ok s
restock_items (item ∷ items) s = restock_item item s >>= restock_items items

-- How much of a target is left to sell.
unfoldable pub available : Target → Shelves → ℕ
available (batch k) s = sum_of (λ b. if b.id == k then b.seats else 0) s.batches
available (event k) s = sum_of (λ e. if e.id == k then e.seats else 0) s.events
available (product k) s = sum_of (λ p. if p.id == k then p.stock else 0) s.products

-- How many rows a target has.
unfoldable pub rows_of : Target → Shelves → ℕ
rows_of (batch k) s = count_where (λ b. b.id == k) s.batches
rows_of (event k) s = count_where (λ e. e.id == k) s.events
rows_of (product k) s = count_where (λ p. p.id == k) s.products

abbrev pub is_for : Target → Option Target → Bool
is_for t none = false
is_for t (some u) = target_eq u t

-- How much of a target the lines of an order ask for.
abbrev pub demand : Target → List OrderItem → ℕ
demand t items = sum_of (λ i. if is_for t (target_of i) then i.qty else 0) items
