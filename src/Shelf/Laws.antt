-- ===== src/Shelf/Laws.antt =====
-- One table of stock under the guarded decrement and the increment of orders.repository.ts.
use udv_shop_api.Prelude.{ℕ, ◌+◌, ◌-◌, ◌≡◌, ◌≢◌, refl, ◌==◌, if◌then◌else◌, arith}
use udv_shop_api.Errors.{ok}
use udv_shop_api.Schema.{Product, Event, EventBatch, Shelves}
use udv_shop_api.Shelf.Rows.{left-take, left-give, keys-take, keys-give, count-fits-le, fits}
use udv_shop_api.Shelf.{
  Target, batch, event, product, target_eq, reserve_target, found_row, restock_target, available,
  rows_of,
}

pub available-reserve_target :
    (t u : Target) (q : ℕ) (s : Shelves) {s' : Shelves}
    → reserve_target t q s ≡ ok s'
    → available u s' + (if target_eq t u then q else 0) ≡ available u s
unfolding reserve_target available
available-reserve_target (batch k) (batch j) q s h = ground (
  arith,
  left-take (λ (b : EventBatch). b.id) (λ b. b.seats) (λ b. record b { seats = b.seats - q })
      (λ b. refl) k j q s.batches (λ b. refl),
)
available-reserve_target (event k) (event j) q s h = ground (
  arith,
  left-take (λ (e : Event). e.id) (λ e. e.seats) (λ e. record e { seats = e.seats - q }) (λ e. refl)
      k j q s.events (λ e. refl),
)
available-reserve_target (product k) (product j) q s h = ground (
  arith,
  left-take (λ (p : Product). p.id) (λ p. p.stock) (λ p. record p { stock = p.stock - q })
      (λ p. refl) k j q s.products (λ p. refl),
)
available-reserve_target _ _ q s h = ground arith

pub rows_of-reserve_target :
    (t u : Target) (q : ℕ) (s : Shelves) {s' : Shelves}
    → reserve_target t q s ≡ ok s'
    → rows_of u s' ≡ rows_of u s
unfolding reserve_target rows_of
rows_of-reserve_target (batch k) (batch j) q s h = ground (
  arith,
  keys-take (λ (b : EventBatch). b.id) (λ b. b.seats) (λ b. record b { seats = b.seats - q })
      (λ b. refl) (fits (λ (b : EventBatch). b.id) (λ b. b.seats) k q) j s.batches,
)
rows_of-reserve_target (event k) (event j) q s h = ground (
  arith,
  keys-take (λ (e : Event). e.id) (λ e. e.seats) (λ e. record e { seats = e.seats - q }) (λ e. refl)
      (fits (λ (e : Event). e.id) (λ e. e.seats) k q) j s.events,
)
rows_of-reserve_target (product k) (product j) q s h = ground (
  arith,
  keys-take (λ (p : Product). p.id) (λ p. p.stock) (λ p. record p { stock = p.stock - q })
      (λ p. refl) (fits (λ (p : Product). p.id) (λ p. p.stock) k q) j s.products,
)
rows_of-reserve_target _ _ q s h = ground arith

-- What was reserved is on the shelf.
pub reserve_target-row :
    (t : Target) (q : ℕ) (s : Shelves) {s' : Shelves}
    → reserve_target t q s ≡ ok s'
    → rows_of t s ≢ 0
unfolding reserve_target rows_of
reserve_target-row (batch k) q s h e =
    ground (arith, count-fits-le (λ (b : EventBatch). b.id) (λ b. b.seats) k q s.batches)
reserve_target-row (event k) q s h e =
    ground (arith, count-fits-le (λ (e : Event). e.id) (λ e. e.seats) k q s.events)
reserve_target-row (product k) q s h e =
    ground (arith, count-fits-le (λ (p : Product). p.id) (λ p. p.stock) k q s.products)

found_row-ok : (n : ℕ) (s : Shelves) → n ≢ 0 → (s' : Shelves) × (found_row n s ≡ ok s')
found_row-ok n s h = (s, ground arith)

-- A target on the shelf can be restocked, whatever the quantity.
pub restock_target-ok :
    (t : Target) (q : ℕ) (s : Shelves)
    → rows_of t s ≢ 0
    → (s' : Shelves) × (restock_target t q s ≡ ok s')
unfolding restock_target rows_of
restock_target-ok (batch k) q s h = found_row-ok _ _ h
restock_target-ok (event k) q s h = found_row-ok _ _ h
restock_target-ok (product k) q s h = found_row-ok _ _ h

pub available-restock_target :
    (t u : Target) (q : ℕ) (s : Shelves) {s' : Shelves}
    → restock_target t q s ≡ ok s'
    → available u s' ≡ available u s + (if target_eq t u then q else 0)
unfolding restock_target available
available-restock_target (batch k) (batch j) q s h = ground (
  arith,
  left-give (λ (b : EventBatch). b.id) (λ b. b.seats) (λ b. record b { seats = b.seats + q })
      (λ b. refl) k j q s.batches (λ b. refl),
)
available-restock_target (event k) (event j) q s h = ground (
  arith,
  left-give (λ (e : Event). e.id) (λ e. e.seats) (λ e. record e { seats = e.seats + q }) (λ e. refl)
      k j q s.events (λ e. refl),
)
available-restock_target (product k) (product j) q s h = ground (
  arith,
  left-give (λ (p : Product). p.id) (λ p. p.stock) (λ p. record p { stock = p.stock + q })
      (λ p. refl) k j q s.products (λ p. refl),
)
available-restock_target _ _ q s h = ground arith

pub rows_of-restock_target :
    (t u : Target) (q : ℕ) (s : Shelves) {s' : Shelves}
    → restock_target t q s ≡ ok s'
    → rows_of u s' ≡ rows_of u s
unfolding restock_target rows_of
rows_of-restock_target (batch k) (batch j) q s h = ground (
  arith,
  keys-give (λ (b : EventBatch). b.id) (λ b. b.seats) (λ b. record b { seats = b.seats + q })
      (λ b. refl) (λ b. b.id == k) j s.batches,
)
rows_of-restock_target (event k) (event j) q s h = ground (
  arith,
  keys-give (λ (e : Event). e.id) (λ e. e.seats) (λ e. record e { seats = e.seats + q }) (λ e. refl)
      (λ e. e.id == k) j s.events,
)
rows_of-restock_target (product k) (product j) q s h = ground (
  arith,
  keys-give (λ (p : Product). p.id) (λ p. p.stock) (λ p. record p { stock = p.stock + q })
      (λ p. refl) (λ p. p.id == k) j s.products,
)
rows_of-restock_target _ _ q s h = ground arith
