-- ===== src/OrderRoutes/Untouched.antt =====
-- Writes to another order and to its payments (orders.repository.ts).
use mathlib.Core.Path.{subst}
use udv_shop_api.Prelude.{
  ◌∙◌, ℕ, ◌≤◌, ◌≡◌, refl, Bool, true, false, ◌&&◌, some, List, [], ◌∷◌, inl, inr, arith, ◌==◌,
  is_some_of, Option-cases,
}
use udv_shop_api.Errors.{ok}
use udv_shop_api.Schema.{Order, Payment, PaymentStatus, OrderStatus, payment_in, Db}
use udv_shop_api.Table.{find_first, find_many, update_many}
use udv_shop_api.Table.Laws.{find_first_sound, sum_of-update_many}
use udv_shop_api.Table.Keys.{update_key, count_key, count_at, find_key, find_key-update_key}
use udv_shop_api.Table.Selected.{find_key-found, find_many-update_key}
use udv_shop_api.Orders.{
  cancel_pending_order, release_order, close_payments, is_pending_order, set_order_status,
  set_payment_status, find_payment_by_order_id,
}
use udv_shop_api.Orders.Moves.{order_id_of}
use udv_shop_api.Orders.Repeats.{payment_id_of}
use udv_shop_api.OrderRoutes.{refundable_payment, stop_transfer}

abbrev pub is_of_order : ℕ → Payment → Bool
is_of_order j p = is_some_of j p.order_id

-- Two databases with the same order `j` and the same payments of it.
pub record Untouched (j : ℕ) (db db' : Db) : Type 0 where
  pub same_order : find_key order_id_of j db'.orders ≡ find_key order_id_of j db.orders
  pub same_payments : find_many (is_of_order j) db'.payments ≡ find_many (is_of_order j) db.payments

pub Untouched-refl : (j : ℕ) (db : Db) → Untouched j db db
Untouched-refl j db = record { same_order = refl; same_payments = refl }

-- An update of another order.
pub find_key-other :
    (j k : ℕ) (q : Order → Bool) (to : OrderStatus) (now : ℕ) (os : List Order)
    → (k == j) ≡ false
    → find_key order_id_of j (update_key order_id_of k q (set_order_status to now) os)
      ≡ find_key order_id_of j os
find_key-other j k q to now os h =
    find_key-update_key order_id_of k j q (set_order_status to now) os (λ r. refl)
    ∙ elim (Option-cases (find_key order_id_of j os)) [
      | inl z ↦ rw z refl
      | inr (r, z) ↦ rw z (ground (arith, find_first_sound (λ r. r.id == j) os r z))
    ]

find_many-closed :
    (j k now : ℕ) (to : PaymentStatus) (ps : List Payment)
    → (k == j) ≡ false
    → find_many (is_of_order j) (
        update_many
          (λ p. is_some_of k p.order_id && payment_in (PaymentStatus.pending ∷ []) p.status)
          (set_payment_status to now)
          ps)
      ≡ find_many (is_of_order j) ps
unfolding find_many update_many
find_many-closed j k now to [] h = refl
find_many-closed j k now to (p ∷ ps) h = elim (Option-cases p.order_id) [
  | inl z ↦ ground (arith, find_many-closed j k now to ps h)
  | inr (o, z) ↦ ground (arith, find_many-closed j k now to ps h)
]

pub cancel-Untouched :
    (j k now : ℕ) (to : PaymentStatus) (db : Db) (r : Bool) (db' : Db)
    → (k == j) ≡ false
    → cancel_pending_order k to now db ≡ ok (r, db')
    → Untouched j db db'
unfolding cancel_pending_order release_order close_payments
cancel-Untouched j k now to db r db' other h = ground (
  arith,
  find_key-other j k is_pending_order OrderStatus.cancelled now db.orders other,
  find_many-closed j k now to db.payments other,
)

-- An update of a payment that is not of the order `j`.
pub payments-other :
    (j k : ℕ) (t : Payment → Bool) (to : PaymentStatus) (now : ℕ) (db db' : Db)
    → db'.orders ≡ db.orders
    → db'.payments ≡ update_key payment_id_of k t (set_payment_status to now) db.payments
    → count_at payment_id_of k (is_of_order j) db.payments ≡ 0
    → Untouched j db db' × (count_at payment_id_of k (is_of_order j) db'.payments ≡ 0)
payments-other j k t to now db db' os ps z = (
  record {
    same_order = rw os refl;
    same_payments = rw ps (
        find_many-update_key payment_id_of k (is_of_order j) t (set_payment_status to now)
          db.payments (λ r. refl) z);
  },
  rw ps (sum_of-update_many _ _ _ db.payments (λ r e. refl) ∙ z),
)

pub Untouched-trans : (j : ℕ) (a b c : Db) → Untouched j a b → Untouched j b c → Untouched j a c
Untouched-trans j a b c m n = record {
  same_order = n.same_order ∙ m.same_order;
  same_payments = n.same_payments ∙ m.same_payments;
}

-- Two databases that differ elsewhere.
pub Untouched-same :
    (j : ℕ) (db db' : Db) → db'.orders ≡ db.orders → db'.payments ≡ db.payments → Untouched j db db'
Untouched-same j db db' os ps = record { same_order = rw os refl; same_payments = rw ps refl }

pub stop_transfer-same :
    (p : Payment) (db : Db)
    → ((stop_transfer p db).orders ≡ db.orders) × ((stop_transfer p db).payments ≡ db.payments)
unfolding stop_transfer
stop_transfer-same p db = elim (Option-cases p.stripe_transfer_id) [
  | inl z ↦ ground arith
  | inr (x, z) ↦ ground arith
]

-- A payment that can be refunded is of the order, and its identifier finds it.
pub refundable_payment-found :
    (k : ℕ) (db : Db) (p : Payment)
    → ((i : ℕ) → count_key payment_id_of i db.payments ≤ 1)
    → refundable_payment k db ≡ ok p
    → (find_key payment_id_of p.id db.payments ≡ some p) × (is_of_order k p ≡ true)
unfolding refundable_payment find_payment_by_order_id
refundable_payment-found k db p u h =
    elim (Option-cases (find_first (λ p. is_some_of k p.order_id) db.payments)) [
      | inl z ↦ ground arith
      | inr (q, z) ↦
          let same : q ≡ p = ground arith in
          subst
            (λ (x : Payment).
              (find_key payment_id_of x.id db.payments ≡ some x) × (is_of_order k x ≡ true))
            same
            (
              find_key-found payment_id_of (λ p. is_some_of k p.order_id) db.payments q u z,
              find_first_sound (λ p. is_some_of k p.order_id) db.payments q z,
            )
    ]

pub not_of_other :
    (j k : ℕ) (p : Payment) → (k == j) ≡ false → is_of_order k p ≡ true → is_of_order j p ≡ false
not_of_other j k p h t = elim (Option-cases p.order_id) [
  | inl z ↦ ground arith
  | inr (o, z) ↦ ground arith
]
