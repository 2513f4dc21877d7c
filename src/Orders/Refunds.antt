-- ===== src/Orders/Refunds.antt =====
-- src/http/api/orders/orders.repository.ts: refunds, and the claim that a worker takes on one.
use udv_shop_api.Prelude.{
  ℕ, ◌+◌, Bool, true, false, ◌&&◌, ◌||◌, Option, none, some, [], ◌∷◌, ltb, ◌==◌, if◌then◌else◌,
  is_some_of,
}
use udv_shop_api.Errors.{Result, ok, err, failure}
use udv_shop_api.Schema.{OrderStatus, PaymentStatus, order_in, payment_in, Order, Payment, Db}
use udv_shop_api.Table.{find_first}
use udv_shop_api.Table.Keys.{update_key, count_at, find_key}
use udv_shop_api.Orders.{set_order_status, set_payment_status, stale_refund_claim_ms}

abbrev pub is_refundable : Payment → Bool
is_refundable p = payment_in (PaymentStatus.succeeded ∷ PaymentStatus.refund_pending ∷ []) p.status

abbrev pub is_sold : Order → Bool
is_sold o =
    order_in (OrderStatus.paid ∷ OrderStatus.delivery_arranged ∷ OrderStatus.delivered ∷ [])
      o.status

unfoldable pub refund_order_of : Option Payment → ℕ → Db → Result (Bool × Db)
refund_order_of none now db = err (failure "record_not_found")
refund_order_of (some p) now db = elim p.order_id [
  | none ↦ ok (true, db)
  | some o ↦ ok (
    true,
    record db {
      orders =
          update_key (λ (o : Order). o.id) o is_sold (set_order_status OrderStatus.refunded now)
            db.orders;
    },
  )
]

-- `refund`, which is `markRefundedByPaymentId`.
unfoldable pub refund : ℕ → ℕ → Db → Result (Bool × Db)
unfolding refund_order_of
refund payment_id now db =
    let refunded = record db {
      payments =
          update_key (λ (p : Payment). p.id) payment_id is_refundable
            (set_payment_status PaymentStatus.refunded now) db.payments;
    } in
    if count_at (λ (p : Payment). p.id) payment_id is_refundable db.payments == 1
    then refund_order_of (find_key (λ (p : Payment). p.id) payment_id refunded.payments) now
        refunded
    else ok (false, refunded)

-- `markRefundedByProviderId`
unfoldable pub refund_by_provider_id : ℕ → ℕ → Db → Result (Bool × Db)
refund_by_provider_id provider_id now db =
    elim (find_first (λ p. is_some_of provider_id p.provider_id) db.payments) [
      | none ↦ ok (false, db)
      | some p ↦ refund p.id now db
    ]

-- A claim that the provider never confirmed may be taken again after a while.
abbrev pub is_claimable : ℕ → Payment → Bool
is_claimable now p =
    payment_in (PaymentStatus.succeeded ∷ []) p.status
    || payment_in (PaymentStatus.refund_pending ∷ []) p.status
      && ltb (p.updated_at + stale_refund_claim_ms) now

unfoldable pub claim_refund : ℕ → ℕ → Db → Bool × Db
claim_refund payment_id now db = (
  count_at (λ (p : Payment). p.id) payment_id (is_claimable now) db.payments == 1,
  record db {
    payments =
        update_key (λ (p : Payment). p.id) payment_id (is_claimable now)
          (set_payment_status PaymentStatus.refund_pending now) db.payments;
  },
)

unfoldable pub release_refund_claim : ℕ → ℕ → Db → Db
release_refund_claim payment_id now db = record db {
  payments =
      update_key (λ (p : Payment). p.id) payment_id
        (λ p. payment_in (PaymentStatus.refund_pending ∷ []) p.status)
        (set_payment_status PaymentStatus.succeeded now) db.payments;
}
