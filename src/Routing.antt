-- ===== src/Routing.antt =====
-- src/workers/payment-routing.ts: a payment belongs to an order or to a donation, and each
-- provider event goes to the aggregate that the payment has.
use udv_shop_api.Prelude.{
  ℕ, ℤ, Bool, true, false, not, ◌&&◌, Option, none, some, List, [], ◌∷◌, ◌==◌, if◌then◌else◌,
  is_none, is_some_of, any,
}
pub mod Settles
use udv_shop_api.Errors.{Effects, done, commit}
use udv_shop_api.Schema.{
  PaymentStatus, Payment, Order, Donation, Store, Db, enqueue, stripe_transfer, woovi_withdraw,
  charge_id, invoice_id,
}
use udv_shop_api.Table.{update_many, find_first, find_many}
use udv_shop_api.Table.Keys.{find_key}
use udv_shop_api.Orders.{mark_paid, cancel_pending_order}
use udv_shop_api.Orders.Refunds.{refund}
use udv_shop_api.Donations.{mark_donation_paid, cancel_pending_donation, refund_donation}
use udv_shop_api.Payouts.{is_given}

-- What a payment is of.
pub data AggregateKind : Type 0 where
  order_kind donation_kind : AggregateKind

abbrev pub kind_of : Option ℕ → Option ℕ → Option AggregateKind
kind_of (some o) d = some order_kind
kind_of none (some d) = some donation_kind
kind_of none none = none

abbrev pub find_payment : ℕ → Db → Option Payment
find_payment payment_id db = find_key (λ (p : Payment). p.id) payment_id db.payments

-- `aggregateOf`
unfoldable pub aggregate_of : ℕ → Db → Option AggregateKind
aggregate_of payment_id db = elim (find_payment payment_id db) [
  | none ↦ none
  | some p ↦ kind_of p.order_id p.donation_id
]

unfoldable pub mark_kind_paid : Option AggregateKind → ℕ → Option ℕ → ℕ → Db → Effects Db
mark_kind_paid none payment_id provider_id now db = done db
mark_kind_paid (some order_kind) payment_id provider_id now db =
    commit db (mark_paid payment_id provider_id now db)
mark_kind_paid (some donation_kind) payment_id provider_id now db =
    commit db (mark_donation_paid payment_id provider_id now db)

-- `markPaymentPaid`
unfoldable pub mark_payment_paid : ℕ → Option ℕ → ℕ → Db → Effects Db
mark_payment_paid payment_id provider_id now db =
    mark_kind_paid (aggregate_of payment_id db) payment_id provider_id now db

unfoldable pub cancel_of : Option ℕ → Option ℕ → PaymentStatus → ℕ → Db → Effects Db
cancel_of (some o) d reason now db = commit db (cancel_pending_order o reason now db)
cancel_of none (some d) reason now db = done (cancel_pending_donation d reason now db).1
cancel_of none none reason now db = done db

-- `cancelPaymentAggregate`
unfoldable pub cancel_payment_aggregate : ℕ → PaymentStatus → ℕ → Db → Effects Db
cancel_payment_aggregate payment_id reason now db = elim (find_payment payment_id db) [
  | none ↦ done db
  | some p ↦ cancel_of p.order_id p.donation_id reason now db
]

unfoldable pub refund_kind : Option AggregateKind → ℕ → ℕ → Db → Effects Db
refund_kind none payment_id now db = done db
refund_kind (some order_kind) payment_id now db = commit db (refund payment_id now db)
refund_kind (some donation_kind) payment_id now db = commit db (refund_donation payment_id now db)

-- `refundPaymentByPaymentId`
unfoldable pub refund_payment_by_payment_id : ℕ → ℕ → Db → Effects Db
refund_payment_by_payment_id payment_id now db =
    refund_kind (aggregate_of payment_id db) payment_id now db

abbrev has_provider_id : List ℕ → Payment → Bool
has_provider_id ids p = any (λ id. is_some_of id p.provider_id) ids

-- `refundPaymentByProviderId`: empty identifiers, 0 here, are left out.
unfoldable pub refund_payment_by_provider_id : List ℕ → ℕ → Db → Effects Db
refund_payment_by_provider_id provider_ids now db =
    elim (find_first (has_provider_id (find_many (λ id. not (id == 0)) provider_ids)) db.payments) [
      | none ↦ done db
      | some p ↦ refund_payment_by_payment_id p.id now db
    ]

-- `recordProviderFee`
unfoldable pub record_provider_fee : ℕ → ℤ → ℕ → Db → Db
record_provider_fee payment_id fee_cents now db = record db {
  payments =
      update_many (λ p. p.id == payment_id)
        (λ p. record p { provider_fee_cents = some fee_cents; updated_at = now }) db.payments;
}

-- `enqueueStripeTransfer`
unfoldable pub enqueue_stripe_transfer : ℕ → ℕ → Db → Db
enqueue_stripe_transfer payment_id charge db =
    enqueue (stripe_transfer payment_id (charge_id charge)) db

-- `enqueueStripeTransferForInvoice`
unfoldable pub enqueue_stripe_transfer_for_invoice : ℕ → Db → Db
enqueue_stripe_transfer_for_invoice invoice db =
    elim (find_first (λ p. is_some_of invoice p.provider_id) db.payments) [
      | none ↦ db
      | some p ↦ enqueue (stripe_transfer p.id (invoice_id invoice)) db
    ]

abbrev store_id_of : Option Order → Option Donation → Option ℕ
store_id_of (some o) d = some o.store_id
store_id_of none (some d) = some d.store_id
store_id_of none none = none

abbrev by_id {ℓ} : {A : Type ℓ} → (A → ℕ) → Option ℕ → List A → Option A
by_id key none rows = none
by_id key (some k) rows = find_key key k rows

-- The store that sold what a payment is of.
unfoldable pub store_of_payment : ℕ → Db → Option Store
store_of_payment payment_id db = elim (find_payment payment_id db) [
  | none ↦ none
  | some p ↦
      by_id (λ s. s.id)
        (store_id_of (by_id (λ o. o.id) p.order_id db.orders)
          (by_id (λ d. d.id) p.donation_id db.donations))
        db.stores
]

abbrev withdraw_of : Option Store → ℕ → Db → Db
withdraw_of none payment_id db = db
withdraw_of (some s) payment_id db = elim s.woovi_pix_key [
  | none ↦ db
  | some key ↦ if is_given (some key) then enqueue (woovi_withdraw s.id key payment_id) db else db
]

-- `enqueueWooviWithdraw`
unfoldable pub enqueue_woovi_withdraw : ℕ → Db → Db
unfolding store_of_payment
enqueue_woovi_withdraw payment_id db = withdraw_of (store_of_payment payment_id db) payment_id db
