-- ===== src/OrderRoutes.antt =====
-- src/http/api/orders/cancel-order, update-order-status and refund-order: what the people of a store
-- may do to an order. What a route answers is the order, or what it threw.
use udv_shop_api.Prelude.{
  ℕ, Bool, true, false, ◌&&◌, Option, none, some, List, [], ◌∷◌, ◌==◌, ℤ, pos, ◌-ℤ◌, is_none,
  if◌then◌else◌,
}
pub mod Guarded
pub mod Untouched
pub mod Refused
pub mod Strangers
use udv_shop_api.Errors.{Result, ok, err, not_found, conflict, ◌>>=◌}
use udv_shop_api.Schema.{
  Store, Order, Payment, PaymentProvider, PaymentStatus, payment_in, Db, OutboxEvent, OutboxStatus,
  OutboxPayload, stripe_transfer,
}
use udv_shop_api.Table.{find_first, update_many}
use udv_shop_api.Permissions.{
  Claims, Persona, RoleName, store_owner, store_admin, store_staff, admin, staff, RouteConfig,
  permissions_hook, require_store_role, require_writable_store,
}
use udv_shop_api.Orders.{cancel_pending_order, update_order_status, find_payment_by_order_id}
use udv_shop_api.Orders.Refunds.{claim_refund, release_refund_claim}
use udv_shop_api.Orders.Ops.{DeliveryStatus, valid_from, target_status}

-- What a handler writes stays, also when it throws afterwards.
abbrev pub Outcome : Type 0
Outcome = Result ℕ × Db

-- `resolveStoreForRole`
unfoldable pub resolve_store_for_role : Option Claims → ℕ → RoleName → Db → Result Store
resolve_store_for_role user slug min db = elim (find_first (λ s. s.slug == slug) db.stores) [
  | none ↦ err (not_found "store_not_found")
  | some store ↦ (require_store_role user store.id min >>= λ claims. ok store)
]

-- `findByIdForStore`
unfoldable pub find_by_id_for_store : ℕ → ℕ → Db → Option Order
find_by_id_for_store id store_id db =
    find_first (λ o. o.id == id && o.store_id == store_id) db.orders

abbrev pub or_not_found : Option Order → Result Order
or_not_found none = err (not_found "order_not_found")
or_not_found (some o) = ok o

-- The order of a store that was resolved, where the store may be written.
unfoldable pub store_order : Option Claims → ℕ → Db → Store → Result Order
store_order user id db store = require_writable_store user store >>= λ claims.
    or_not_found (find_by_id_for_store id store.id db)

abbrev pub guarded_by : List Persona → RouteConfig
guarded_by personas = record {
  is_public = false;
  optional_auth = false;
  any_of = personas;
  all_of = [];
}

-- The order that a route is about: the hook, the role, the store that may be written, the row.
unfoldable pub managed_order : List Persona → RoleName → Option Claims → ℕ → ℕ → Db → Result Order
managed_order personas min user slug id db =
    permissions_hook (guarded_by personas) user >>= λ allowed.
    (resolve_store_for_role user slug min db >>= store_order user id db)

-- Whether the row was written (the routes read it once more to answer it), as the routes answer it.
abbrev pub written : ℕ → Bool × Db → Outcome
written id (true, db) = (ok id, db)
written id (false, db) = (err (conflict "invalid_status_transition"), db)

abbrev thrown_or_written : ℕ → Db → Result (Bool × Db) → Outcome
thrown_or_written id db (err e) = (err e, db)
thrown_or_written id db (ok r) = written id r

-- `cancelOrder`
unfoldable pub cancel_order : Option Claims → ℕ → ℕ → ℕ → Db → Outcome
cancel_order user slug id now db =
    elim (managed_order (store_owner ∷ store_admin ∷ []) admin user slug id db) [
      | err e ↦ (err e, db)
      | ok o ↦ thrown_or_written id db (cancel_pending_order id PaymentStatus.cancelled now db)
    ]

-- `updateOrderStatus`
unfoldable pub set_delivery_status : Option Claims → ℕ → ℕ → DeliveryStatus → ℕ → Db → Outcome
set_delivery_status user slug id to now db =
    elim (managed_order (store_owner ∷ store_admin ∷ store_staff ∷ []) staff user slug id db) [
      | err e ↦ (err e, db)
      | ok o ↦ written id (update_order_status id (valid_from to) (target_status to) now db)
    ]

-- What the gateways are asked: whether the reversal of a transfer failed is only logged.
pub record RefundGateways : Type 0 where
  pub refund_payment_intent :
      (provider_id : ℕ) (transfer_id : Option ℕ) → ℤ → (payment_id : ℕ) → Result Bool
  pub refund_charge : (payment_id : ℕ) → Result (Unit {0})

abbrev is_stripe : PaymentProvider → Bool
is_stripe PaymentProvider.stripe = true
is_stripe PaymentProvider.woovi = false

-- What can be refunded, before the claim.
unfoldable pub refundable_payment : ℕ → Db → Result Payment
refundable_payment order_id db = elim (find_payment_by_order_id order_id db) [
  | none ↦ err (conflict "payment_not_refundable")
  | some p ↦
      if payment_in (PaymentStatus.succeeded ∷ PaymentStatus.refund_pending ∷ []) p.status
      then (if is_stripe p.provider && is_none p.provider_id
          then err (conflict "payment_not_refundable")
          else ok p)
      else err (conflict "payment_not_refundable")
]

abbrev pub is_pending_event : OutboxEvent → Bool
is_pending_event e = elim e.status [ OutboxStatus.pending ↦ true | _ ↦ false ]

abbrev pub transfers : ℕ → OutboxPayload → Bool
transfers payment_id (stripe_transfer k source) = k == payment_id
transfers payment_id _ = false

-- The transfer that has not left yet is called off.
unfoldable pub stop_transfer : Payment → Db → Db
stop_transfer p db = elim p.stripe_transfer_id [
  | some t ↦ db
  | none ↦ record db {
    outbox =
        update_many (λ e. transfers p.id e.payload && is_pending_event e)
          (λ e. record e { status = OutboxStatus.processed }) db.outbox;
  }
]

abbrev pub net_of : Payment → ℤ
net_of p = pos p.amount_cents -ℤ (elim p.provider_fee_cents [ none ↦ pos 0 | some fee ↦ fee ])

module _ (g : RefundGateways) where
  -- The provider is asked; the claim goes back when it refuses.
  unfoldable pub settle_refund {ℓ} : {A : Type ℓ} → ℕ → Result A → Payment → ℕ → Db → Outcome
  settle_refund id (ok answer) p now db = (ok id, db)
  settle_refund id (err e) p now db = (err e, release_refund_claim p.id now db)

  -- A Stripe payment has an identifier here: without one it was refused before.
  unfoldable pub refund_by_provider : ℕ → Payment → ℕ → Db → Outcome
  unfolding settle_refund
  refund_by_provider id p now db = elim p.provider [
    | PaymentProvider.woovi ↦ settle_refund id (g.refund_charge p.id) p now db
    | PaymentProvider.stripe ↦ elim p.provider_id [
      | none ↦ (err (conflict "payment_not_refundable"), db)
      | some x ↦
          settle_refund id (g.refund_payment_intent x p.stripe_transfer_id (net_of p) p.id) p now
            (stop_transfer p db)
    ]
  ]

  abbrev pub after_claim : ℕ → Payment → ℕ → Bool × Db → Outcome
  after_claim id p now (true, db) = refund_by_provider id p now db
  after_claim id p now (false, db) = (err (conflict "refund_already_requested"), db)

  -- The refund of an order that was found.
  unfoldable pub request_refund : ℕ → ℕ → Db → Outcome
  unfolding refund_by_provider
  request_refund id now db = elim (refundable_payment id db) [
    | err e ↦ (err e, db)
    | ok p ↦ after_claim id p now (claim_refund p.id now db)
  ]

  -- `refundOrder`
  unfoldable pub refund_order : Option Claims → ℕ → ℕ → ℕ → Db → Outcome
  unfolding request_refund
  refund_order user slug id now db =
      elim (managed_order (store_owner ∷ store_admin ∷ []) admin user slug id db) [
        | err e ↦ (err e, db)
        | ok o ↦ request_refund id now db
      ]

-- The routes, with the role that each asks for.
pub data OrderRoute : Type 0 where
  cancelling refunding : OrderRoute
  delivering : DeliveryStatus → OrderRoute

abbrev pub min_role : OrderRoute → RoleName
min_role cancelling = admin
min_role refunding = admin
min_role (delivering to) = staff

unfoldable pub serve :
    RefundGateways → OrderRoute → Option Claims → (slug id now : ℕ) → Db → Outcome
serve g cancelling user slug id now db = cancel_order user slug id now db
serve g refunding user slug id now db = refund_order g user slug id now db
serve g (delivering to) user slug id now db = set_delivery_status user slug id to now db
