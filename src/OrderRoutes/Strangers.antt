-- ===== src/OrderRoutes/Strangers.antt =====
-- An order and its payments under the requests of people who may not act for its store
-- (the routes of src/http/api/orders).
use mathlib.Core.Path.{subst}
use udv_shop_api.Prelude.{
  sym, ◌∙◌, some-injective, ℕ, ◌≤◌, ◌≡◌, refl, ==_iff, true, false, Option, some, List, [], ◌∷◌,
  inl, inr, ◌==◌, Bool-cases, Option-cases,
}
use udv_shop_api.Errors.{AppError, Result, ok, err, Result-cases}
use udv_shop_api.Schema.{Order, Payment, PaymentStatus, PaymentProvider, payment_in, order_in, Db}
use udv_shop_api.Table.Keys.{count_key, count_at, find_key, count_at-eq}
use udv_shop_api.Permissions.{
  Claims, Persona, RoleName, admin, staff, store_owner, store_admin, store_staff,
}
use udv_shop_api.Orders.{cancel_pending_order, update_order_status}
use udv_shop_api.Orders.Refunds.{claim_refund, release_refund_claim, is_claimable}
use udv_shop_api.Orders.Moves.{order_id_of}
use udv_shop_api.Orders.Repeats.{payment_id_of}
use udv_shop_api.OrderRoutes.{
  Outcome, RefundGateways, managed_order, cancel_order, set_delivery_status, refund_order, written,
  request_refund, after_claim, refundable_payment, refund_by_provider, settle_refund, stop_transfer,
  OrderRoute, cancelling, refunding, delivering, min_role, serve,
}
use udv_shop_api.Orders.Ops.{DeliveryStatus, valid_from, target_status}
use udv_shop_api.OrderRoutes.Guarded.{may_act, managed_order-may_act}
use udv_shop_api.OrderRoutes.Untouched.{
  is_of_order, Untouched, Untouched-refl, find_key-other, cancel-Untouched, payments-other,
  Untouched-trans, Untouched-same, stop_transfer-same, refundable_payment-found, not_of_other,
}

module _ (g : RefundGateways) where
  settle-Untouched :
      {A : Type 0} (j id : ℕ) (r : Result A) (p : Payment) (now : ℕ) (db : Db)
      → count_at payment_id_of p.id (is_of_order j) db.payments ≡ 0
      → Untouched j db (settle_refund g id r p now db).1
  unfolding settle_refund release_refund_claim
  settle-Untouched j id (ok a) p now db z = Untouched-refl j db
  settle-Untouched j id (err e) p now db z =
      (payments-other j p.id (λ p. payment_in (PaymentStatus.refund_pending ∷ []) p.status)
        PaymentStatus.succeeded now db (release_refund_claim p.id now db) refl refl z).0

  provider-Untouched :
      (j id : ℕ) (p : Payment) (provider : PaymentProvider) (now : ℕ) (db : Db)
      → p.provider ≡ provider
      → count_at payment_id_of p.id (is_of_order j) db.payments ≡ 0
      → Untouched j db (refund_by_provider g id p now db).1
  unfolding refund_by_provider
  provider-Untouched j id p PaymentProvider.woovi now db e z =
      rw (refund_by_provider, e) (settle-Untouched j id (g.refund_charge p.id) p now db z)
  provider-Untouched j id p PaymentProvider.stripe now db e z = elim (Option-cases p.provider_id) [
    | inl y ↦ rw (refund_by_provider, e, y) (Untouched-refl j db)
    | inr (x, y) ↦
        let (os, ps) = stop_transfer-same p db in
        rw (refund_by_provider, e, y)
          (Untouched-trans j db (stop_transfer p db) _
            (Untouched-same j db (stop_transfer p db) os ps)
            (settle-Untouched j id _ p now (stop_transfer p db)
              (subst (λ rs. count_at payment_id_of p.id (is_of_order j) rs ≡ 0) (sym ps) z)))
  ]

  claimed-Untouched :
      (j k : ℕ) (p : Payment) (now : ℕ) (db : Db)
      → count_at payment_id_of p.id (is_of_order j) db.payments ≡ 0
      → Untouched j db (after_claim g k p now (claim_refund p.id now db)).1
  unfolding claim_refund
  claimed-Untouched j k p now db z =
      let claimed = (claim_refund p.id now db).1 in
      let (same, z') =
        payments-other j p.id (is_claimable now) PaymentStatus.refund_pending now db claimed refl
          refl z in
      elim (Bool-cases (count_at payment_id_of p.id (is_claimable now) db.payments == 1)) [
        | inr lost ↦ rw lost same
        | inl won ↦ rw won (
            Untouched-trans j db claimed _ same
              (provider-Untouched j k p p.provider now claimed refl z'))
      ]

  refund-Untouched :
      (j k now : ℕ) (db : Db)
      → (k == j) ≡ false
      → ((i : ℕ) → count_key payment_id_of i db.payments ≤ 1)
      → Untouched j db (request_refund g k now db).1
  unfolding request_refund
  refund-Untouched j k now db other u = elim (Result-cases (refundable_payment k db)) [
    | inr (e, z) ↦ rw (request_refund, z) (Untouched-refl j db)
    | inl (p, z) ↦
        let (found, t) = refundable_payment-found k db p u z in
        rw (request_refund, z)
          (claimed-Untouched j k p now db (
            count_at-eq payment_id_of p.id (is_of_order j) db.payments p (u p.id) found
            ∙ rw (not_of_other j k p other t) refl))
  ]

  delivered-Untouched :
      (j k : ℕ) (to : DeliveryStatus) (now : ℕ) (db : Db)
      → (k == j) ≡ false
      → Untouched j db
          (written k (update_order_status k (valid_from to) (target_status to) now db)).1
  unfolding update_order_status
  delivered-Untouched j k to now db other =
      let q = λ (o : Order). order_in (valid_from to) o.status in
      let same : Untouched j db
          (update_order_status k (valid_from to) (target_status to) now db).1 =
        record {
          same_order = find_key-other j k q (target_status to) now db.orders other;
          same_payments = refl;
        } in
      elim (Bool-cases (count_at order_id_of k q db.orders == 1)) [
        | inl z ↦ rw z same
        | inr z ↦ rw z same
      ]

  -- Each route leaves another order than the one that it was asked for alone.
  serve-other :
      (j : ℕ) (route : OrderRoute) (user : Option Claims) (slug id now : ℕ) (db : Db)
      → (id == j) ≡ false
      → ((i : ℕ) → count_key payment_id_of i db.payments ≤ 1)
      → Untouched j db (serve g route user slug id now db).1
  unfolding serve cancel_order set_delivery_status refund_order
  serve-other j cancelling user slug id now db other u =
      elim (Result-cases (managed_order (store_owner ∷ store_admin ∷ []) admin user slug id db)) [
        | inr (e, z) ↦ rw (cancel_order, z) (Untouched-refl j db)
        | inl (o, z) ↦
            elim (Result-cases (cancel_pending_order id PaymentStatus.cancelled now db)) [
              | inr (e, y) ↦ rw (cancel_order, z, y) (Untouched-refl j db)
              | inl ((true, db'), y) ↦
                  rw (cancel_order, z, y)
                    (cancel-Untouched j id now PaymentStatus.cancelled db true db' other y)
              | inl ((false, db'), y) ↦
                  rw (cancel_order, z, y)
                    (cancel-Untouched j id now PaymentStatus.cancelled db false db' other y)
            ]
      ]
  serve-other j refunding user slug id now db other u =
      elim (Result-cases (managed_order (store_owner ∷ store_admin ∷ []) admin user slug id db)) [
        | inr (e, z) ↦ rw (refund_order, z) (Untouched-refl j db)
        | inl (o, z) ↦ rw (refund_order, z) (refund-Untouched j id now db other u)
      ]
  serve-other j (delivering to) user slug id now db other u =
      elim (Result-cases
        (managed_order (store_owner ∷ store_admin ∷ store_staff ∷ []) staff user slug id db)) [
          | inr (e, z) ↦ rw (set_delivery_status, z) (Untouched-refl j db)
          | inl (o, z) ↦ rw (set_delivery_status, z) (delivered-Untouched j id to now db other)
        ]

  may_act-denied :
      (personas : List Persona) (min : RoleName) (user : Option Claims) (slug j : ℕ) (db : Db)
      (o : Order)
      → ((k : ℕ) → count_key order_id_of k db.orders ≤ 1)
      → find_key order_id_of j db.orders ≡ some o
      → may_act user o.store_id min ≡ false
      → (e : AppError) × (managed_order personas min user slug j db ≡ err e)
  may_act-denied personas min user slug j db o u found h =
      elim (Result-cases (managed_order personas min user slug j db)) [
        | inr (e, z) ↦ (e, z)
        | inl (o', z) ↦
            let (found', t) = managed_order-may_act personas min user slug j db o' u z in
            let same : o' ≡ o = some-injective (sym found' ∙ found) in
            absurd (cc (subst (λ (x : Order). may_act user x.store_id min ≡ true) same t))
      ]

  serve-denied :
      (j : ℕ) (route : OrderRoute) (user : Option Claims) (slug now : ℕ) (db : Db) (o : Order)
      → ((k : ℕ) → count_key order_id_of k db.orders ≤ 1)
      → find_key order_id_of j db.orders ≡ some o
      → may_act user o.store_id (min_role route) ≡ false
      → (e : AppError) × (serve g route user slug j now db ≡ (err e, db))
  unfolding serve cancel_order set_delivery_status refund_order
  serve-denied j cancelling user slug now db o u found h =
      let (e, z) =
        may_act-denied (store_owner ∷ store_admin ∷ []) admin user slug j db o u found h in
      (e, rw (cancel_order, z) refl)
  serve-denied j refunding user slug now db o u found h =
      let (e, z) =
        may_act-denied (store_owner ∷ store_admin ∷ []) admin user slug j db o u found h in
      (e, rw (refund_order, z) refl)
  serve-denied j (delivering to) user slug now db o u found h =
      let (e, z) =
        may_act-denied (store_owner ∷ store_admin ∷ store_staff ∷ []) staff user slug j db o u found
          h in
      (e, rw (set_delivery_status, z) refl)

  -- A caller who may not act for the store of an order (no administrator of the platform, and with no
  -- role there that the route accepts) changes neither the order nor its payments, whatever the route,
  -- the store and the order that it names; and a request for that order itself is refused and writes
  -- nothing. Identifiers of orders and payments are unique.
  pub serve-stranger :
      (j : ℕ) (route : OrderRoute) (user : Option Claims) (slug id now : ℕ) (db : Db) (o : Order)
      → ((k : ℕ) → count_key order_id_of k db.orders ≤ 1)
      → ((i : ℕ) → count_key payment_id_of i db.payments ≤ 1)
      → find_key order_id_of j db.orders ≡ some o
      → may_act user o.store_id (min_role route) ≡ false
      → Untouched j db (serve g route user slug id now db).1
        × ((e : AppError) × (serve g route user slug j now db ≡ (err e, db)))
  serve-stranger j route user slug id now db o u v found h = (
    elim (Bool-cases (id == j)) [
      | inr other ↦ serve-other j route user slug id now db other v
      | inl same ↦
          let (e, z) = serve-denied j route user slug now db o u found h in
          subst (λ i. Untouched j db (serve g route user slug i now db).1)
            (sym ((==_iff id j).0 same))
            (subst (λ (m : Outcome). Untouched j db m.1) (sym z) (Untouched-refl j db))
    ],
    serve-denied j route user slug now db o u found h,
  )
