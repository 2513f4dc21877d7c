-- ===== src/OrderRoutes/Refused.antt =====
-- A refund that the provider refuses (refund-order.controller.ts).
use udv_shop_api.Prelude.{◌∙◌, ◌≤◌, ℕ, ◌≡◌, refl, true, some, [], ◌∷◌, arith, ==_refl}
use udv_shop_api.Errors.{AppError, ok, err}
use udv_shop_api.Schema.{Payment, PaymentStatus, PaymentProvider, payment_in, Db}
use udv_shop_api.Table.Keys.{find_key, find_key-update_key, count_key, count_at-eq}
use udv_shop_api.Table.Laws.{sum_of-update_many}
use udv_shop_api.Orders.{set_payment_status}
use udv_shop_api.Orders.Refunds.{claim_refund, release_refund_claim, is_claimable}
use udv_shop_api.Orders.Repeats.{payment_id_of}
use udv_shop_api.OrderRoutes.{
  RefundGateways, request_refund, refundable_payment, refund_by_provider, settle_refund,
  stop_transfer, net_of,
}
use udv_shop_api.OrderRoutes.Untouched.{stop_transfer-same, refundable_payment-found}

module _ (g : RefundGateways) where
  -- The provider of a payment answers with an error.
  abbrev pub Refuses : PaymentProvider → Payment → AppError → Type 0
  Refuses PaymentProvider.woovi p e = g.refund_charge p.id ≡ err e
  Refuses PaymentProvider.stripe p e =
      (x : ℕ) × (p.provider_id ≡ some x)
      × (g.refund_payment_intent x p.stripe_transfer_id (net_of p) p.id ≡ err e)

  abbrev reopened : ℕ → Payment → Payment
  reopened now p = set_payment_status PaymentStatus.succeeded now p

  -- What releasing a claim makes of the row that was claimed.
  released-found :
      (now : ℕ) (p : Payment) (db db1 : Db)
      → find_key payment_id_of p.id db.payments ≡ some p
      → is_claimable now p ≡ true
      → db1.payments ≡ (claim_refund p.id now db).1.payments
      → find_key payment_id_of p.id (release_refund_claim p.id now db1).payments
        ≡ some (reopened now p)
  unfolding claim_refund release_refund_claim
  released-found now p db db1 found t e =
      let q = λ (r : Payment). payment_in (PaymentStatus.refund_pending ∷ []) r.status in
      find_key-update_key payment_id_of p.id p.id q (set_payment_status PaymentStatus.succeeded now)
        db1.payments (λ r. refl)
      ∙ rw
          (
            e,
            find_key-update_key payment_id_of p.id p.id (is_claimable now)
                (set_payment_status PaymentStatus.refund_pending now) db.payments (λ r. refl),
            found,
          )
          (ground (arith, ==_refl p.id))

  released_unique :
      (k now : ℕ) (db db1 : Db)
      → db1.payments ≡ (claim_refund k now db).1.payments
      → count_key payment_id_of k db.payments ≤ 1
      → count_key payment_id_of k (release_refund_claim k now db1).payments ≤ 1
  unfolding claim_refund release_refund_claim
  released_unique k now db db1 e u =
      let first : count_key payment_id_of k db1.payments ≡ count_key payment_id_of k db.payments =
        rw e (sum_of-update_many _ _ _ db.payments (λ r h. refl)) in
      let second : count_key payment_id_of k (release_refund_claim k now db1).payments
          ≡ count_key payment_id_of k db1.payments =
        sum_of-update_many _ _ _ db1.payments (λ r h. refl) in
      omega (arith, first, second)

  refused-provider :
      (id : ℕ) (p : Payment) (provider : PaymentProvider) (e : AppError) (now : ℕ) (db : Db)
      → p.provider ≡ provider
      → Refuses provider p e
      → (db1 : Db) × (refund_by_provider g id p now db ≡ (err e, release_refund_claim p.id now db1))
        × (db1.payments ≡ db.payments)
        × (db1.orders ≡ db.orders)
  unfolding refund_by_provider settle_refund stop_transfer
  refused-provider id p PaymentProvider.woovi e now db k r =
      (db, rw (refund_by_provider, k, r) refl, refl, refl)
  refused-provider id p PaymentProvider.stripe e now db k (x, y, r) =
      let (os, ps) = stop_transfer-same p db in
      (stop_transfer p db, rw (refund_by_provider, k, y, r) refl, ps, os)

  -- A refund of a payment that can be refunded and claimed, that the provider refuses: the request
  -- ends with the provider's error, the payment is `succeeded` again, and the orders are as before.
  -- So the claim is not left behind, and a later request may win it at once. Identifiers of payments
  -- are unique.
  pub request_refund-refused :
      (id now : ℕ) (db : Db) (p : Payment) (e : AppError)
      → ((i : ℕ) → count_key payment_id_of i db.payments ≤ 1)
      → refundable_payment id db ≡ ok p
      → is_claimable now p ≡ true
      → Refuses p.provider p e
      → (db' : Db) × (request_refund g id now db ≡ (err e, db'))
        × (find_key payment_id_of p.id db'.payments
            ≡ some (set_payment_status PaymentStatus.succeeded now p))
        × (db'.orders ≡ db.orders)
        × ((later : ℕ) → (claim_refund p.id later db').0 ≡ true)
  unfolding request_refund claim_refund release_refund_claim refused-provider
  request_refund-refused id now db p e u z t r =
      let (found, own) = refundable_payment-found id db p u z in
      let claimed = (claim_refund p.id now db).1 in
      let (db1, refused, ps, os) = refused-provider id p p.provider e now claimed refl r in
      let back = released-found now p db db1 found t ps in
      (
        release_refund_claim p.id now db1,
        rw
            (
              request_refund,
              z,
              claim_refund,
              count_at-eq payment_id_of p.id (is_claimable now) db.payments p (u p.id) found,
              t,
            )
            refused,
        back,
        os,
        λ later.
            rw
              (count_at-eq payment_id_of p.id (is_claimable later)
                (release_refund_claim p.id now db1).payments
                (set_payment_status PaymentStatus.succeeded now p)
                (released_unique p.id now db db1 ps (u p.id)) back)
              refl,
      )
