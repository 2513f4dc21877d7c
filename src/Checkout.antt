-- ===== src/Checkout.antt =====
-- src/http/api/orders/checkout/checkout.service.ts: from a cart to a pending order and its charge.
-- The name that an item gets of a batch is a parameter, `batch_label`.
use udv_shop_api.Prelude.{
  ℕ, suc, ◌+◌, ◌*◌, ◌/◌, ℤ, pos, ◌-ℤ◌, Bool, true, false, not, ◌&&◌, ◌||◌, Option, none, some, List,
  [], ◌∷◌, ◌==◌, if◌then◌else◌, is_none, sum_of, any,
}
pub mod Refines
use udv_shop_api.Errors.{
  AppError, Result, ok, err, not_found, validation, bad_gateway, ◌>>=◌, transaction,
}
use udv_shop_api.Schema.{
  Product, Event, EventBatch, Order, Store, StoreStatus, PaymentProvider, ProductAvailability, Db,
}
use udv_shop_api.Table.{find_first}
use udv_shop_api.Offers.{ActiveOffer, active_offer, event_finished, batches_of}
use udv_shop_api.Payouts.{item_payout_cents, assert_provider_configured, woovi_retained_fee_cents}
use udv_shop_api.Orders.{
  NewOrder, NewOrderItem, create_pending_order, attach_provider_id, attach_pix_charge,
  compensate_failed_checkout,
}
use udv_shop_api.Donations.Renewals.{application_fee}

-- RESERVATION_TTL_MINUTES
abbrev pub reservation_ttl_minutes : ℕ
reservation_ttl_minutes = 30

-- A line of the cart: of an event, or else of a product.
pub data CartTarget : Type 0 where
  event_slug product_slug : ℕ → CartTarget

pub record CartItem : Type 0 where
  pub target : CartTarget
  pub qty : ℕ

pub record Cart : Type 0 where
  pub store_slug : ℕ
  pub user_id : ℕ
  pub provider : PaymentProvider
  pub items : List CartItem
  pub contact_phone : ℕ
  pub note : Option ℕ
  pub public_token : Option ℕ

abbrev same_target : CartTarget → CartTarget → Bool
same_target (event_slug a) (event_slug b) = a == b
same_target (product_slug a) (product_slug b) = a == b
same_target _ _ = false

-- `new Set(keys).size !== keys.length`
unfoldable pub has_duplicates : List CartItem → Bool
has_duplicates [] = false
has_duplicates (i ∷ is) = any (λ j. same_target j.target i.target) is || has_duplicates is

-- What the gateways answer: the identifier of an intent, or a Pix charge.
pub record PixCharge : Type 0 where
  pub provider_id : ℕ
  pub br_code : ℕ
  pub qr_code_url : ℕ

pub record PaymentGateways : Type 0 where
  pub create_payment_intent : (amount_cents payment_id : ℕ) → Result ℕ
  pub create_charge : (amount_cents payment_id : ℕ) → (split_cents : ℤ) → Result PixCharge

module _ (batch_label : ℕ → ℕ → ℕ) (woovi_fee_fixed_cents : ℕ) (g : PaymentGateways) where
  abbrev batch_id : Option EventBatch → Option ℕ
  batch_id none = none
  batch_id (some b) = some b.id

  abbrev event_name : Event → Option EventBatch → ℕ
  event_name e none = e.name
  event_name e (some b) = batch_label e.name b.name

  -- A line of an event, at the price of the offer.
  abbrev offer_item : Event → ActiveOffer → ℕ → NewOrderItem
  offer_item e offer qty = record {
    product_id = none;
    event_id = some e.id;
    event_batch_id = batch_id offer.batch;
    name = event_name e offer.batch;
    price_cents = offer.price_cents;
    qty = qty;
    supplier_id = e.supplier_id;
    payout_cents =
        item_payout_cents
          (record {
            price_cents = offer.price_cents;
            payout_kind = e.payout_kind;
            payout_value = e.payout_value;
          })
          qty;
  }

  abbrev is_empty {ℓ} : {A : Type ℓ} → List A → Bool
  is_empty [] = true
  is_empty (_ ∷ _) = false

  unfoldable pub event_item : ℕ → Event → List EventBatch → ℕ → Result NewOrderItem
  event_item now e batches qty =
      let offer = active_offer now e batches in
      if event_finished now e
      then err (validation "event_finished")
      else (if not (is_empty batches) && is_none offer.batch
          then err (validation "event_batch_unavailable")
          else ok (offer_item e offer qty))

  abbrev is_in_stock : ProductAvailability → Bool
  is_in_stock ProductAvailability.in_stock = true
  is_in_stock ProductAvailability.on_demand = false

  unfoldable pub product_item : Product → ℕ → Result NewOrderItem
  product_item p qty =
      if is_in_stock p.availability
      then ok (record {
        product_id = some p.id;
        event_id = none;
        event_batch_id = none;
        name = p.name;
        price_cents = p.price_cents;
        qty = qty;
        supplier_id = p.supplier_id;
        payout_cents =
            item_payout_cents
              (record {
                price_cents = p.price_cents;
                payout_kind = p.payout_kind;
                payout_value = p.payout_value;
              })
              qty;
      })
      else err (validation "product_not_orderable")

  -- A line of the cart as a line of the order, from what the store sells now.
  unfoldable pub order_item : ℕ → Store → Db → CartItem → Result NewOrderItem
  order_item now store db i = elim i.target [
    | event_slug slug ↦
        elim (find_first (λ e. e.store_id == store.id && (e.slug == slug && e.active))
          db.shelves.events) [
            | none ↦ err (not_found "event_not_found")
            | some e ↦ event_item now e (batches_of e db.shelves) i.qty
          ]
    | product_slug slug ↦
        elim (find_first (λ p. p.store_id == store.id && (p.slug == slug && p.active))
          db.shelves.products) [
            | none ↦ err (not_found "product_not_found")
            | some p ↦ product_item p i.qty
          ]
  ]

  unfoldable pub order_items : ℕ → Store → Db → List CartItem → Result (List NewOrderItem)
  unfolding order_item
  order_items now store db [] = ok []
  order_items now store db (i ∷ is) = do
    item ← order_item now store db i
    items ← order_items now store db is
    ok (item ∷ items)

  abbrev pub total_of : List NewOrderItem → ℕ
  total_of items = sum_of (λ i. i.price_cents * i.qty) items

  abbrev provider_fee : PaymentProvider → ℕ → ℤ
  provider_fee PaymentProvider.stripe total = pos 0
  provider_fee PaymentProvider.woovi total = woovi_retained_fee_cents total woovi_fee_fixed_cents

  -- The order that is asked for.
  unfoldable pub order_input : ℕ → Store → Cart → List NewOrderItem → NewOrder
  order_input now store cart items = record {
    store_id = store.id;
    user_id = cart.user_id;
    provider = cart.provider;
    items = items;
    total_cents = total_of items;
    application_fee_cents = application_fee (total_of items) store.application_fee_bps;
    provider_fee_cents = provider_fee cart.provider (total_of items);
    contact_phone = cart.contact_phone;
    note = cart.note;
    public_token = cart.public_token;
    expires_at = now + reservation_ttl_minutes * 60 * 1000;
  }

  abbrev is_active_store : Store → Bool
  is_active_store s = elim s.status [ StoreStatus.active ↦ true | _ ↦ false ]

  -- Everything that is refused before something is written.
  unfoldable pub prepare_order : ℕ → Cart → Db → Result NewOrder
  unfolding order_items order_input has_duplicates
  prepare_order now cart db = elim (find_first (λ s. s.slug == cart.store_slug) db.stores) [
    | none ↦ err (not_found "store_not_found")
    | some store ↦
        if is_active_store store
        then (assert_provider_configured store cart.provider >>= λ u.
            (if has_duplicates cart.items
              then err (validation "duplicate_items")
              else (order_items now store db cart.items >>= λ items.
                  ok (order_input now store cart items))))
        else err (not_found "store_not_found")
  ]

  -- The split of a Pix charge.
  abbrev pub split_of : NewOrder → ℤ
  split_of o = pos o.total_cents -ℤ pos o.application_fee_cents -ℤ o.provider_fee_cents

  -- A write of the charge that threw: what was written before it stays.
  unfoldable pub charge_pix : NewOrder → ℕ → ℕ → Db → Bool × Db
  charge_pix o payment_id now db = elim (g.create_charge o.total_cents payment_id (split_of o)) [
    | err e ↦ (false, db)
    | ok charge ↦ elim (attach_provider_id payment_id charge.provider_id now db) [
      | err e ↦ (false, db)
      | ok db1 ↦ elim (attach_pix_charge payment_id charge.br_code charge.qr_code_url now db1) [
        | err e ↦ (false, db1)
        | ok db2 ↦ (true, db2)
      ]
    ]
  ]

  unfoldable pub charge_card : NewOrder → ℕ → ℕ → Db → Bool × Db
  charge_card o payment_id now db = elim (g.create_payment_intent o.total_cents payment_id) [
    | err e ↦ (false, db)
    | ok provider_id ↦ elim (attach_provider_id payment_id provider_id now db) [
      | err e ↦ (false, db)
      | ok db1 ↦ (true, db1)
    ]
  ]

  unfoldable pub charge : NewOrder → ℕ → ℕ → Db → Bool × Db
  unfolding charge_pix charge_card
  charge o payment_id now db = elim o.provider [
    | PaymentProvider.stripe ↦ charge_card o payment_id now db
    | PaymentProvider.woovi ↦ charge_pix o payment_id now db
  ]

  -- Whether the charge was made; an order whose charge was not made is given up.
  unfoldable pub after_charge : ℕ → ℕ → Bool × Db → Result ℕ × Db
  after_charge order_id now (true, db) = (ok order_id, db)
  after_charge order_id now (false, db) = elim (compensate_failed_checkout order_id now db) [
    | err e ↦ (err e, db)
    | ok (_, db') ↦ (err (bad_gateway "payment_provider_error"), db')
  ]

  unfoldable pub place_order : NewOrder → ℕ → Db → Result ℕ × Db
  place_order o now db = elim (create_pending_order now o db) [
    | err e ↦ (err e, db)
    | ok (row, created) ↦ after_charge row.id now (charge o (suc row.id) now created)
  ]

  -- The checkout: the order that it made, and the database. The payment has the identifier that was
  -- drawn after its order's.
  unfoldable pub checkout : ℕ → Cart → Db → Result ℕ × Db
  unfolding prepare_order place_order
  checkout now cart db = elim (prepare_order now cart db) [
    | err e ↦ (err e, db)
    | ok o ↦ place_order o now db
  ]
