-- ===== src/Examples/Routes.antt =====
-- The theorems on the routes of the orders, on the ticks of the workers and on asking for a
-- donation, at concrete inputs.
use udv_shop_api.Prelude.{ℕ, ◌-◌, ◌≡◌, refl, true, false, none, some, List, [], ◌∷◌, arith, min}
use udv_shop_api.Errors.{AppError, ok, err, bad_gateway}
use udv_shop_api.Schema.{
  CampaignAcceptedTypes, CampaignStatus, Store, StoreStatus, Db, Payment, OrderStatus,
  PaymentProvider, PaymentStatus, DonationType, empty_db,
}
use udv_shop_api.Table.{find_first}
use udv_shop_api.Table.Keys.{find_key}
use udv_shop_api.Orders.{
  find_payment_by_order_id, attach_provider_id, set_order_status, new_order, new_payment,
  set_payment_status,
}
use udv_shop_api.Orders.Ops.{run, create}
use udv_shop_api.Orders.Refunds.{claim_refund}
use udv_shop_api.Orders.Conservation.{IsConsistent, run-IsConsistent}
use udv_shop_api.Orders.Tests.{shop, two_shirts, shop-IsConsistent, awaiting}
use udv_shop_api.Expiry.{expire_reservations}
use udv_shop_api.Expiry.Drained.{late, expire_reservations-drains}
use udv_shop_api.Permissions.{role_in, Claims, owner, staff}
use udv_shop_api.OrderRoutes.{RefundGateways, cancelling, serve, request_refund, refundable_payment}
use udv_shop_api.OrderRoutes.Untouched.{Untouched}
use udv_shop_api.OrderRoutes.Strangers.{serve-stranger}
use udv_shop_api.OrderRoutes.Refused.{request_refund-refused}
use udv_shop_api.Payouts.{assert_provider_configured}
use udv_shop_api.Donations.{create_pending_donation}
use udv_shop_api.Campaigns
use udv_shop_api.Campaigns.{NewCampaign, CampaignPatch}
use udv_shop_api.Campaigns.Ops.{CampaignOp, step}
use udv_shop_api.Campaigns.Curated.{run-IsCurated}
use udv_shop_api.Campaigns.Gallery.{IsCurated}
use udv_shop_api.Giving.{Gift, DonationGateways, give}
use udv_shop_api.Giving.Settled.{Settles, give-Settles}

expire_reservations-drains_example :
    (db' : Db) × (expire_reservations 2000 (run ((10, create two_shirts) ∷ []) shop)
      ≡ (ok (min 200 (late 2000 (run ((10, create two_shirts) ∷ []) shop))), db'))
    × (late 2000 db' ≡ late 2000 (run ((10, create two_shirts) ∷ []) shop) - 200)
    × IsConsistent db'
expire_reservations-drains_example =
    expire_reservations-drains 2000 (run ((10, create two_shirts) ∷ []) shop)
      (run-IsConsistent ((10, create two_shirts) ∷ []) shop shop-IsConsistent)

-- Refunds that the providers refuse.
abbrev refusals : RefundGateways
refusals = record {
  refund_payment_intent = λ x transfer net k. err (bad_gateway "stripe_error");
  refund_charge = λ k. err (bad_gateway "woovi_error");
}

-- Somebody who only is staff there, and owner of another store.
abbrev stranger : Claims
stranger = record { sub = 9; is_platform_admin = false; roles = (5, owner) ∷ (1, staff) ∷ [] }

serve-stranger_example :
    Untouched 100 awaiting (serve refusals cancelling (some stranger) 50 100 20 awaiting).1
    × ((e : AppError) × (serve refusals cancelling (some stranger) 50 100 20 awaiting
          ≡ (err e, awaiting)))
unfolding new_order new_payment find_first role_in
serve-stranger_example =
    serve-stranger refusals 100 cancelling (some stranger) 50 100 20 awaiting
      (new_order 100 10 two_shirts) (λ k. ground arith) (λ k. ground arith) refl refl

abbrev paid_payment : Payment
paid_payment =
    set_payment_status PaymentStatus.succeeded 20
      (record (new_payment 101 100 10 two_shirts) { provider_id = some 9 })

-- The shop with the order paid.
abbrev refundable : Db
refundable = record awaiting {
  orders = set_order_status OrderStatus.paid 20 (new_order 100 10 two_shirts) ∷ [];
  payments = paid_payment ∷ [];
}

request_refund-refused_example :
    (db' : Db) × (request_refund refusals 100 40 refundable
      ≡ (err (bad_gateway "woovi_error"), db'))
    × (find_key (λ p. p.id) 101 db'.payments
        ≡ some (set_payment_status PaymentStatus.succeeded 40 paid_payment))
    × (db'.orders ≡ refundable.orders)
    × ((later : ℕ) → (claim_refund 101 later db').0 ≡ true)
unfolding new_payment find_first refundable_payment find_payment_by_order_id
request_refund-refused_example =
    request_refund-refused refusals 100 40 refundable paid_payment (bad_gateway "woovi_error")
      (λ k. ground arith) refl refl refl

abbrev giving_store : Store
giving_store = record {
  id = 1;
  slug = 8;
  name = 9;
  status = StoreStatus.active;
  suspension_reason = none;
  application_fee_bps = 200;
  stripe_account_id = some 5;
  stripe_transfers_enabled = true;
  stripe_charges_enabled = true;
  stripe_payouts_enabled = true;
  stripe_details_submitted = true;
  woovi_pix_key = none;
  stripe_donation_product_id = none;
  woovi_pix_key_status = none;
  woovi_pix_key_verified_at = none;
}

abbrev charity : Db
charity = record empty_db { next_id = 100; stores = giving_store ∷ [] }

abbrev gift : Gift
gift = record {
  store_slug = 8;
  campaign_slug = none;
  provider = PaymentProvider.stripe;
  kind = DonationType.one_time;
  amount_cents = 2000;
  anonymous = false;
  message = none;
  user_id = 3;
  user_email = none;
  public_token = some 4;
}

-- Cards are charged, and nothing else is.
abbrev card_only : DonationGateways
card_only = record {
  create_donation_subscription = λ amount email product k payment. err (bad_gateway "stripe_error");
  create_payment_intent = λ amount k payment. ok 33;
  create_charge = λ amount payment split. err (bad_gateway "woovi_error");
}

give-Settles_example : Settles charity (give 85 card_only 10 gift charity)
give-Settles_example = give-Settles 85 card_only 10 gift charity refl refl

gift_answered : (give 85 card_only 10 gift charity).0 ≡ ok 100
unfolding give find_first assert_provider_configured attach_provider_id create_pending_donation
gift_answered = refl

abbrev drive : NewCampaign
drive = record {
  slug = 20;
  title = 21;
  story = none;
  images = 30 ∷ 31 ∷ [];
  cover_image = none;
  goal_cents = some 100000;
  accepted_types = CampaignAcceptedTypes.both;
  ends_at = none;
  raffle = none;
}

abbrev other_images : CampaignPatch
other_images = record {
  title = none;
  story = none;
  images = some (32 ∷ []);
  cover_image = none;
  goal_cents = none;
  accepted_types = none;
  ends_at = none;
}

-- A campaign is made, goes on air, changes its images, ends and is archived.
abbrev requests : List (ℕ × ℕ × CampaignOp)
requests =
    (1, 1, CampaignOp.create drive)
    ∷ (2, 1, CampaignOp.change 20 CampaignStatus.active)
    ∷ (3, 1, CampaignOp.update 20 other_images)
    ∷ (4, 1, CampaignOp.change 20 CampaignStatus.finished)
    ∷ (5, 1, CampaignOp.archive 20 true)
    ∷ []

run-IsCurated_example : IsCurated (Campaigns.Ops.run requests charity)
run-IsCurated_example = run-IsCurated requests charity (record {
  unique = λ k. omega arith;
  fresh = λ k h. refl;
  slugs = λ s k. omega arith;
  curated = refl;
})
