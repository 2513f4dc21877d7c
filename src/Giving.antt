-- ===== src/Giving.antt =====
-- src/http/api/donations/create-donation/create-donation.service.ts: a donation and its charge.
use udv_shop_api.Prelude.{
  ℕ, suc, ◌+◌, ◌*◌, ℤ, pos, ◌-ℤ◌, Bool, true, false, not, ◌&&◌, Option, none, some, List, [], ◌∷◌,
  ◌==◌, if◌then◌else◌, is_some_of,
}
pub mod Writes
pub mod Quiet
pub mod Settled
use udv_shop_api.Errors.{Result, ok, err, not_found, validation, bad_gateway, failure, ◌>>=◌}
use udv_shop_api.Schema.{
  Store, StoreStatus, Campaign, CampaignAcceptedTypes, Donation, DonationType, PaymentProvider, Db,
}
use udv_shop_api.Table.{find_first, update_first}
use udv_shop_api.Table.Keys.{count_key}
use udv_shop_api.Payouts.{is_given, assert_provider_configured, woovi_retained_fee_cents}
use udv_shop_api.Orders.{attach_provider_id, attach_pix_charge}
use udv_shop_api.Donations.{
  NewDonation, create_pending_donation, attach_subscription_ref, compensate_failed_donation,
}
use udv_shop_api.Donations.Renewals.{application_fee}
use udv_shop_api.Checkout.{PixCharge}
use udv_shop_api.Campaigns.{find_campaign, is_campaign_open_for_donation}

-- DONATION_TTL_MINUTES
abbrev pub donation_ttl_minutes : ℕ
donation_ttl_minutes = 30

-- What is given, to whom and by whom. An email of 0 is the empty text.
pub record Gift : Type 0 where
  pub store_slug : ℕ
  pub campaign_slug : Option ℕ
  pub provider : PaymentProvider
  pub kind : DonationType
  pub amount_cents : ℕ
  pub anonymous : Bool
  pub message : Option ℕ
  pub user_id : ℕ
  pub user_email : Option ℕ
  pub public_token : Option ℕ

abbrev is_monthly : DonationType → Bool
is_monthly DonationType.monthly = true
is_monthly DonationType.one_time = false

abbrev is_woovi : PaymentProvider → Bool
is_woovi PaymentProvider.woovi = true
is_woovi PaymentProvider.stripe = false

-- `acceptedTypes` is `both` or the type of the donation.
abbrev pub accepts : CampaignAcceptedTypes → DonationType → Bool
accepts CampaignAcceptedTypes.both kind = true
accepts CampaignAcceptedTypes.monthly kind = is_monthly kind
accepts CampaignAcceptedTypes.one_time kind = not (is_monthly kind)

-- The campaign that is named, and whether it takes the donation.
unfoldable pub campaign_for : ℕ → Store → Gift → Db → Result (Option ℕ)
campaign_for now store gift db = elim gift.campaign_slug [
  | none ↦ ok none
  | some slug ↦ elim (find_campaign store.id slug db) [
    | none ↦ err (not_found "campaign_not_found")
    | some c ↦
        if not (is_campaign_open_for_donation now c)
        then err (validation "campaign_not_open")
        else (if accepts c.accepted_types gift.kind
            then ok (some c.id)
            else err (validation "donation_type_not_accepted"))
  ]
]

pub record Subscription : Type 0 where
  pub subscription_id : ℕ
  pub product_id : ℕ

pub record DonationGateways : Type 0 where
  pub create_donation_subscription :
      (amount_cents email : ℕ) (product_id : Option ℕ) (donation_id payment_id : ℕ)
      → Result Subscription
  pub create_payment_intent : (amount_cents donation_id payment_id : ℕ) → Result ℕ
  pub create_charge : (amount_cents payment_id : ℕ) → (split_cents : ℤ) → Result PixCharge

-- `attachDonationProduct`
unfoldable pub attach_donation_product : ℕ → ℕ → Db → Result Db
attach_donation_product store_id product_id db =
    if count_key (λ (s : Store). s.id) store_id db.stores == 0
    then err (failure "record_not_found")
    else ok (record db {
      stores =
          update_first (λ s. s.id == store_id)
            (λ s. record s { stripe_donation_product_id = some product_id }) db.stores;
    })

-- `requireSubscriberEmail`
abbrev pub subscriber_email : Option ℕ → Result ℕ
subscriber_email none = err (validation "email_required_for_monthly")
subscriber_email (some e) = if e == 0 then err (validation "email_required_for_monthly") else ok e

-- What is refused of the gift itself: monthly goes by card, and needs an email.
unfoldable pub assert_gift : Gift → Result (Unit {0})
assert_gift gift =
    if is_monthly gift.kind && is_woovi gift.provider
    then err (validation "monthly_not_supported_for_provider")
    else (if is_monthly gift.kind then (subscriber_email gift.user_email >>= λ e. ok tt) else ok tt)

-- The writes of a charge, each of which stays when a later one throws. The flag says whether all
-- were made.
abbrev pub then_write : Result Db → Db → (Db → Bool × Db) → Bool × Db
then_write (err e) db next = (false, db)
then_write (ok db') db next = next db'

abbrev made : Db → Bool × Db
made db = (true, db)

unfoldable pub remember_product : Store → ℕ → Db → Result Db
remember_product store product_id db =
    if is_some_of product_id store.stripe_donation_product_id
    then ok db
    else attach_donation_product store.id product_id db

-- A donation whose charge was not made is given up.
abbrev pub after_gift : ℕ → ℕ → Bool × Db → Result ℕ × Db
after_gift donation_id now (true, db) = (ok donation_id, db)
after_gift donation_id now (false, db) =
    (err (bad_gateway "payment_provider_error"), compensate_failed_donation donation_id now db)

module _ (woovi_fee_fixed_cents : ℕ) (g : DonationGateways) where
  abbrev provider_fee : PaymentProvider → ℕ → ℤ
  provider_fee PaymentProvider.stripe amount = pos 0
  provider_fee PaymentProvider.woovi amount = woovi_retained_fee_cents amount woovi_fee_fixed_cents

  abbrev expiry : ℕ → DonationType → Option ℕ
  expiry now DonationType.one_time = some (now + donation_ttl_minutes * 60 * 1000)
  expiry now DonationType.monthly = none

  abbrev is_active_store : Store → Bool
  is_active_store s = elim s.status [ StoreStatus.active ↦ true | _ ↦ false ]

  unfoldable pub donation_input : ℕ → Store → Gift → Option ℕ → NewDonation
  donation_input now store gift campaign_id = record {
    store_id = store.id;
    campaign_id = campaign_id;
    user_id = gift.user_id;
    kind = gift.kind;
    amount_cents = gift.amount_cents;
    anonymous = gift.anonymous;
    message = gift.message;
    public_token = gift.public_token;
    expires_at = expiry now gift.kind;
    provider = gift.provider;
    application_fee_cents = application_fee gift.amount_cents store.application_fee_bps;
    provider_fee_cents = some (provider_fee gift.provider gift.amount_cents);
  }

  -- Everything that is refused before something is written.
  unfoldable pub prepare_donation : ℕ → Gift → Db → Result (Store × NewDonation)
  unfolding assert_gift campaign_for donation_input
  prepare_donation now gift db = elim (find_first (λ s. s.slug == gift.store_slug) db.stores) [
    | none ↦ err (not_found "store_not_found")
    | some store ↦
        if is_active_store store
        then (assert_provider_configured store gift.provider >>= λ u.
            (assert_gift gift >>= λ v.
            (campaign_for now store gift db >>= λ campaign_id.
            ok (store, donation_input now store gift campaign_id))))
        else err (not_found "store_not_found")
  ]

  unfoldable pub charge_monthly : Store → Gift → ℕ → ℕ → ℕ → Db → Bool × Db
  charge_monthly store gift donation_id payment_id now db =
      elim (subscriber_email gift.user_email >>= λ email.
      g.create_donation_subscription gift.amount_cents email store.stripe_donation_product_id
        donation_id payment_id) [
          | err e ↦ (false, db)
          | ok s ↦ then_write (remember_product store s.product_id db) db λ db1.
              then_write (attach_provider_id payment_id s.subscription_id now db1) db1 λ db2.
                then_write (attach_subscription_ref donation_id s.subscription_id db2) db2 made
        ]

  unfoldable pub charge_card : Gift → ℕ → ℕ → ℕ → Db → Bool × Db
  charge_card gift donation_id payment_id now db =
      elim (g.create_payment_intent gift.amount_cents donation_id payment_id) [
        | err e ↦ (false, db)
        | ok x ↦ then_write (attach_provider_id payment_id x now db) db made
      ]

  -- The split of a Pix charge.
  abbrev pub gift_split : Gift → NewDonation → ℤ
  gift_split gift d =
      pos gift.amount_cents
      -ℤ pos d.application_fee_cents
      -ℤ provider_fee gift.provider gift.amount_cents

  unfoldable pub charge_pix : Gift → NewDonation → ℕ → ℕ → Db → Bool × Db
  charge_pix gift d payment_id now db =
      elim (g.create_charge gift.amount_cents payment_id (gift_split gift d)) [
        | err e ↦ (false, db)
        | ok c ↦ then_write (attach_provider_id payment_id c.provider_id now db) db λ db1.
            then_write (attach_pix_charge payment_id c.br_code c.qr_code_url now db1) db1 made
      ]

  unfoldable pub charge_gift : Store → Gift → NewDonation → ℕ → ℕ → ℕ → Db → Bool × Db
  unfolding charge_monthly charge_card charge_pix
  charge_gift store gift d donation_id payment_id now db = elim gift.kind [
    | DonationType.monthly ↦ charge_monthly store gift donation_id payment_id now db
    | DonationType.one_time ↦ elim gift.provider [
      | PaymentProvider.stripe ↦ charge_card gift donation_id payment_id now db
      | PaymentProvider.woovi ↦ charge_pix gift d payment_id now db
    ]
  ]

  -- The payment has the identifier that was drawn after its donation's.
  unfoldable pub place_donation : Store → Gift → NewDonation → ℕ → Db → Result ℕ × Db
  unfolding charge_gift
  place_donation store gift d now db =
      let (row, created) = create_pending_donation now d db in
      after_gift row.id now (charge_gift store gift d row.id (suc row.id) now created)

  -- `createDonationService`
  unfoldable pub give : ℕ → Gift → Db → Result ℕ × Db
  unfolding prepare_donation place_donation
  give now gift db = elim (prepare_donation now gift db) [
    | err e ↦ (err e, db)
    | ok (store, d) ↦ place_donation store gift d now db
  ]
