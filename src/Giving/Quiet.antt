-- ===== src/Giving/Quiet.antt =====
-- The writes of a charge keep what is pending (create-donation.service.ts).
use udv_shop_api.Prelude.{ℕ, ◌≡◌, ◌⊎◌, refl, Bool, inl, inr}
use udv_shop_api.Errors.{Result, ok, err, Result-cases, ◌>>=◌}
use udv_shop_api.Schema.{Store, DonationType, PaymentProvider, Db}
use udv_shop_api.Orders.{attach_provider_id, attach_pix_charge}
use udv_shop_api.Donations.{NewDonation, attach_subscription_ref}
use udv_shop_api.Giving.{
  Gift, DonationGateways, charge_gift, charge_monthly, charge_card, charge_pix, made,
  remember_product, then_write, subscriber_email, Subscription, gift_split,
}
use udv_shop_api.Giving.Writes.{
  Quiet, Quiet-refl, Quiet-trans, attach_pix_charge-Quiet, attach_provider_id-Quiet,
  attach_subscription_ref-Quiet, remember_product-Quiet,
}

-- A write that throws keeps what it was given, and one that does not goes on.
then_write-Quiet :
    (k : ℕ) (r : Result Db) (db : Db) (next : Db → Bool × Db)
    → ((db' : Db) → r ≡ ok db' → Quiet k db db')
    → ((db' : Db) → Quiet k db' (next db').1)
    → Quiet k db (then_write r db next).1
then_write-Quiet k (err e) db next h n = Quiet-refl k db
then_write-Quiet k (ok db') db next h n = Quiet-trans k db db' (next db').1 (h db' refl) (n db')

DonationType-cases : (t : DonationType) → (t ≡ DonationType.monthly) ⊎ (t ≡ DonationType.one_time)
DonationType-cases DonationType.monthly = inl refl
DonationType-cases DonationType.one_time = inr refl

PaymentProvider-cases :
    (p : PaymentProvider) → (p ≡ PaymentProvider.stripe) ⊎ (p ≡ PaymentProvider.woovi)
PaymentProvider-cases PaymentProvider.stripe = inl refl
PaymentProvider-cases PaymentProvider.woovi = inr refl

made-Quiet : (k : ℕ) (db : Db) → Quiet k db (made db).1
made-Quiet k db = Quiet-refl k db

module _ (woovi_fee_fixed_cents : ℕ) (g : DonationGateways) where
  charge_card-Quiet :
      (gift : Gift) (donation_id payment_id now k : ℕ) (db : Db)
      → Quiet k db (charge_card woovi_fee_fixed_cents g gift donation_id payment_id now db).1
  unfolding charge_card
  charge_card-Quiet gift donation_id payment_id now k db =
      elim (Result-cases (g.create_payment_intent gift.amount_cents donation_id payment_id)) [
        | inl (x, e) ↦
            rw (charge_card, e)
              (then_write-Quiet k (attach_provider_id payment_id x now db) db made
                (λ db'. attach_provider_id-Quiet k payment_id x now db db') (made-Quiet k))
        | inr (x, e) ↦ rw (charge_card, e) (Quiet-refl k db)
      ]

  charge_pix-Quiet :
      (gift : Gift) (d : NewDonation) (payment_id now k : ℕ) (db : Db)
      → Quiet k db (charge_pix woovi_fee_fixed_cents g gift d payment_id now db).1
  unfolding charge_pix
  charge_pix-Quiet gift d payment_id now k db =
      elim (Result-cases (
        g.create_charge gift.amount_cents payment_id (gift_split woovi_fee_fixed_cents g gift d))) [
          | inl (c, e) ↦
              rw (charge_pix, e)
                (then_write-Quiet k (attach_provider_id payment_id c.provider_id now db) db _
                  (λ db'. attach_provider_id-Quiet k payment_id c.provider_id now db db')
                  (λ db1.
                    then_write-Quiet k
                      (attach_pix_charge payment_id c.br_code c.qr_code_url now db1) db1 made
                      (λ db'.
                        attach_pix_charge-Quiet k payment_id c.br_code c.qr_code_url now db1 db')
                      (made-Quiet k)))
          | inr (x, e) ↦ rw (charge_pix, e) (Quiet-refl k db)
        ]

  monthly : Store → Gift → ℕ → ℕ → Result Subscription
  monthly store gift donation_id payment_id = subscriber_email gift.user_email >>= λ email.
      g.create_donation_subscription gift.amount_cents email store.stripe_donation_product_id
        donation_id payment_id

  charge_monthly-Quiet :
      (store : Store) (gift : Gift) (donation_id payment_id now k : ℕ) (db : Db)
      → Quiet k db
          (charge_monthly woovi_fee_fixed_cents g store gift donation_id payment_id now db).1
  unfolding charge_monthly monthly
  charge_monthly-Quiet store gift donation_id payment_id now k db =
      elim (Result-cases (monthly store gift donation_id payment_id)) [
        | inl (s, e) ↦
            rw (charge_monthly, e)
              (then_write-Quiet k (remember_product store s.product_id db) db _
                (λ db'. remember_product-Quiet k s.product_id store db db')
                (λ db1.
                  then_write-Quiet k (attach_provider_id payment_id s.subscription_id now db1) db1 _
                    (λ db'. attach_provider_id-Quiet k payment_id s.subscription_id now db1 db')
                    (λ db2.
                      then_write-Quiet k (attach_subscription_ref donation_id s.subscription_id db2)
                        db2 made
                        (λ db'.
                          attach_subscription_ref-Quiet k donation_id s.subscription_id db2 db')
                        (made-Quiet k))))
        | inr (x, e) ↦ rw (charge_monthly, e) (Quiet-refl k db)
      ]

  pub charge_gift-Quiet :
      (store : Store) (gift : Gift) (d : NewDonation) (donation_id payment_id now k : ℕ) (db : Db)
      → Quiet k db
          (charge_gift woovi_fee_fixed_cents g store gift d donation_id payment_id now db).1
  unfolding charge_gift
  charge_gift-Quiet store gift d donation_id payment_id now k db =
      elim (DonationType-cases gift.kind) [
        | inl e ↦
            rw (charge_gift, e) (charge_monthly-Quiet store gift donation_id payment_id now k db)
        | inr e ↦ elim (PaymentProvider-cases gift.provider) [
          | inl c ↦ rw (charge_gift, e, c) (charge_card-Quiet gift donation_id payment_id now k db)
          | inr c ↦ rw (charge_gift, e, c) (charge_pix-Quiet gift d payment_id now k db)
        ]
      ]
