-- ===== src/Giving/Writes.antt =====
-- The writes to the rows of a payment, a donation and a store keep what is pending
-- (create-donation.service.ts).
use udv_shop_api.Prelude.{
  ℕ, ◌+◌, ◌≡◌, refl, ◌∙◌, Bool, ◌&&◌, List, [], ◌∷◌, ◌++◌, inl, inr, arith, ◌==◌, sum_of-append,
  if◌then◌else◌, is_some_of, Bool-cases,
}
use udv_shop_api.Errors.{ok, unless-ok}
use udv_shop_api.Schema.{Store, Payment, PaymentStatus, payment_in, Db}
use udv_shop_api.Table.{count_where}
use udv_shop_api.Table.Keys.{count_at}
use udv_shop_api.Table.Selected.{sum_of-update_first-same}
use udv_shop_api.Orders.{attach_provider_id, attach_pix_charge, update_payment}
use udv_shop_api.Donations.{attach_subscription_ref, is_pending_donation}
use udv_shop_api.Donations.Cycles.{donation_id_of}
use udv_shop_api.Giving.{remember_product, attach_donation_product}

module _ {ℓ} {A : Type ℓ} where
  pub count_where-append :
      (p : A → Bool) (xs ys : List A)
      → count_where p (xs ++ ys) ≡ count_where p xs + count_where p ys
  count_where-append p xs ys = sum_of-append (λ r. if p r then 1 else 0) xs ys

abbrev pub is_open_payment : Payment → Bool
is_open_payment p = payment_in (PaymentStatus.pending ∷ []) p.status

-- How many donations wait for their payment, and how many payments do.
abbrev pub pending_donations : Db → ℕ
pending_donations db = count_where is_pending_donation db.donations

abbrev pub pending_payments : Db → ℕ
pending_payments db = count_where is_open_payment db.payments

abbrev pub pending_at : ℕ → Db → ℕ
pending_at k db = count_at donation_id_of k is_pending_donation db.donations

abbrev pub open_payments : ℕ → Db → ℕ
open_payments k db =
    count_where
      (λ p. is_some_of k p.donation_id && payment_in (PaymentStatus.pending ∷ []) p.status)
      db.payments

-- Writes that keep what is pending.
pub record Quiet (k : ℕ) (db db' : Db) : Type 0 where
  pub donations : pending_donations db' ≡ pending_donations db
  pub donation : pending_at k db' ≡ pending_at k db
  pub payments : pending_payments db' ≡ pending_payments db
  pub payment : open_payments k db' ≡ open_payments k db

pub Quiet-refl : (k : ℕ) (db : Db) → Quiet k db db
Quiet-refl k db = record { donations = refl; donation = refl; payments = refl; payment = refl }

pub Quiet-trans : (k : ℕ) (a b c : Db) → Quiet k a b → Quiet k b c → Quiet k a c
Quiet-trans k a b c x y = record {
  donations = y.donations ∙ x.donations;
  donation = y.donation ∙ x.donation;
  payments = y.payments ∙ x.payments;
  payment = y.payment ∙ x.payment;
}

update_payment-Quiet :
    (k payment_id : ℕ) (f : Payment → Payment) (db db' : Db)
    → ((p : Payment) → (f p).status ≡ p.status)
    → ((p : Payment) → (f p).donation_id ≡ p.donation_id)
    → update_payment payment_id f db ≡ ok db'
    → Quiet k db db'
unfolding update_payment
update_payment-Quiet k payment_id f db db' s d h = rw (← unless-ok _ _ _ db' h) (record {
  donations = refl;
  donation = refl;
  payments =
      sum_of-update_first-same _ (λ p. p.id == payment_id) f db.payments (λ p. rw (s p) refl);
  payment =
      sum_of-update_first-same _ (λ p. p.id == payment_id) f db.payments (λ p. rw (s p, d p) refl);
})

pub attach_provider_id-Quiet :
    (k payment_id provider_id now : ℕ) (db db' : Db)
    → attach_provider_id payment_id provider_id now db ≡ ok db'
    → Quiet k db db'
unfolding attach_provider_id
attach_provider_id-Quiet k payment_id provider_id now db db' h =
    update_payment-Quiet k payment_id _ db db' (λ p. refl) (λ p. refl) h

pub attach_pix_charge-Quiet :
    (k payment_id br_code url now : ℕ) (db db' : Db)
    → attach_pix_charge payment_id br_code url now db ≡ ok db'
    → Quiet k db db'
unfolding attach_pix_charge
attach_pix_charge-Quiet k payment_id br_code url now db db' h =
    update_payment-Quiet k payment_id _ db db' (λ p. refl) (λ p. refl) h

pub attach_subscription_ref-Quiet :
    (k donation_id ref : ℕ) (db db' : Db)
    → attach_subscription_ref donation_id ref db ≡ ok db'
    → Quiet k db db'
unfolding attach_subscription_ref
attach_subscription_ref-Quiet k donation_id ref db db' h = rw (← unless-ok _ _ _ db' h) (record {
  donations = sum_of-update_first-same _ _ _ db.donations (λ d. refl);
  donation = sum_of-update_first-same _ _ _ db.donations (λ d. refl);
  payments = refl;
  payment = refl;
})

attach_donation_product-Quiet :
    (k store_id product_id : ℕ) (db db' : Db)
    → attach_donation_product store_id product_id db ≡ ok db'
    → Quiet k db db'
unfolding attach_donation_product
attach_donation_product-Quiet k store_id product_id db db' h =
    rw (← unless-ok _ _ _ db' h)
      (record { donations = refl; donation = refl; payments = refl; payment = refl })

pub remember_product-Quiet :
    (k product_id : ℕ) (store : Store) (db db' : Db)
    → remember_product store product_id db ≡ ok db'
    → Quiet k db db'
unfolding remember_product
remember_product-Quiet k product_id store db db' h =
    elim (Bool-cases (is_some_of product_id store.stripe_donation_product_id)) [
      | inl t ↦ let e : db ≡ db' = ground arith in rw (← e) (Quiet-refl k db)
      | inr t ↦ attach_donation_product-Quiet k store.id product_id db db' (ground arith)
    ]
