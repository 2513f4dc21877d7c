-- ===== src/Schema/Stores.antt =====
-- The models Store, StoreSubscription and WooviPixKeyVerification. A document or a name that the
-- code takes apart is the list of its characters.
use udv_shop_api.Prelude.{ℕ, Bool, Option, List}
use udv_shop_api.Schema.Enums.{
  StoreStatus, StoreSuspensionReason, StoreSubscriptionStatus, WooviPixKeyStatus,
  WooviPixKeyVerificationStatus,
}

pub record Store : Type 0 where
  pub id : ℕ
  pub slug : ℕ
  pub name : ℕ
  pub status : StoreStatus
  pub suspension_reason : Option StoreSuspensionReason
  pub application_fee_bps : ℕ
  pub stripe_account_id : Option ℕ
  pub stripe_transfers_enabled : Bool
  pub stripe_charges_enabled : Bool
  pub stripe_payouts_enabled : Bool
  pub stripe_details_submitted : Bool
  pub stripe_donation_product_id : Option ℕ
  pub woovi_pix_key : Option ℕ
  pub woovi_pix_key_status : Option WooviPixKeyStatus
  pub woovi_pix_key_verified_at : Option ℕ

pub record StoreSubscription : Type 0 where
  pub store_id : ℕ
  pub stripe_customer_id : ℕ
  pub stripe_subscription_id : Option ℕ
  pub status : StoreSubscriptionStatus
  pub price_id : Option ℕ
  pub current_period_end : Option ℕ
  pub cancel_at_period_end : Bool

pub record WooviPixKeyVerification : Type 0 where
  pub id : ℕ
  pub store_id : ℕ
  pub pix_key : ℕ
  pub owner_name : List ℕ
  pub owner_tax_id : List ℕ
  pub status : WooviPixKeyVerificationStatus
  pub payer_name : Option (List ℕ)
  pub payer_tax_id_masked : Option (List ℕ)
  pub settled_at : Option ℕ
