-- ===== src/Schema/Sales.antt =====
-- The models Product, Event, EventBatch, Order, OrderItem, Payment, Donation and Interest. Times
-- are milliseconds, money is in cents, and identifiers and free texts that the code only stores
-- and compares are numbers, 0 for the empty text.
use Prim.Native.String.{String}
use udv_shop_api.Prelude.{ℕ, ℤ, Bool, Option, List}
use udv_shop_api.Schema.Enums.{
  OrderStatus, PaymentProvider, PaymentStatus, DonationType, DonationStatus, InterestStatus,
  ProductAvailability, PayoutKind,
}

pub record Product : Type 0 where
  pub id : ℕ
  pub store_id : ℕ
  pub slug : ℕ
  pub name : ℕ
  pub price_cents : ℕ
  pub stock : ℕ
  pub availability : ProductAvailability
  pub active : Bool
  pub supplier_id : Option ℕ
  pub payout_kind : Option PayoutKind
  pub payout_value : Option ℕ

-- An event, without its batches: these are rows of their own.
pub record Event : Type 0 where
  pub id : ℕ
  pub store_id : ℕ
  pub slug : ℕ
  pub name : ℕ
  pub price_cents : ℕ
  pub seats : ℕ
  pub starts_at : ℕ
  pub ends_at : Option ℕ
  pub active : Bool
  pub supplier_id : Option ℕ
  pub payout_kind : Option PayoutKind
  pub payout_value : Option ℕ

pub record EventBatch : Type 0 where
  pub id : ℕ
  pub event_id : ℕ
  pub name : ℕ
  pub position : ℕ
  pub price_cents : ℕ
  pub seats : ℕ
  pub opens_at : Option ℕ
  pub closes_at : Option ℕ

pub record OrderItem : Type 0 where
  pub product_id : Option ℕ
  pub event_id : Option ℕ
  pub event_batch_id : Option ℕ
  pub name : ℕ
  pub price_cents : ℕ
  pub qty : ℕ
  pub supplier_id : Option ℕ
  pub payout_cents : ℕ
  pub checked_in_at : Option ℕ

-- An order, with the rows of order_items that have its id.
pub record Order : Type 0 where
  pub id : ℕ
  pub store_id : ℕ
  pub user_id : ℕ
  pub status : OrderStatus
  pub total_cents : ℕ
  pub currency : String
  pub contact_phone : ℕ
  pub note : Option ℕ
  pub public_token : Option ℕ
  pub expires_at : ℕ
  pub created_at : ℕ
  pub updated_at : ℕ
  pub items : List OrderItem

pub record Payment : Type 0 where
  pub id : ℕ
  pub order_id : Option ℕ
  pub donation_id : Option ℕ
  pub provider : PaymentProvider
  pub provider_id : Option ℕ
  pub pix_br_code : Option ℕ
  pub pix_qr_code_url : Option ℕ
  pub amount_cents : ℕ
  pub application_fee_cents : ℕ
  pub provider_fee_cents : Option ℤ
  pub stripe_transfer_id : Option ℕ
  pub status : PaymentStatus
  pub updated_at : ℕ

pub record Donation : Type 0 where
  pub id : ℕ
  pub store_id : ℕ
  pub campaign_id : Option ℕ
  pub user_id : ℕ
  pub kind : DonationType
  pub amount_cents : ℕ
  pub status : DonationStatus
  pub anonymous : Bool
  pub message : Option ℕ
  pub subscription_ref : Option ℕ
  pub provider_invoice_id : Option ℕ
  pub subscription_cancelled_at : Option ℕ
  pub raffle_granted : Bool
  pub public_token : Option ℕ
  pub paid_at : Option ℕ
  pub expires_at : Option ℕ
  pub created_at : ℕ

pub record Interest : Type 0 where
  pub id : ℕ
  pub product_id : Option ℕ
  pub event_id : Option ℕ
  pub user_id : ℕ
  pub qty : ℕ
  pub note : Option ℕ
  pub status : InterestStatus
  pub notified_at : Option ℕ
