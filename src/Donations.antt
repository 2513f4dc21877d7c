-- ===== src/Donations.antt =====
-- src/http/api/donations/donations.repository.ts: the repository of donations; Renewals has the
-- cycles of a monthly one. Each operation takes the time of the call and the database.
use udv_shop_api.Prelude.{
  ℕ, suc, ◌+◌, ℤ, Bool, true, false, ◌&&◌, Option, none, some, List, [], ◌∷◌, ◌++◌, ltb, ◌==◌,
  if◌then◌else◌, is_some_of, take,
}
pub mod Renewals
pub mod Cycles
pub mod Repeats
pub mod Refunds
use udv_shop_api.Errors.{Result, ok, err, failure}
use udv_shop_api.Schema.{
  PaymentProvider, PaymentStatus, DonationType, DonationStatus, RaffleStatus, donation_in,
  payment_in, raffle_is, Payment, Donation, Raffle, RaffleEntry, Db, enqueue, donation_received,
  donation_received_store, payment_orphaned, donation,
}
use udv_shop_api.Table.{update_many, find_many, update_first, delete_many}
use udv_shop_api.Table.Keys.{update_key, count_at, find_key, count_key}
use udv_shop_api.Orders.{is_payable, settle, set_payment_status}
use udv_shop_api.Orders.Refunds.{is_refundable}

-- The input of `createPendingDonation`.
pub record NewDonation : Type 0 where
  pub store_id : ℕ
  pub campaign_id : Option ℕ
  pub user_id : ℕ
  pub kind : DonationType
  pub amount_cents : ℕ
  pub anonymous : Bool
  pub message : Option ℕ
  pub public_token : Option ℕ
  pub expires_at : Option ℕ
  pub provider : PaymentProvider
  pub application_fee_cents : ℕ
  pub provider_fee_cents : Option ℤ

abbrev pub new_donation : ℕ → ℕ → NewDonation → Donation
new_donation id now input = record {
  id = id;
  store_id = input.store_id;
  campaign_id = input.campaign_id;
  user_id = input.user_id;
  kind = input.kind;
  amount_cents = input.amount_cents;
  status = DonationStatus.pending_payment;
  anonymous = input.anonymous;
  message = input.message;
  subscription_ref = none;
  provider_invoice_id = none;
  subscription_cancelled_at = none;
  raffle_granted = false;
  public_token = input.public_token;
  paid_at = none;
  expires_at = input.expires_at;
  created_at = now;
}

-- The payment row that comes with a donation.
abbrev pub donation_payment : ℕ → ℕ → ℕ → NewDonation → Payment
donation_payment id donation_id now input = record {
  id = id;
  order_id = none;
  donation_id = some donation_id;
  provider = input.provider;
  provider_id = none;
  pix_br_code = none;
  pix_qr_code_url = none;
  amount_cents = input.amount_cents;
  application_fee_cents = input.application_fee_cents;
  provider_fee_cents = input.provider_fee_cents;
  stripe_transfer_id = none;
  status = PaymentStatus.pending;
  updated_at = now;
}

-- `createPendingDonation`
unfoldable pub create_pending_donation : ℕ → NewDonation → Db → Donation × Db
create_pending_donation now input db =
    let row = new_donation db.next_id now input in
    (
      row,
      record db {
        next_id = suc (suc db.next_id);
        donations = db.donations ++ row ∷ [];
        payments = db.payments ++ donation_payment (suc db.next_id) db.next_id now input ∷ [];
      },
    )

-- `attachSubscriptionRef`
unfoldable pub attach_subscription_ref : ℕ → ℕ → Db → Result Db
attach_subscription_ref donation_id ref db =
    if count_key (λ (d : Donation). d.id) donation_id db.donations == 0
    then err (failure "record_not_found")
    else ok (record db {
      donations =
          update_first (λ d. d.id == donation_id) (λ d. record d { subscription_ref = some ref })
            db.donations;
    })

abbrev pub is_pending_donation : Donation → Bool
is_pending_donation d = donation_in (DonationStatus.pending_payment ∷ []) d.status

abbrev pub set_donation_status : DonationStatus → Donation → Donation
set_donation_status to d = record d { status = to }

-- `payment.updateMany({ where: { donationId, status: "pending" } })`
abbrev close_donation_payments : ℕ → PaymentStatus → ℕ → List Payment → List Payment
close_donation_payments donation_id to now ps =
    update_many
      (λ p.
        is_some_of donation_id p.donation_id && payment_in (PaymentStatus.pending ∷ []) p.status)
      (set_payment_status to now) ps

-- `cancelPendingDonation` and `compensateFailedDonation`, which cancels with "failed".
unfoldable pub cancel_pending_donation : ℕ → PaymentStatus → ℕ → Db → Bool × Db
cancel_pending_donation donation_id payment_status now db =
    let cancelled = record db {
      donations =
          update_key (λ (d : Donation). d.id) donation_id is_pending_donation
            (set_donation_status DonationStatus.cancelled) db.donations;
    } in
    if count_at (λ (d : Donation). d.id) donation_id is_pending_donation db.donations == 1
    then (
      true,
      record cancelled {
        payments = close_donation_payments donation_id payment_status now cancelled.payments;
      },
    )
    else (false, cancelled)

unfoldable pub compensate_failed_donation : ℕ → ℕ → Db → Db
unfolding cancel_pending_donation
compensate_failed_donation donation_id now db =
    (cancel_pending_donation donation_id PaymentStatus.failed now db).1

-- The two notices of a donation that came in.
abbrev pub announce : ℕ → Db → Db
announce donation_id db =
    enqueue (donation_received_store donation_id) (enqueue (donation_received donation_id) db)

abbrev pub set_donation_paid : ℕ → Donation → Donation
set_donation_paid now d = record d { status = DonationStatus.paid; paid_at = some now }

-- The donation's half of `markPaid`.
unfoldable pub pay_donation : ℕ → ℕ → ℕ → Db → Bool × Db
pay_donation donation_id payment_id now db =
    let paid = record db {
      donations =
          update_key (λ (d : Donation). d.id) donation_id is_pending_donation
            (set_donation_paid now) db.donations;
    } in
    if count_at (λ (d : Donation). d.id) donation_id is_pending_donation db.donations == 1
    then (true, announce donation_id paid)
    else (false, enqueue (payment_orphaned (donation donation_id) payment_id) paid)

unfoldable pub pay_donation_of : Option Payment → ℕ → Db → Result (Option (ℕ × Bool) × Db)
pay_donation_of none now db = err (failure "record_not_found")
pay_donation_of (some p) now db = elim p.donation_id [
  | none ↦ ok (none, db)
  | some d ↦ let (pending, db') = pay_donation d p.id now db in ok (some (d, pending), db')
]

-- `markPaid`: the donation and whether it was pending, or `none`.
unfoldable pub mark_donation_paid : ℕ → Option ℕ → ℕ → Db → Result (Option (ℕ × Bool) × Db)
mark_donation_paid payment_id provider_id now db =
    let paid = record db {
      payments =
          update_key (λ (p : Payment). p.id) payment_id is_payable (settle provider_id now)
            db.payments;
    } in
    if count_at (λ (p : Payment). p.id) payment_id is_payable db.payments == 1
    then pay_donation_of (find_key (λ (p : Payment). p.id) payment_id paid.payments) now paid
    else ok (none, paid)

abbrev pub is_paid_donation : Donation → Bool
is_paid_donation d = donation_in (DonationStatus.paid ∷ []) d.status

abbrev pub set_donation_refunded : Donation → Donation
set_donation_refunded d = record d { status = DonationStatus.refunded; raffle_granted = false }

-- The number of an entry goes back only while its raffle is open.
abbrev pub in_open_raffle : List Raffle → RaffleEntry → Bool
in_open_raffle raffles e = elim (find_key (λ r. r.id) e.raffle_id raffles) [
  | none ↦ false
  | some r ↦ raffle_is RaffleStatus.open_entries r.status
]

-- The donation's half of `markRefundedByPaymentId`.
unfoldable pub free_donation : ℕ → Db → Db
free_donation donation_id db =
    let refunded = record db {
      donations =
          update_key (λ (d : Donation). d.id) donation_id is_paid_donation set_donation_refunded
            db.donations;
    } in
    if count_at (λ (d : Donation). d.id) donation_id is_paid_donation db.donations == 1
    then record refunded {
      entries =
          delete_many (λ e. e.donation_id == donation_id && in_open_raffle db.raffles e)
            refunded.entries;
    }
    else refunded

unfoldable pub refund_donation_of : Option Payment → Db → Result (Bool × Db)
refund_donation_of none db = err (failure "record_not_found")
refund_donation_of (some p) db = elim p.donation_id [
  | none ↦ ok (true, db)
  | some d ↦ ok (true, free_donation d db)
]

-- `markRefundedByPaymentId`
unfoldable pub refund_donation : ℕ → ℕ → Db → Result (Bool × Db)
refund_donation payment_id now db =
    let refunded = record db {
      payments =
          update_key (λ (p : Payment). p.id) payment_id is_refundable
            (set_payment_status PaymentStatus.refunded now) db.payments;
    } in
    if count_at (λ (p : Payment). p.id) payment_id is_refundable db.payments == 1
    then refund_donation_of (find_key (λ (p : Payment). p.id) payment_id refunded.payments) refunded
    else ok (false, refunded)

abbrev expires_before : ℕ → Donation → Bool
expires_before now d = elim d.expires_at [ none ↦ false | some t ↦ ltb t now ]

-- `listExpiredPending`
unfoldable pub list_expired_donations : ℕ → Db → List Donation
list_expired_donations now db =
    take 200 (find_many (λ d. is_pending_donation d && expires_before now d) db.donations)
