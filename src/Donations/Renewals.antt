-- ===== src/Donations/Renewals.antt =====
-- src/http/api/donations/donations.repository.ts: the cycles of a monthly donation, and its end.
use udv_shop_api.Prelude.{
  ℕ, suc, ◌*◌, ◌/◌, Bool, true, false, not, ◌&&◌, Option, none, some, List, [], ◌∷◌, ◌++◌, ltb,
  ◌==◌, if◌then◌else◌, is_none, is_some_of,
}
use udv_shop_api.Errors.{Result, ok, err, failure}
use udv_shop_api.Schema.{
  PaymentProvider, PaymentStatus, DonationType, DonationStatus, payment_in, Payment, Donation,
  Store, Db,
}
use udv_shop_api.Table.{update_many, count_where, find_first, sort_by}
use udv_shop_api.Table.Keys.{update_key, count_at, find_key}
use udv_shop_api.Orders.{settle}
use udv_shop_api.Donations.{announce, is_pending_donation}

-- `providerInvoiceId` is unique: no second row takes it.
abbrev pub has_invoice : ℕ → Donation → Bool
has_invoice invoice_id d = is_some_of invoice_id d.provider_invoice_id

abbrev pub invoices : ℕ → List Donation → ℕ
invoices invoice_id rows = count_where (has_invoice invoice_id) rows

-- The donation that started the subscription: the oldest of its reference.
unfoldable pub anchor_of : ℕ → Db → Option Donation
anchor_of ref db =
    find_first (λ d. is_some_of ref d.subscription_ref)
      (sort_by (λ s r. ltb s.created_at r.created_at) db.donations)

abbrev pub set_first_cycle : ℕ → ℕ → Donation → Donation
set_first_cycle invoice_id now d = record d {
  status = DonationStatus.paid;
  provider_invoice_id = some invoice_id;
  paid_at = some now;
}

abbrev is_first_cycle_payment : ℕ → Payment → Bool
is_first_cycle_payment donation_id p =
    is_some_of donation_id p.donation_id
    && payment_in (PaymentStatus.pending ∷ PaymentStatus.failed ∷ PaymentStatus.expired ∷ [])
        p.status

-- The transaction of the first cycle, which pays the anchor itself. A row that already has the
-- invoice makes the update throw.
unfoldable pub pay_first_cycle : Donation → ℕ → ℕ → Db → Result (Option (ℕ × Bool) × Db)
pay_first_cycle anchor invoice_id now db =
    let claimed = record db {
      donations =
          update_key (λ (d : Donation). d.id) anchor.id is_pending_donation
            (set_first_cycle invoice_id now) db.donations;
    } in
    let paid = record claimed {
      payments =
          update_many (is_first_cycle_payment anchor.id) (settle (some invoice_id) now) db.payments;
    } in
    if count_at (λ (d : Donation). d.id) anchor.id is_pending_donation db.donations == 1
    then (if invoices invoice_id db.donations == 0
        then ok (some (anchor.id, false), announce anchor.id paid)
        else err (failure "unique_constraint"))
    else ok (none, claimed)

-- `Math.floor((amountCents * applicationFeeBps) / 10000)`
abbrev pub application_fee : ℕ → ℕ → ℕ
application_fee amount_cents bps = amount_cents * bps / 10000

abbrev cycle_donation : Donation → ℕ → ℕ → ℕ → ℕ → ℕ → Donation
cycle_donation anchor ref invoice_id amount_cents id now = record {
  id = id;
  store_id = anchor.store_id;
  campaign_id = anchor.campaign_id;
  user_id = anchor.user_id;
  kind = DonationType.monthly;
  amount_cents = amount_cents;
  status = DonationStatus.paid;
  anonymous = anchor.anonymous;
  message = anchor.message;
  subscription_ref = some ref;
  provider_invoice_id = some invoice_id;
  subscription_cancelled_at = none;
  raffle_granted = false;
  public_token = none;
  paid_at = some now;
  expires_at = none;
  created_at = now;
}

abbrev cycle_payment : ℕ → ℕ → ℕ → ℕ → ℕ → ℕ → Payment
cycle_payment id donation_id invoice_id amount_cents fee now = record {
  id = id;
  order_id = none;
  donation_id = some donation_id;
  provider = PaymentProvider.stripe;
  provider_id = some invoice_id;
  pix_br_code = none;
  pix_qr_code_url = none;
  amount_cents = amount_cents;
  application_fee_cents = fee;
  provider_fee_cents = none;
  stripe_transfer_id = none;
  status = PaymentStatus.succeeded;
  updated_at = now;
}

-- The transaction of a later cycle, a row of its own. When a row already has the invoice the
-- insertion throws, nothing is written, and the handler of the error returns `null`.
unfoldable pub pay_next_cycle : Donation → ℕ → ℕ → ℕ → ℕ → ℕ → Db → Option (ℕ × Bool) × Db
pay_next_cycle anchor ref invoice_id amount_cents fee now db =
    let inserted = record db {
      next_id = suc (suc db.next_id);
      donations =
          db.donations ++ cycle_donation anchor ref invoice_id amount_cents db.next_id now ∷ [];
      payments =
          db.payments
          ++ cycle_payment (suc db.next_id) db.next_id invoice_id amount_cents fee now ∷ [];
    } in
    if invoices invoice_id db.donations == 0
    then (some (db.next_id, true), announce db.next_id inserted)
    else (none, db)

-- What follows the reads of `markSubscriptionInvoicePaid`, once it has its anchor and its store.
unfoldable pub pay_cycle :
    Donation → Option Store → ℕ → ℕ → ℕ → ℕ → Db → Result (Option (ℕ × Bool) × Db)
pay_cycle anchor store ref invoice_id amount_cents now db =
    if is_pending_donation anchor then pay_first_cycle anchor invoice_id now db else elim store [
      | none ↦ err (failure "record_not_found")
      | some s ↦ ok (
          pay_next_cycle anchor ref invoice_id amount_cents
            (application_fee amount_cents s.application_fee_bps) now db)
    ]

-- `markSubscriptionInvoicePaid`: the donation of the cycle and whether it is a new row, or `none`.
unfoldable pub mark_subscription_invoice_paid : ℕ → ℕ → ℕ → ℕ → Db → Result (Option (ℕ × Bool) × Db)
mark_subscription_invoice_paid ref invoice_id amount_cents now db =
    if invoices invoice_id db.donations == 0
    then elim (anchor_of ref db) [
      | none ↦ ok (none, db)
      | some anchor ↦
          pay_cycle anchor (find_key (λ s. s.id) anchor.store_id db.stores) ref invoice_id
            amount_cents now db
    ]
    else ok (none, db)

unfoldable pub is_donation_subscription : ℕ → Db → Bool
is_donation_subscription ref db =
    not (is_none (find_first (λ d. is_some_of ref d.subscription_ref) db.donations))

abbrev is_live_subscription : ℕ → Donation → Bool
is_live_subscription ref d =
    is_some_of ref d.subscription_ref && is_none d.subscription_cancelled_at

-- `markSubscriptionCancelled`
unfoldable pub mark_subscription_cancelled : ℕ → ℕ → Db → Bool × Db
mark_subscription_cancelled ref now db = (
  ltb 0 (count_where (is_live_subscription ref) db.donations),
  record db {
    donations =
        update_many (is_live_subscription ref)
          (λ d. record d { subscription_cancelled_at = some now }) db.donations;
  },
)
