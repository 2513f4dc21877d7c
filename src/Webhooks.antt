-- ===== src/Webhooks.antt =====
-- src/workers/webhook-processor.ts: what an event of a provider does. A payload is the fields of
-- it that the code reads; a text that is absent, or is not a text, is `none`.
use udv_shop_api.Prelude.{
  ℕ, suc, ◌+◌, ℤ, Bool, true, false, not, ◌&&◌, ◌||◌, Option, none, some, List, [], ◌∷◌, ◌++◌, ◌==◌,
  if◌then◌else◌, is_none, take,
}
pub mod Once
use udv_shop_api.Errors.{AppError, Result, Effects, done, and_then, commit}
use udv_shop_api.Schema.{WebhookEventStatus, PaymentStatus, Db}
use udv_shop_api.Table.{find_many, update_first}
use udv_shop_api.Donations.Renewals.{
  is_donation_subscription, mark_subscription_invoice_paid, mark_subscription_cancelled,
}
use udv_shop_api.Payouts.{is_given}
use udv_shop_api.Routing.{
  mark_payment_paid, cancel_payment_aggregate, refund_payment_by_payment_id,
  refund_payment_by_provider_id, record_provider_fee, enqueue_stripe_transfer,
  enqueue_stripe_transfer_for_invoice, enqueue_woovi_withdraw,
}
use udv_shop_api.Billing.{
  BillingObject, apply_checkout_completed, apply_subscription_event, apply_account_updated,
}
use udv_shop_api.Verification.{VerificationPayer, settle_verification}

pub data StripeType : Type 0 where
  payment_intent_succeeded payment_intent_canceled payment_intent_payment_failed : StripeType
  charge_refunded invoice_paid account_updated checkout_session_completed : StripeType
  subscription_created subscription_updated subscription_deleted other_type : StripeType

pub record StripeEvent : Type 0 where
  pub kind : StripeType
  pub from_connected_account : Bool
  pub object : BillingObject
  pub payment_id : Option ℕ
  pub parent_subscription : Option ℕ
  pub subscription : Option ℕ
  pub amount_paid : Option ℕ
  pub latest_charge : Option ℕ
  pub payment_intent : Option ℕ
  pub invoice : Option ℕ

pub data WooviType : Type 0 where
  charge_completed charge_expired charge_refund other_type : WooviType

-- `payment_id` is the correlation identifier, when it is a UUID.
pub record WooviEvent : Type 0 where
  pub kind : WooviType
  pub payment_id : Option ℕ
  pub fee : Option ℤ
  pub payer : VerificationPayer

pub data Payload : Type 0 where
  stripe : StripeEvent → Payload
  woovi : WooviEvent → Payload

pub record WebhookEvent : Type 0 where
  pub id : ℕ
  pub payload : Payload
  pub status : WebhookEventStatus
  pub processed_at : Option ℕ
  pub error : Option AppError

-- `subscriptionRefOf`
unfoldable pub subscription_ref_of : StripeEvent → Option ℕ
subscription_ref_of e = elim e.parent_subscription [ some s ↦ some s | none ↦ e.subscription ]

abbrev is_subscription_type : StripeType → Bool
is_subscription_type subscription_created = true
is_subscription_type subscription_updated = true
is_subscription_type subscription_deleted = true
is_subscription_type _ = false

abbrev or_id : Option ℕ → Bool → Option ℕ → Option ℕ
or_id (some s) is_subscription id = some s
or_id none true id = id
or_id none false id = none

-- The subscription that an event is of.
unfoldable pub subscription_id_of : StripeEvent → Option ℕ
unfolding subscription_ref_of
subscription_id_of e = or_id (subscription_ref_of e) (is_subscription_type e.kind) e.object.id

abbrev is_donation_of : Option ℕ → Db → Bool
is_donation_of none db = false
is_donation_of (some s) db = is_donation_subscription s db

-- Whether the subscription of an event is of a donation.
unfoldable pub is_donation_event : StripeEvent → Db → Bool
unfolding subscription_id_of
is_donation_event e db = is_donation_of (subscription_id_of e) db

-- `payment_intent.succeeded` of a payment, and its transfer.
unfoldable pub on_succeeded : ℕ → StripeEvent → ℕ → Db → Effects Db
on_succeeded payment_id e now db = and_then (mark_payment_paid payment_id e.object.id now db) (λ db.
    elim e.latest_charge [
      | none ↦ done db
      | some charge ↦ done (enqueue_stripe_transfer payment_id charge db)
    ])

abbrev given_id : Option ℕ → Option ℕ
given_id none = none
given_id (some k) = if is_given (some k) then some k else none

abbrev listed : Option ℕ → List ℕ
listed none = []
listed (some k) = k ∷ []

-- `invoice.paid` of a donation: the cycle, and its transfer.
unfoldable pub on_invoice : Option ℕ → Option ℕ → Option ℕ → ℕ → Db → Effects Db
on_invoice (some ref) (some invoice) (some amount) now db =
    and_then (commit db (mark_subscription_invoice_paid ref invoice amount now db))
      (λ db. done (enqueue_stripe_transfer_for_invoice invoice db))
on_invoice _ _ _ now db = done db

abbrev on_payment : (ℕ → Db → Effects Db) → Option ℕ → Db → Effects Db
on_payment f none db = done db
on_payment f (some p) db = f p db

-- What is left for the subscription of the store itself.
unfoldable pub on_store_subscription : StripeEvent → Bool → Db → Effects Db
on_store_subscription e is_donation db =
    if not e.from_connected_account && (not is_donation && is_subscription_type e.kind)
    then done (
        apply_subscription_event e.object (elim e.kind [ subscription_deleted ↦ true | _ ↦ false ])
          db)
    else done db

abbrev on_deleted : Option ℕ → StripeEvent → Bool → ℕ → Db → Effects Db
on_deleted none e is_donation now db = on_store_subscription e is_donation db
on_deleted (some id) e is_donation now db =
    if is_donation
    then done (mark_subscription_cancelled id now db).1
    else on_store_subscription e is_donation db

-- The branches of a Stripe event.
unfoldable pub on_stripe_of : StripeType → StripeEvent → ℕ → Db → Effects Db
on_stripe_of payment_intent_succeeded e now db =
    on_payment (λ p db. on_succeeded p e now db) (given_id e.payment_id) db
on_stripe_of payment_intent_canceled e now db =
    on_payment (λ p db. cancel_payment_aggregate p PaymentStatus.failed now db)
      (given_id e.payment_id) db
on_stripe_of payment_intent_payment_failed e now db = done db
on_stripe_of charge_refunded e now db =
    refund_payment_by_provider_id (listed e.payment_intent ++ listed e.invoice) now db
on_stripe_of invoice_paid e now db =
    if is_donation_event e db
    then on_invoice (given_id (subscription_ref_of e)) e.object.id e.amount_paid now db
    else done db
on_stripe_of account_updated e now db = done (apply_account_updated e.object db).1
on_stripe_of checkout_session_completed e now db =
    if e.from_connected_account then done db else done (apply_checkout_completed e.object db)
on_stripe_of subscription_deleted e now db =
    on_deleted (given_id e.object.id) e (is_donation_event e db) now db
on_stripe_of subscription_created e now db = on_store_subscription e (is_donation_event e db) db
on_stripe_of subscription_updated e now db = on_store_subscription e (is_donation_event e db) db
on_stripe_of other_type e now db = done db

unfoldable pub on_stripe : StripeEvent → ℕ → Db → Effects Db
unfolding on_stripe_of
on_stripe e now db = on_stripe_of e.kind e now db

abbrev record_fee : Option ℤ → ℕ → ℕ → Db → Db
record_fee none payment_id now db = db
record_fee (some fee) payment_id now db = record_provider_fee payment_id fee now db

-- A Pix charge that was paid: of a verification, or else of a payment.
unfoldable pub on_woovi_paid : ℕ → WooviEvent → ℕ → Db → Effects Db
on_woovi_paid payment_id e now db =
    let (is_verification, settled) = settle_verification payment_id e.payer now db in
    if is_verification
    then done settled
    else and_then (mark_payment_paid payment_id none now (record_fee e.fee payment_id now settled))
        (λ db. done (enqueue_woovi_withdraw payment_id db))

unfoldable pub on_woovi_of : WooviType → ℕ → WooviEvent → ℕ → Db → Effects Db
unfolding on_woovi_paid
on_woovi_of charge_completed payment_id e now db = on_woovi_paid payment_id e now db
on_woovi_of charge_expired payment_id e now db =
    cancel_payment_aggregate payment_id PaymentStatus.expired now db
on_woovi_of charge_refund payment_id e now db = refund_payment_by_payment_id payment_id now db
on_woovi_of WooviType.other_type payment_id e now db = done db

unfoldable pub on_woovi : WooviEvent → ℕ → Db → Effects Db
unfolding on_woovi_of
on_woovi e now db = on_payment (λ p db. on_woovi_of e.kind p e now db) e.payment_id db

unfoldable pub on_payload : Payload → ℕ → Db → Effects Db
unfolding on_stripe on_woovi
on_payload (stripe e) now db = on_stripe e now db
on_payload (woovi e) now db = on_woovi e now db

abbrev pub is_received : WebhookEvent → Bool
is_received e = elim e.status [ WebhookEventStatus.received ↦ true | _ ↦ false ]

abbrev pub set_processed : ℕ → WebhookEvent → WebhookEvent
set_processed now e = record e { status = WebhookEventStatus.processed; processed_at = some now }

abbrev pub set_failed : AppError → WebhookEvent → WebhookEvent
set_failed error e = record e { status = WebhookEventStatus.failed; error = some error }

-- The events that a provider delivered, and the database.
pub record Inbox : Type 0 where
  pub events : List WebhookEvent
  pub db : Db

abbrev pub mark_event : ℕ → (WebhookEvent → WebhookEvent) → List WebhookEvent → List WebhookEvent
mark_event id f events = update_first (λ e. e.id == id) f events

-- One event: what it wrote before an error stays, and the event is marked either way.
abbrev pub finish_event : WebhookEvent → ℕ → List WebhookEvent → Effects Db → ℕ × Inbox
finish_event e now events (none, db) =
    (1, record { events = mark_event e.id (set_processed now) events; db = db })
finish_event e now events (some error, db) =
    (0, record { events = mark_event e.id (set_failed error) events; db = db })

-- The loop over the events that were read.
unfoldable pub process_all : ℕ → List WebhookEvent → Inbox → ℕ × Inbox
process_all now [] s = (0, s)
process_all now (e ∷ es) s =
    let (n, s') = finish_event e now s.events (on_payload e.payload now s.db) in
    let (m, s'') = process_all now es s' in (n + m, s'')

-- `processWebhookEvents`: of one event that was just stored, or of the first 50.
unfoldable pub process_webhook_events : Option ℕ → ℕ → Inbox → ℕ × Inbox
unfolding process_all
process_webhook_events none now s = process_all now (take 50 (find_many is_received s.events)) s
process_webhook_events (some id) now s =
    process_all now (take 1 (find_many (λ e. e.id == id && is_received e) s.events)) s
