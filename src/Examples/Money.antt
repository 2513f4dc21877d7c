-- ===== src/Examples/Money.antt =====
-- Donations, payments, the checkout and the events of providers at concrete inputs.
use udv_shop_api.Prelude.{
  ℕ, ◌≤◌, ◌≡◌, refl, true, false, not, none, some, List, [], ◌∷◌, pos, arith,
}
use udv_shop_api.Errors.{ok, err, done, transaction, failure}
use udv_shop_api.Schema.{
  Donation, DonationType, DonationStatus, Payment, PaymentStatus, PaymentProvider, Store,
  StoreStatus, ProductAvailability, Raffle, RaffleStatus, Db, empty_db, WebhookEventStatus,
}
use udv_shop_api.Table.{update_many, find_first, find_many, count_where, sort_by}
use udv_shop_api.Table.Keys.{find_key, count_key}
use udv_shop_api.Shelf.{product}
use udv_shop_api.Orders.Ops.{OrderOp, run}
use udv_shop_api.Orders.Conservation.{IsConsistent, total}
use udv_shop_api.Donations.{
  NewDonation, new_donation, donation_payment, refund_donation, refund_donation_of, free_donation,
  mark_donation_paid, pay_donation, pay_donation_of,
}
use udv_shop_api.Donations.Renewals.{
  mark_subscription_invoice_paid, pay_cycle, pay_first_cycle, anchor_of,
}
use udv_shop_api.Donations.Cycles.{Outcome, mark_subscription_invoice_paid-twice, pay_cycle-Outcome}
use udv_shop_api.Donations.Refunds.{live_entry, refund_donation-entries}
use udv_shop_api.Donations.Repeats.{refund_donation-refund_donation}
use udv_shop_api.Routing.{mark_payment_paid, aggregate_of, mark_kind_paid}
use udv_shop_api.Routing.Settles.{mark_payment_paid-mark_payment_paid}
use udv_shop_api.Checkout.{Cart, PaymentGateways, checkout, product_slug}
use udv_shop_api.Checkout.Refines.{checkout-total}
use udv_shop_api.Webhooks.{Inbox, woovi, charge_completed, process_webhook_events}
use udv_shop_api.Webhooks.Once.{process_webhook_events-twice, event_id_of}

abbrev twenty : NewDonation
twenty = record {
  store_id = 1;
  campaign_id = some 3;
  user_id = 2;
  kind = DonationType.monthly;
  amount_cents = 2000;
  anonymous = false;
  message = none;
  public_token = none;
  expires_at = none;
  provider = PaymentProvider.stripe;
  application_fee_cents = 0;
  provider_fee_cents = none;
}

-- A monthly donation that waits for its first invoice.
abbrev anchor : Donation
anchor = record (new_donation 10 5 twenty) { subscription_ref = some 77 }

abbrev subscribed : Db
subscribed = record empty_db {
  next_id = 100;
  donations = anchor ∷ [];
  payments = donation_payment 11 10 5 twenty ∷ [];
}

abbrev first_cycle : Db
first_cycle = (transaction subscribed (mark_subscription_invoice_paid 77 900 2000 30 subscribed)).1

first_cycle_by :
    mark_subscription_invoice_paid 77 900 2000 30 subscribed ≡ ok (some (10, false), first_cycle)
unfolding mark_subscription_invoice_paid anchor_of sort_by find_first pay_cycle pay_first_cycle
    update_many
first_cycle_by = refl

subscribed_unique : (k : ℕ) → count_key (λ d. d.id) k subscribed.donations ≤ 1
subscribed_unique k = ground arith

mark_subscription_invoice_paid-twice_example :
    mark_subscription_invoice_paid 77 900 2000 40 first_cycle ≡ ok (none, first_cycle)
mark_subscription_invoice_paid-twice_example =
    mark_subscription_invoice_paid-twice 77 900 2000 30 40 subscribed (some (10, false)) first_cycle
      subscribed_unique first_cycle_by

pay_cycle-Outcome_example : Outcome 900 subscribed (pay_cycle anchor none 77 900 2000 30 subscribed)
pay_cycle-Outcome_example =
    pay_cycle-Outcome anchor none 77 900 2000 30 subscribed (subscribed_unique 10)

-- A donation that was paid, with a number in a raffle that is open.
abbrev raffle : Raffle
raffle = record {
  id = 50;
  campaign_id = 3;
  sequence = 1;
  title = 4;
  cents_per_number = 1000;
  starts_at = 0;
  ends_at = none;
  draw_at = none;
  status = RaffleStatus.open_entries;
  seed = none;
  drawn_at = none;
  next_number = 2;
}

abbrev paid_payment : Payment
paid_payment = record (donation_payment 11 10 5 twenty) { status = PaymentStatus.succeeded }

abbrev with_number : Db
with_number = record empty_db {
  next_id = 100;
  donations = record anchor { status = DonationStatus.paid; raffle_granted = true } ∷ [];
  payments = paid_payment ∷ [];
  raffles = raffle ∷ [];
  entries = record { id = 60; raffle_id = 50; donation_id = 10; user_id = 2; number = 1 } ∷ [];
}

found_paid : find_key (λ p. p.id) 11 with_number.payments ≡ some paid_payment
unfolding find_first
found_paid = refl

refund_donation-entries_example :
    (db' : Db) × (refund_donation 11 40 with_number ≡ ok (true, db'))
    × (count_where (live_entry 10 with_number.raffles) db'.entries ≡ 0)
    × (find_many (λ e. not (live_entry 10 with_number.raffles e)) db'.entries
        ≡ find_many (λ e. not (live_entry 10 with_number.raffles e)) with_number.entries)
refund_donation-entries_example =
    refund_donation-entries 11 40 10 paid_payment with_number (omega arith) found_paid refl refl
      refl

abbrev refunded : Db
refunded = (transaction with_number (refund_donation 11 40 with_number)).1

refunded_by : refund_donation 11 40 with_number ≡ ok (true, refunded)
unfolding refund_donation refund_donation_of free_donation update_many find_first
refunded_by = refl

refund_donation-refund_donation_example : refund_donation 11 50 refunded ≡ ok (false, refunded)
refund_donation-refund_donation_example =
    refund_donation-refund_donation 11 40 50 with_number true refunded refunded_by

abbrev told : Db
told = (mark_payment_paid 11 (some 900) 30 subscribed).1

told_by : mark_payment_paid 11 (some 900) 30 subscribed ≡ done told
unfolding mark_payment_paid aggregate_of mark_kind_paid mark_donation_paid pay_donation_of
    pay_donation find_first update_many
told_by = refl

mark_payment_paid-mark_payment_paid_example : mark_payment_paid 11 none 60 told ≡ done told
mark_payment_paid-mark_payment_paid_example =
    mark_payment_paid-mark_payment_paid 11 (some 900) none 30 60 subscribed told told_by

-- Gateways that refuse every charge.
abbrev refusing : PaymentGateways
refusing = record {
  create_payment_intent = λ amount p. err (failure "down");
  create_charge = λ amount p split. err (failure "down");
}

abbrev cart : Cart
cart = record {
  store_slug = 8;
  user_id = 2;
  provider = PaymentProvider.stripe;
  items = record { target = product_slug 70; qty = 2 } ∷ [];
  contact_phone = 55;
  note = none;
  public_token = none;
}

abbrev store : Store
store = record {
  id = 1;
  slug = 8;
  name = 9;
  status = StoreStatus.active;
  suspension_reason = none;
  application_fee_bps = 0;
  stripe_account_id = some 5;
  stripe_transfers_enabled = true;
  stripe_charges_enabled = true;
  stripe_payouts_enabled = true;
  stripe_details_submitted = true;
  woovi_pix_key = none;
  stripe_donation_product_id = none;
  woovi_pix_key_status = none;
  woovi_pix_key_verified_at = none;
}

abbrev open_shop : Db
open_shop = record empty_db {
  next_id = 100;
  stores = store ∷ [];
  shelves = record {
    products =
        record {
          id = 7;
          store_id = 1;
          slug = 70;
          name = 71;
          price_cents = 2500;
          stock = 10;
          availability = ProductAvailability.in_stock;
          active = true;
          supplier_id = none;
          payout_kind = none;
          payout_value = none;
        }
        ∷ [];
    events = [];
    batches = [];
  };
}

open_shop-IsConsistent : IsConsistent open_shop
open_shop-IsConsistent = record { unique = λ k. omega arith; fresh = λ k h. refl; stocked = refl }

-- The order is placed, its charge is refused, and it is given up.
checkout-total_example :
    ((ops : List (ℕ × OrderOp)) × (run ops open_shop
        ≡ (checkout (λ a b. a) 85 refusing 10 cart open_shop).1))
    × (total (product 7) (checkout (λ a b. a) 85 refusing 10 cart open_shop).1
        ≡ total (product 7) open_shop)
checkout-total_example =
    checkout-total (λ a b. a) 85 refusing 10 cart (product 7) open_shop open_shop-IsConsistent

-- A Pix payment of the donation, as Woovi tells it.
abbrev inbox : Inbox
inbox = record {
  events =
      record {
        id = 1;
        payload = woovi (record {
          kind = charge_completed;
          payment_id = some 11;
          fee = some (pos 85);
          payer = record { name = none; tax_id = none };
        });
        status = WebhookEventStatus.received;
        processed_at = none;
        error = none;
      }
      ∷ [];
  db = subscribed;
}

process_webhook_events-twice_example :
    (process_webhook_events (some 1) 40 (process_webhook_events (some 1) 30 inbox).1
      ≡ (0, (process_webhook_events (some 1) 30 inbox).1))
    × (find_key event_id_of 1
          (process_webhook_events none 40 (process_webhook_events (some 1) 30 inbox).1).1.events
        ≡ find_key event_id_of 1 (process_webhook_events (some 1) 30 inbox).1.events)
process_webhook_events-twice_example = process_webhook_events-twice 1 30 40 none inbox (omega arith)
