-- ===== src/Examples/Parts.antt =====
-- The documents, the subscription of a store, the pages and the offers at concrete inputs.
use udv_shop_api.Prelude.{
  ℕ, ◌-◌, ◌≤◌, ◌≡◌, ◌≢◌, ◌⊎◌, refl, inl, max, pos, ◌≤ℤ◌, true, false, Option, none, some, List, [],
  ◌∷◌, arith, All, length, take, drop, map, get_elem?, is_none,
}
use udv_shop_api.Errors.{ok}
use udv_shop_api.Schema.{
  Store, StoreStatus, StoreSuspensionReason, WooviPixKeyStatus, WooviPixKeyVerification,
  WooviPixKeyVerificationStatus, InterestStatus, Event, EventBatch, PayoutKind, percent_bps, Db,
  empty_db, Shelves,
}
use udv_shop_api.Table.{find_many, find_first, sort_by, insert_by}
use udv_shop_api.Table.Keys.{find_key}
use udv_shop_api.TaxId.{compare_tax_id, mask_tax_id, same, digits, pattern_of, visible, star}
use udv_shop_api.TaxId.Matching.{compare_tax_id-same, compare_tax_id-mask_tax_id}
use udv_shop_api.Verification.{VerificationPayer, settle_verification}
use udv_shop_api.Verification.Decided.{Proved, settle_verification-Proved}
use udv_shop_api.Billing.{BillingObject, apply_subscription_event, StripeStatus}
use udv_shop_api.Billing.Air.{is_banned, apply_subscription_event-banned}
use udv_shop_api.Paging.{Cursor, after_cursor, CursorPage, to_page, page_rows}
use udv_shop_api.Paging.Complete.{rest_of, IsOrdered, to_page-next}
use udv_shop_api.Offers.{active_offer, batch_offer, batches_of}
use udv_shop_api.Offers.Active.{active_offer-first, Sells, Rivals}
use udv_shop_api.Interests.{convert_for_order}
use udv_shop_api.Interests.Once.{convert_for_order-convert_for_order}
use udv_shop_api.Payouts.{
  PayoutAgreement, unit_payout_cents, assert_payout_fits, normalize_payout_fields,
  woovi_retained_fee_cents,
}
use udv_shop_api.Payouts.Bounds.{normalize_payout_fields-whole, woovi_retained_fee_cents-bounds}

-- 000.***.***-91 and 00000000191
abbrev owner : List ℕ
owner = 48 ∷ 48 ∷ 48 ∷ 46 ∷ 42 ∷ 42 ∷ 42 ∷ 46 ∷ 42 ∷ 42 ∷ 42 ∷ 45 ∷ 57 ∷ 49 ∷ []

abbrev payer : List ℕ
payer = 48 ∷ 48 ∷ 48 ∷ 48 ∷ 48 ∷ 48 ∷ 48 ∷ 48 ∷ 48 ∷ 57 ∷ 49 ∷ []

same_by : compare_tax_id owner payer ≡ same
unfolding compare_tax_id pattern_of digits find_many
same_by = refl

compare_tax_id-same_example :
    (length (pattern_of owner) ≡ length (digits payer))
    × (5 ≤ visible (pattern_of owner))
    × ((i k p : ℕ)
        → get_elem? (pattern_of owner) i ≡ some k
        → get_elem? (digits payer) i ≡ some p
        → k ≢ star
        → k ≡ p)
compare_tax_id-same_example = compare_tax_id-same owner payer same_by

eleven_digits : length (digits payer) ≡ 11
unfolding digits find_many
eleven_digits = refl

compare_tax_id-mask_tax_id_example : compare_tax_id (mask_tax_id payer) payer ≡ same
compare_tax_id-mask_tax_id_example = compare_tax_id-mask_tax_id payer (inl eleven_digits)

-- A store that the platform suspended, whose Pix key is being proved.
abbrev banned_store : Store
banned_store = record {
  id = 1;
  slug = 8;
  name = 9;
  status = StoreStatus.suspended;
  suspension_reason = some StoreSuspensionReason.platform;
  application_fee_bps = 0;
  stripe_account_id = some 5;
  stripe_transfers_enabled = true;
  stripe_charges_enabled = true;
  stripe_payouts_enabled = true;
  stripe_details_submitted = true;
  woovi_pix_key = some 6;
  stripe_donation_product_id = none;
  woovi_pix_key_status = some WooviPixKeyStatus.pending;
  woovi_pix_key_verified_at = none;
}

abbrev proving : Db
proving = record empty_db {
  stores = banned_store ∷ [];
  verifications =
      record {
        id = 30;
        store_id = 1;
        pix_key = 6;
        owner_name = [];
        owner_tax_id = owner;
        status = WooviPixKeyVerificationStatus.pending;
        payer_name = none;
        payer_tax_id_masked = none;
        settled_at = none;
      }
      ∷ [];
}

abbrev who_paid : VerificationPayer
who_paid = record { name = none; tax_id = some payer }

settle_verification-Proved_example :
    ((settle_verification 30 who_paid 9 proving).1.stores ≡ proving.stores)
    ⊎ ((v : WooviPixKeyVerification) × (find_key (λ r. r.id) 30 proving.verifications ≡ some v)
        × Proved v who_paid proving)
settle_verification-Proved_example = settle_verification-Proved 30 who_paid 9 proving

abbrev renewed : BillingObject
renewed = record {
  id = some 40;
  is_subscription_mode = true;
  store_id = some 1;
  client_reference_id = none;
  customer = some 41;
  status = StripeStatus.active;
  item_price_id = none;
  item_period_end = some 100;
  period_end = none;
  cancel_at_period_end = false;
  transfers_active = true;
  charges_enabled = true;
  payouts_enabled = true;
  details_submitted = true;
}

apply_subscription_event-banned_example :
    find_many is_banned (apply_subscription_event renewed false proving).stores
    ≡ find_many is_banned proving.stores
apply_subscription_event-banned_example = apply_subscription_event-banned renewed false proving

-- Three rows, newest first, two to a page.
abbrev row : ℕ → ℕ → Cursor
row t id = record { created_at = t; id = id }

abbrev three : List Cursor
three = row 9 1 ∷ row 7 5 ∷ row 7 2 ∷ []

abbrev first_page : CursorPage ℕ
first_page = record { items = 1 ∷ 5 ∷ []; next_cursor = some (row 7 5) }

first_page_by : to_page (page_rows (λ c. c) none 2 three) 2 (λ c. c) (λ c. c.id) ≡ ok first_page
unfolding to_page page_rows
first_page_by = refl

three-IsOrdered : IsOrdered (λ c. c) three
unfolding after_cursor
three-IsOrdered = ((refl, (refl, tt)), ((refl, tt), (tt, tt)))

to_page-next_example :
    (first_page.items ≡ map (λ c. c.id) (take 2 (rest_of (λ c. c) none three)))
    × ((d : Cursor)
        → first_page.next_cursor ≡ some d
        → rest_of (λ c. c) (some d) three ≡ drop 2 (rest_of (λ c. c) none three))
    × (first_page.next_cursor ≡ none → length (rest_of (λ c. c) none three) ≤ 2)
to_page-next_example =
    to_page-next (λ c. c) (λ c. c.id) none 2 three first_page three-IsOrdered first_page_by

-- Two batches, the first one sold out.
abbrev first_batch : EventBatch
first_batch = record {
  id = 1;
  event_id = 4;
  name = 1;
  position = 0;
  price_cents = 3000;
  seats = 0;
  opens_at = none;
  closes_at = none;
}

abbrev second_batch : EventBatch
second_batch = record first_batch { id = 2; position = 1; price_cents = 4000; seats = 5 }

abbrev workshop : Event
workshop = record {
  id = 4;
  store_id = 1;
  slug = 2;
  name = 3;
  price_cents = 5000;
  seats = 0;
  starts_at = 900;
  ends_at = none;
  active = true;
  supplier_id = none;
  payout_kind = none;
  payout_value = none;
}

-- The table has them out of order.
abbrev batch_rows : Shelves
batch_rows = record { products = []; events = []; batches = second_batch ∷ first_batch ∷ [] }

offered : (active_offer 10 workshop (batches_of workshop batch_rows)).batch ≡ some second_batch
unfolding active_offer batch_offer find_first batches_of find_many sort_by insert_by
offered = refl

active_offer-first_example :
    Sells 10 second_batch
    × ((active_offer 10 workshop (batches_of workshop batch_rows)).price_cents
        ≡ second_batch.price_cents)
    × ((active_offer 10 workshop (batches_of workshop batch_rows)).seats ≡ second_batch.seats)
    × All (λ x. ¬ Rivals 10 workshop second_batch x) batch_rows.batches
active_offer-first_example = active_offer-first 10 workshop batch_rows second_batch offered

abbrev wanted : Db
wanted = record empty_db {
  interests =
      record {
        id = 1;
        product_id = some 7;
        event_id = none;
        user_id = 2;
        qty = 1;
        note = none;
        status = InterestStatus.notified;
        notified_at = some 3;
      }
      ∷ [];
}

convert_for_order-convert_for_order_example :
    convert_for_order 2 (7 ∷ []) [] (convert_for_order 2 (7 ∷ []) [] wanted).1
    ≡ (0, (convert_for_order 2 (7 ∷ []) [] wanted).1)
convert_for_order-convert_for_order_example =
    convert_for_order-convert_for_order 2 (7 ∷ []) [] wanted

abbrev agreement : PayoutAgreement
agreement = record { price_cents = 1000; payout_kind = some percent_bps; payout_value = some 9000 }

agreement_fits : assert_payout_fits agreement 500 ≡ ok tt
unfolding assert_payout_fits
agreement_fits = refl

abbrev supplier : Option ℕ
supplier = some 3

abbrev percent : Option PayoutKind
percent = some percent_bps

abbrev ninety : Option ℕ
ninety = some 9000

accepted : normalize_payout_fields supplier percent ninety ≡ ok (supplier, percent, ninety)
unfolding normalize_payout_fields
accepted = refl

normalize_payout_fields-whole_example :
    ((supplier ≡ supplier) × (percent ≡ percent) × (ninety ≡ ninety))
    × (is_none supplier ≡ is_none percent)
    × (is_none percent ≡ is_none ninety)
    × (unit_payout_cents agreement ≤ 1000)
normalize_payout_fields-whole_example =
    normalize_payout_fields-whole 1000 supplier supplier percent percent ninety ninety accepted

woovi_retained_fee_cents-bounds_example :
    (pos 1 ≤ℤ woovi_retained_fee_cents 50 85)
    × (woovi_retained_fee_cents 50 85 ≤ℤ pos (50 - 1))
    × (woovi_retained_fee_cents 50 85 ≤ℤ pos (max 85 1))
woovi_retained_fee_cents-bounds_example = woovi_retained_fee_cents-bounds 50 85 (omega arith)
