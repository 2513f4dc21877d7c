-- ===== src/Orders/Tests.antt =====
-- A small shop, and the theorems on the life of an order at concrete inputs.
use udv_shop_api.Prelude.{
  ℕ, ◌+◌, ◌≡◌, refl, true, false, none, some, List, [], ◌∷◌, pos, arith, ◌≤◌, ltb,
}
use mathlib.Core.Bool.{xor}
use udv_shop_api.Errors.{ok, transaction}
use udv_shop_api.Schema.{
  Product, Order, Db, empty_db, enqueue, sent, PaymentProvider, ProductAvailability,
}
use udv_shop_api.Table.{find_first, sort_by, update_many}
use udv_shop_api.Table.Keys.{find_key, count_key}
use udv_shop_api.Shelf.{
  product, reserve_items, sorted_items, reserve_item, target_of, reserve_target,
}
use udv_shop_api.Orders.{
  NewOrder, new_order, new_payment, create_pending_order, one_target, pay_order,
  stale_refund_claim_ms, mark_paid,
}
use udv_shop_api.Orders.Refunds.{refund, claim_refund}
use udv_shop_api.Orders.Ops.{OrderOp, create, pay, cancel, expired, run, step}
use udv_shop_api.Orders.Conservation.{IsConsistent, run-total, total, run-IsConsistent}
use udv_shop_api.Orders.Transitions.{Later, run-Later}
use udv_shop_api.Orders.Notices.{is_notice, is_store_notice, paid_orders, run-notices}
use udv_shop_api.Orders.Repeats.{mark_paid-mark_paid, refund-refund, claim_refund-claim_refund}

-- A shop with ten shirts.
abbrev shirt : Product
shirt = record {
  id = 7;
  store_id = 1;
  slug = 70;
  name = 71;
  price_cents = 2500;
  stock = 10;
  availability = ProductAvailability.in_stock;
  active = true;
  supplier_id = none;
  payout_kind = none;
  payout_value = none;
}

abbrev pub shop : Db
shop = record empty_db {
  next_id = 100;
  shelves = record { products = shirt ∷ []; events = []; batches = [] };
}

abbrev pub two_shirts : NewOrder
two_shirts = record {
  store_id = 1;
  user_id = 2;
  provider = PaymentProvider.woovi;
  items =
      record {
        product_id = some 7;
        event_id = none;
        event_batch_id = none;
        name = 71;
        price_cents = 2500;
        qty = 2;
        supplier_id = none;
        payout_cents = 0;
      }
      ∷ [];
  total_cents = 5000;
  application_fee_cents = 250;
  provider_fee_cents = pos 50;
  contact_phone = 55;
  note = none;
  public_token = none;
  expires_at = 1000;
}

pub shop-IsConsistent : IsConsistent shop
shop-IsConsistent = record { unique = λ k. omega arith; fresh = λ k h. refl; stocked = refl }

-- Two are ordered and the order expires; two more are ordered and paid.
abbrev history : List (ℕ × OrderOp)
history =
    (10, create two_shirts)
    ∷ (2000, cancel 100 expired)
    ∷ (2100, create two_shirts)
    ∷ (2200, pay 103 (some 9))
    ∷ []

run-total_example : total (product 7) (run history shop) ≡ total (product 7) shop
run-total_example = run-total history (product 7) shop shop-IsConsistent

abbrev ordered : Db
ordered = run ((10, create two_shirts) ∷ []) shop

ordered_found : find_key (λ o. o.id) 100 ordered.orders ≡ some (new_order 100 10 two_shirts)
unfolding run step new_order find_first create_pending_order reserve_items sorted_items sort_by
    reserve_item target_of reserve_target one_target xor
ordered_found = refl

run-Later_example :
    (o' : Order) × (find_key (λ o. o.id) 100 (run ((20, pay 101 none) ∷ []) ordered).orders
      ≡ some o')
    × Later (new_order 100 10 two_shirts) o'
run-Later_example =
    run-Later ((20, pay 101 none) ∷ []) ordered 100 (new_order 100 10 two_shirts)
      (run-IsConsistent ((10, create two_shirts) ∷ []) shop shop-IsConsistent) ordered_found

run-notices_example :
    (sent (is_notice 100) (run history shop) ≡ paid_orders 100 (run history shop).orders)
    × (sent (is_store_notice 100) (run history shop) ≡ paid_orders 100 (run history shop).orders)
    × (sent (is_notice 100) (run history shop) ≤ 1)
run-notices_example = run-notices history shop 100 shop-IsConsistent refl refl

-- The shop with one order, not paid yet.
abbrev pub awaiting : Db
awaiting = record shop {
  orders = new_order 100 10 two_shirts ∷ [];
  payments = new_payment 101 100 10 two_shirts ∷ [];
}

abbrev pub settled : Db
settled = (transaction awaiting (mark_paid 101 (some 9) 20 awaiting)).1

settled_by : mark_paid 101 (some 9) 20 awaiting ≡ ok (some (100, true), settled)
unfolding mark_paid new_order new_payment update_many find_first pay_order
settled_by = refl

mark_paid_again : mark_paid 101 (some 8) 30 settled ≡ ok (none, settled)
mark_paid_again =
    mark_paid-mark_paid 101 (some 9) (some 8) 20 30 awaiting (some (100, true)) settled settled_by

abbrev paid_back : Db
paid_back = (transaction settled (refund 101 40 settled)).1

paid_back_by : refund 101 40 settled ≡ ok (true, paid_back)
unfolding mark_paid refund new_order new_payment update_many find_first pay_order enqueue
paid_back_by = refl

refund-refund_example : refund 101 50 paid_back ≡ ok (false, paid_back)
refund-refund_example = refund-refund 101 40 50 settled true paid_back paid_back_by

settled_unique : count_key (λ p. p.id) 101 settled.payments ≤ 1
unfolding mark_paid new_order new_payment update_many find_first pay_order enqueue
settled_unique = omega arith

settled_claimed : (claim_refund 101 40 settled).0 ≡ true
unfolding claim_refund mark_paid new_order new_payment update_many find_first pay_order enqueue
settled_claimed = refl

-- Another order is made after the claim.
abbrev claimed : Db
claimed = step (create two_shirts) 50 (claim_refund 101 40 settled).1

claimed_unique : count_key (λ p. p.id) 101 claimed.payments ≤ 1
unfolding step claim_refund mark_paid new_order new_payment update_many find_first pay_order enqueue
    create_pending_order reserve_items sorted_items sort_by reserve_item target_of reserve_target
    one_target xor
claimed_unique = omega arith

claimed_kept :
    find_key (λ p. p.id) 101 claimed.payments
    ≡ find_key (λ p. p.id) 101 (claim_refund 101 40 settled).1.payments
unfolding claim_refund step update_many create_pending_order mark_paid reserve_items find_first
    sorted_items pay_order sort_by enqueue reserve_item target_of reserve_target one_target xor
claimed_kept = refl

claim_refund-claim_refund_example :
    (claim_refund 101 60 claimed).0 ≡ ltb (40 + stale_refund_claim_ms) 60
claim_refund-claim_refund_example =
    claim_refund-claim_refund 101 40 60 settled claimed settled_unique claimed_unique
      settled_claimed claimed_kept
