-- ===== src/Donations/Repeats.antt =====
-- Repeated payments and refunds of a donation (donations.repository.ts).
use udv_shop_api.Prelude.{ℕ, ◌≡◌, refl, Bool, false, ◌&&◌, ◌==◌, Option, none, some, arith}
use udv_shop_api.Errors.{ok}
use udv_shop_api.Schema.{PaymentStatus, Payment, Db, enqueue}
use udv_shop_api.Table.Laws.{update_many-none}
use udv_shop_api.Table.Keys.{update_key, count_at, find_key, count_at-update_key}
use udv_shop_api.Orders.{is_payable, settle, set_payment_status}
use udv_shop_api.Orders.Refunds.{is_refundable}
use udv_shop_api.Orders.Repeats.{payment_id_of}
use udv_shop_api.Donations.{
  mark_donation_paid, pay_donation_of, pay_donation, refund_donation, refund_donation_of,
  free_donation,
}

payments-pay_donation_of :
    (found : Option Payment) (now : ℕ) (db : Db) (r : Option (ℕ × Bool)) (db' : Db)
    → pay_donation_of found now db ≡ ok (r, db')
    → db'.payments ≡ db.payments
unfolding pay_donation_of pay_donation enqueue
payments-pay_donation_of none now db r db' h = ground arith
payments-pay_donation_of (some p) now db r db' h = ground arith

pub payments-mark_donation_paid :
    (k : ℕ) (x : Option ℕ) (now : ℕ) (db : Db) (r : Option (ℕ × Bool)) (db' : Db)
    → mark_donation_paid k x now db ≡ ok (r, db')
    → db'.payments ≡ update_key payment_id_of k is_payable (settle x now) db.payments
unfolding mark_donation_paid
payments-mark_donation_paid k x now db r db' h =
    let ps = update_key payment_id_of k is_payable (settle x now) db.payments in
    ground (
      arith,
      payments-pay_donation_of (find_key payment_id_of k ps) now (record db { payments = ps }) r
          db',
    )

pub mark_donation_paid-none :
    (k : ℕ) (x : Option ℕ) (now : ℕ) (db : Db)
    → count_at payment_id_of k is_payable db.payments ≡ 0
    → mark_donation_paid k x now db ≡ ok (none, db)
unfolding mark_donation_paid
mark_donation_paid-none k x now db h =
    rw (h, update_many-none (λ p. p.id == k && is_payable p) (settle x now) db.payments h)

payments-refund_donation :
    (k now : ℕ) (db : Db) (r : Bool) (db' : Db)
    → refund_donation k now db ≡ ok (r, db')
    → db'.payments
      ≡ update_key payment_id_of k is_refundable
          (set_payment_status PaymentStatus.refunded now)
          db.payments
unfolding refund_donation refund_donation_of free_donation
payments-refund_donation k now db r db' h = ground arith

refund_donation-none :
    (k now : ℕ) (db : Db)
    → count_at payment_id_of k is_refundable db.payments ≡ 0
    → refund_donation k now db ≡ ok (false, db)
unfolding refund_donation
refund_donation-none k now db h = rw (
  h,
  update_many-none (λ p. p.id == k && is_refundable p)
      (set_payment_status PaymentStatus.refunded now) db.payments h,
)

-- A refund of a donation that was recorded once is not recorded again.
pub refund_donation-refund_donation :
    (k now later : ℕ) (db : Db) (r : Bool) (db' : Db)
    → refund_donation k now db ≡ ok (r, db')
    → refund_donation k later db' ≡ ok (false, db')
refund_donation-refund_donation k now later db r db' h = refund_donation-none k later db' (
    rw (payments-refund_donation k now db r db' h) (
      count_at-update_key payment_id_of k is_refundable
        (set_payment_status PaymentStatus.refunded now) db.payments (λ p e. refl)))
