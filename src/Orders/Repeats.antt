-- ===== src/Orders/Repeats.antt =====
-- Repeated operations on the payment of an order (orders.repository.ts).
use udv_shop_api.Prelude.{
  ℕ, ◌+◌, ◌≤◌, ◌≡◌, refl, ◌∙◌, Bool, true, false, ◌&&◌, ltb, ◌==◌, Option, none, some, List, inl,
  inr, arith,
}
use udv_shop_api.Errors.{ok}
use udv_shop_api.Schema.{PaymentStatus, Payment, Db, enqueue}
use udv_shop_api.Table.Laws.{update_many-none, find_first_sound}
use udv_shop_api.Table.Keys.{
  update_key, count_at, find_key, count_key, update_key-Point, count_at-eq, count_at-update_key,
  find_key-update_key,
}
use udv_shop_api.Orders.{
  mark_paid, is_payable, settle, pay_order, pay_order_of, set_payment_status, stale_refund_claim_ms,
}
use udv_shop_api.Orders.Refunds.{refund, refund_order_of, is_refundable, claim_refund, is_claimable}

abbrev pub payment_id_of : Payment → ℕ
payment_id_of p = p.id

-- Writing back the payments that stand there changes nothing.
same_payments : (db : Db) (ps : List Payment) → ps ≡ db.payments → record db { payments = ps } ≡ db
same_payments db ps h = rw h

payments-pay_order_of :
    (found : Option Payment) (now : ℕ) (db : Db) (r : Option (ℕ × Bool)) (db' : Db)
    → pay_order_of found now db ≡ ok (r, db')
    → db'.payments ≡ db.payments
unfolding pay_order_of pay_order enqueue
payments-pay_order_of none now db r db' h = ground arith
payments-pay_order_of (some p) now db r db' h = ground arith

pub payments-mark_paid :
    (k : ℕ) (x : Option ℕ) (now : ℕ) (db : Db) (r : Option (ℕ × Bool)) (db' : Db)
    → mark_paid k x now db ≡ ok (r, db')
    → db'.payments ≡ update_key payment_id_of k is_payable (settle x now) db.payments
unfolding mark_paid
payments-mark_paid k x now db r db' h =
    let ps = update_key payment_id_of k is_payable (settle x now) db.payments in
    ground (
      arith,
      payments-pay_order_of (find_key payment_id_of k ps) now (record db { payments = ps }) r db',
    )

-- Nothing is payable, so `markPaid` writes nothing.
pub mark_paid-none :
    (k : ℕ) (x : Option ℕ) (now : ℕ) (db : Db)
    → count_at payment_id_of k is_payable db.payments ≡ 0
    → mark_paid k x now db ≡ ok (none, db)
unfolding mark_paid
mark_paid-none k x now db h =
    rw (h, update_many-none (λ p. p.id == k && is_payable p) (settle x now) db.payments h)

-- A payment that was marked paid once is not marked again: whatever the second delivery carries,
-- it returns `null`, and the database, outbox included, stays as the first left it.
pub mark_paid-mark_paid :
    (k : ℕ) (x y : Option ℕ) (now later : ℕ) (db : Db) (r : Option (ℕ × Bool)) (db' : Db)
    → mark_paid k x now db ≡ ok (r, db')
    → mark_paid k y later db' ≡ ok (none, db')
mark_paid-mark_paid k x y now later db r db' h = mark_paid-none k y later db' (
    rw (payments-mark_paid k x now db r db' h)
      (count_at-update_key payment_id_of k is_payable (settle x now) db.payments (λ p e. refl)))

pub payments-refund :
    (k now : ℕ) (db : Db) (r : Bool) (db' : Db)
    → refund k now db ≡ ok (r, db')
    → db'.payments
      ≡ update_key payment_id_of k is_refundable
          (set_payment_status PaymentStatus.refunded now)
          db.payments
unfolding refund refund_order_of
payments-refund k now db r db' h = ground arith

pub refund-none :
    (k now : ℕ) (db : Db)
    → count_at payment_id_of k is_refundable db.payments ≡ 0
    → refund k now db ≡ ok (false, db)
unfolding refund
refund-none k now db h = rw (
  h,
  update_many-none (λ p. p.id == k && is_refundable p)
      (set_payment_status PaymentStatus.refunded now) db.payments h,
)

-- A refund that was recorded once is not recorded again.
pub refund-refund :
    (k now later : ℕ) (db : Db) (r : Bool) (db' : Db)
    → refund k now db ≡ ok (r, db')
    → refund k later db' ≡ ok (false, db')
refund-refund k now later db r db' h = refund-none k later db' (
    rw (payments-refund k now db r db' h) (
      count_at-update_key payment_id_of k is_refundable
        (set_payment_status PaymentStatus.refunded now) db.payments (λ p e. refl)))

abbrev claim_write : ℕ → Payment → Payment
claim_write now = set_payment_status PaymentStatus.refund_pending now

find_key-claim :
    (k now : ℕ) (ps : List Payment) (p : Payment)
    → find_key payment_id_of k ps ≡ some p
    → is_claimable now p ≡ true
    → find_key payment_id_of k (update_key payment_id_of k (is_claimable now) (claim_write now) ps)
      ≡ some (claim_write now p)
find_key-claim k now ps p found t =
    rw (find_key-update_key payment_id_of k k (is_claimable now) (claim_write now) ps (λ r. refl))
      (rw (found, find_first_sound (λ r. r.id == k) ps p found, t) refl)

-- A refund claim was won, and what was done since leaves the payment as the claim wrote it: another
-- claim is won exactly when the stale window has passed since the first. (An answer of the provider
-- settles or releases the claim, and the payment is then not as it was.) Identifiers are unique.
pub claim_refund-claim_refund :
    (k now later : ℕ) (db db' : Db)
    → count_key payment_id_of k db.payments ≤ 1
    → count_key payment_id_of k db'.payments ≤ 1
    → (claim_refund k now db).0 ≡ true
    → find_key payment_id_of k db'.payments
      ≡ find_key payment_id_of k (claim_refund k now db).1.payments
    → (claim_refund k later db').0 ≡ ltb (now + stale_refund_claim_ms) later
unfolding claim_refund
claim_refund-claim_refund k now later db db' unique unique' won same =
    elim (update_key-Point payment_id_of k (is_claimable now) (claim_write now) db.payments
      unique) [
        | inl (c, kept) ↦ ground arith
        | inr (p, found, t, c, sums) ↦
            let here : find_key payment_id_of k db'.payments ≡ some (claim_write now p) =
              same ∙ find_key-claim k now db.payments p found t in
            rw
              (count_at-eq payment_id_of k (is_claimable later) db'.payments (claim_write now p)
                unique' here)
              (ground arith)
      ]
