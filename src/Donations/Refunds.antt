-- ===== src/Donations/Refunds.antt =====
-- The refund of a donation and its entries in raffles (donations.repository.ts).
use udv_shop_api.Prelude.{
  ℕ, ◌≤◌, ◌≡◌, refl, Bool, true, false, not, ◌&&◌, ◌==◌, some, List, [], ◌∷◌, arith,
}
use udv_shop_api.Errors.{ok}
use udv_shop_api.Schema.{Payment, PaymentStatus, RaffleEntry, Raffle, Db}
use udv_shop_api.Table.{count_where, find_many, delete_many}
use udv_shop_api.Table.Laws.{find_first_sound}
use udv_shop_api.Table.Keys.{
  update_key, count_at, count_key, find_key, count_at-eq, find_key-update_key,
}
use udv_shop_api.Orders.{set_payment_status}
use udv_shop_api.Orders.Refunds.{is_refundable}
use udv_shop_api.Orders.Repeats.{payment_id_of}
use udv_shop_api.Donations.{
  refund_donation, refund_donation_of, free_donation, in_open_raffle, is_paid_donation,
}
use udv_shop_api.Donations.Cycles.{donation_id_of}

-- The entries of a donation in raffles that are open.
abbrev pub live_entry : ℕ → List Raffle → RaffleEntry → Bool
live_entry d raffles e = e.donation_id == d && in_open_raffle raffles e

count_where-delete :
    (p : RaffleEntry → Bool) (es : List RaffleEntry) → count_where p (delete_many p es) ≡ 0
unfolding delete_many find_many
count_where-delete p [] = refl
count_where-delete p (e ∷ es) = ground (arith, count_where-delete p es)

find_many-delete :
    (p q : RaffleEntry → Bool) (es : List RaffleEntry)
    → ((e : RaffleEntry) → q e ≡ true → p e ≡ false)
    → find_many q (delete_many p es) ≡ find_many q es
unfolding delete_many find_many
find_many-delete p q [] h = refl
find_many-delete p q (e ∷ es) h = ground (arith, h e, find_many-delete p q es h)

-- Freeing a donation that is paid takes back its numbers of open raffles, and no others.
free_donation-entries :
    (d : ℕ) (db : Db)
    → count_at donation_id_of d is_paid_donation db.donations ≡ 1
    → (count_where (live_entry d db.raffles) (free_donation d db).entries ≡ 0)
      × (find_many (λ e. not (live_entry d db.raffles e)) (free_donation d db).entries
          ≡ find_many (λ e. not (live_entry d db.raffles e)) db.entries)
unfolding free_donation
free_donation-entries d db h = rw h (
  count_where-delete (live_entry d db.raffles) db.entries,
  find_many-delete (live_entry d db.raffles) (λ e. not (live_entry d db.raffles e)) db.entries
      (λ e t. ground arith),
)

-- The payment that the refund reads after it wrote it.
found-refunded :
    (k now : ℕ) (ps : List Payment) (p : Payment)
    → find_key payment_id_of k ps ≡ some p
    → is_refundable p ≡ true
    → find_key payment_id_of k (
        update_key payment_id_of k is_refundable (set_payment_status PaymentStatus.refunded now) ps)
      ≡ some (set_payment_status PaymentStatus.refunded now p)
found-refunded k now ps p found t =
    rw
      (find_key-update_key payment_id_of k k is_refundable
        (set_payment_status PaymentStatus.refunded now) ps (λ r. refl))
      (rw (found, find_first_sound (λ r. r.id == k) ps p found, t) refl)

-- A refund of the payment of a paid donation succeeds, leaves the donation no number in a raffle that is
-- open, and leaves every other entry: those of other donations, and those of raffles that were drawn.
pub refund_donation-entries :
    (k now d : ℕ) (p : Payment) (db : Db)
    → count_key payment_id_of k db.payments ≤ 1
    → find_key payment_id_of k db.payments ≡ some p
    → is_refundable p ≡ true
    → p.donation_id ≡ some d
    → count_at donation_id_of d is_paid_donation db.donations ≡ 1
    → (db' : Db) × (refund_donation k now db ≡ ok (true, db'))
      × (count_where (live_entry d db.raffles) db'.entries ≡ 0)
      × (find_many (λ e. not (live_entry d db.raffles e)) db'.entries
          ≡ find_many (λ e. not (live_entry d db.raffles e)) db.entries)
unfolding refund_donation refund_donation_of
refund_donation-entries k now d p db u found t e paid =
    let refunded = record db {
      payments =
          update_key payment_id_of k is_refundable (set_payment_status PaymentStatus.refunded now)
            db.payments;
    } in
    let (gone, kept) = free_donation-entries d refunded paid in
    (
      free_donation d refunded,
      rw
          (
            count_at-eq payment_id_of k is_refundable db.payments p u found,
            t,
            found-refunded k now db.payments p found t,
            e,
          )
          refl,
      gone,
      kept,
    )
