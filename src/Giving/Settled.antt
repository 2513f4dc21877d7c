-- ===== src/Giving/Settled.antt =====
-- What a donation that was asked for leaves pending (create-donation.service.ts).
use udv_shop_api.Prelude.{
  ℕ, suc, ◌≡◌, refl, ◌∙◌, Bool, true, false, ◌&&◌, [], ◌∷◌, inl, inr, arith, ◌==◌, ==_refl,
  if◌then◌else◌, is_some_of,
}
use udv_shop_api.Errors.{Result, ok, err, Result-cases}
use udv_shop_api.Schema.{Store, Donation, DonationStatus, Payment, PaymentStatus, payment_in, Db}
use udv_shop_api.Table.Laws.{sum_of-update_shift}
use udv_shop_api.Orders.{set_payment_status}
use udv_shop_api.Donations.{
  NewDonation, new_donation, donation_payment, create_pending_donation, compensate_failed_donation,
  cancel_pending_donation, is_pending_donation, set_donation_status,
}
use udv_shop_api.Giving.{
  Gift, DonationGateways, give, prepare_donation, place_donation, charge_gift, after_gift,
}
use udv_shop_api.Giving.Writes.{
  count_where-append, is_open_payment, pending_donations, pending_payments, pending_at,
  open_payments, Quiet,
}
use udv_shop_api.Giving.Quiet.{charge_gift-Quiet}

-- What a donation that was asked for leaves: one more donation and one more payment that wait when
-- it is answered, which are its own, and none more when it is refused.
abbrev pub Settles : Db → Result ℕ × Db → Type 0
Settles db (ok k, db') =
    (pending_donations db' ≡ suc (pending_donations db))
    × (pending_payments db' ≡ suc (pending_payments db))
    × (pending_at k db' ≡ 1)
    × (open_payments k db' ≡ 1)
Settles db (err e, db') =
    (pending_donations db' ≡ pending_donations db) × (pending_payments db' ≡ pending_payments db)

-- The database that has just received the pending donation `k`.
record Opened (k : ℕ) (db db' : Db) : Type 0 where
  donations : pending_donations db' ≡ suc (pending_donations db)
  donation : pending_at k db' ≡ 1
  payments : pending_payments db' ≡ suc (pending_payments db)
  payment : open_payments k db' ≡ 1

create_pending_donation-Opened :
    (now : ℕ) (d : NewDonation) (db : Db)
    → pending_at db.next_id db ≡ 0
    → open_payments db.next_id db ≡ 0
    → Opened db.next_id db (create_pending_donation now d db).1
unfolding create_pending_donation
create_pending_donation-Opened now d db z y = record {
  donations = ground (
    arith,
    count_where-append is_pending_donation db.donations (new_donation db.next_id now d ∷ []),
  );
  donation = ground (
    arith,
    count_where-append (λ (d : Donation). d.id == db.next_id && is_pending_donation d) db.donations
        (new_donation db.next_id now d ∷ []),
    ==_refl db.next_id,
  );
  payments = ground (
    arith,
    count_where-append is_open_payment db.payments
        (donation_payment (suc db.next_id) db.next_id now d ∷ []),
  );
  payment = ground (
    arith,
    count_where-append
        (λ (p : Payment).
          is_some_of db.next_id p.donation_id && payment_in (PaymentStatus.pending ∷ []) p.status)
        db.payments (donation_payment (suc db.next_id) db.next_id now d ∷ []),
    ==_refl db.next_id,
  );
}

-- Giving up a donation takes away exactly what it left waiting.
compensate_failed_donation-Opened :
    (k now : ℕ) (a db : Db)
    → Opened k a db
    → (pending_donations (compensate_failed_donation k now db) ≡ pending_donations a)
      × (pending_payments (compensate_failed_donation k now db) ≡ pending_payments a)
unfolding compensate_failed_donation cancel_pending_donation
compensate_failed_donation-Opened k now a db o =
    rw (compensate_failed_donation, cancel_pending_donation, o.donation)
      (
        ground (
          arith,
          o.donations,
          o.donation,
          sum_of-update_shift (λ (d : Donation). if is_pending_donation d then 1 else 0)
              (λ d. if d.id == k && is_pending_donation d then 1 else 0)
              (λ d. d.id == k && is_pending_donation d)
              (set_donation_status DonationStatus.cancelled) db.donations (λ d t. ground arith)
              (λ d t. ground arith),
        ),
        ground (
          arith,
          o.payments,
          o.payment,
          sum_of-update_shift (λ (p : Payment). if is_open_payment p then 1 else 0)
              (λ p.
                if is_some_of k p.donation_id && payment_in (PaymentStatus.pending ∷ []) p.status
                then 1
                else 0)
              (λ (p : Payment).
                is_some_of k p.donation_id && payment_in (PaymentStatus.pending ∷ []) p.status)
              (set_payment_status PaymentStatus.failed now) db.payments (λ p t. ground arith)
              (λ p t. ground arith),
        ),
      )

module _ (woovi_fee_fixed_cents : ℕ) (g : DonationGateways) where
  Opened-Quiet : (k : ℕ) (a b c : Db) → Opened k a b → Quiet k b c → Opened k a c
  Opened-Quiet k a b c o q = record {
    donations = q.donations ∙ o.donations;
    donation = q.donation ∙ o.donation;
    payments = q.payments ∙ o.payments;
    payment = q.payment ∙ o.payment;
  }

  settled : (k now : ℕ) (a : Db) (r : Bool × Db) → Opened k a r.1 → Settles a (after_gift k now r)
  settled k now a (true, db) o = (o.donations, o.payments, o.donation, o.payment)
  settled k now a (false, db) o = compensate_failed_donation-Opened k now a db o

  place_donation-Settles :
      (store : Store) (gift : Gift) (d : NewDonation) (now : ℕ) (db : Db)
      → pending_at db.next_id db ≡ 0
      → open_payments db.next_id db ≡ 0
      → Settles db (place_donation woovi_fee_fixed_cents g store gift d now db)
  unfolding place_donation create_pending_donation
  place_donation-Settles store gift d now db z y =
      let created = (create_pending_donation now d db).1 in
      let k = db.next_id in
      let r = charge_gift woovi_fee_fixed_cents g store gift d k (suc k) now created in
      settled k now db r (
        Opened-Quiet k db created r.1 (create_pending_donation-Opened now d db z y)
          (charge_gift-Quiet woovi_fee_fixed_cents g store gift d k (suc k) now k created))

  -- Whatever the providers answer, asking for a donation leaves exactly one more donation and one
  -- more payment pending when an identifier is answered, which are that donation and its payment,
  -- and none more when an error is answered, even when only some of the writes of the charge were
  -- made; for a database in which nothing pending has the next identifier.
  pub give-Settles :
      (now : ℕ) (gift : Gift) (db : Db)
      → pending_at db.next_id db ≡ 0
      → open_payments db.next_id db ≡ 0
      → Settles db (give woovi_fee_fixed_cents g now gift db)
  unfolding give
  give-Settles now gift db z y =
      elim (Result-cases (prepare_donation woovi_fee_fixed_cents g now gift db)) [
        | inr (x, e) ↦ rw (give, e) (refl, refl)
        | inl ((store, d), e) ↦ rw (give, e) (place_donation-Settles store gift d now db z y)
      ]
