-- ===== src/Donations/Cycles.antt =====
-- Invoices and the rows that they pay (the cycles of donations.repository.ts).
use udv_shop_api.Prelude.{
  ℕ, ◌≤◌, ◌≡◌, refl, Bool, ◌&&◌, ◌==◌, Option, none, some, List, inl, inr, arith, Bool-cases,
  Option-cases, ==_refl, sum_of-append,
}
use mathlib.Core.Path.{subst}
use udv_shop_api.Errors.{Result, ok, err}
use udv_shop_api.Schema.{Donation, Store, Db, enqueue}
use udv_shop_api.Table.Laws.{count_where-mark}
use udv_shop_api.Table.Keys.{count_key, update_key-Point}
use udv_shop_api.Donations.{is_pending_donation}
use udv_shop_api.Donations.Renewals.{
  invoices, has_invoice, pay_first_cycle, pay_next_cycle, pay_cycle, set_first_cycle,
  mark_subscription_invoice_paid, anchor_of,
}

abbrev pub donation_id_of : Donation → ℕ
donation_id_of d = d.id

-- Writing back the donations that stand there changes nothing.
same_donations :
    (db : Db) (ds : List Donation) → ds ≡ db.donations → record db { donations = ds } ≡ db
same_donations db ds h = rw h

-- What a delivery has left of the invoice: nothing was written, or one row more has it.
pub data Paid (invoice_id : ℕ) (db : Db) : Option (ℕ × Bool) × Db → Type 0 where
  ignored : Paid invoice_id db (none, db)
  recorded :
      (r : ℕ × Bool) (db' : Db)
      → invoices invoice_id db.donations ≡ 0
      → invoices invoice_id db'.donations ≡ 1
      → Paid invoice_id db (some r, db')

abbrev pub Outcome : ℕ → Db → Result (Option (ℕ × Bool) × Db) → Type 0
Outcome i db (ok r) = Paid i db r
Outcome i db (err e) = Unit

pub pay_first_cycle-Outcome :
    (anchor : Donation) (i now : ℕ) (db : Db)
    → count_key donation_id_of anchor.id db.donations ≤ 1
    → Outcome i db (pay_first_cycle anchor i now db)
unfolding pay_first_cycle enqueue
pay_first_cycle-Outcome anchor i now db u =
    elim (update_key-Point donation_id_of anchor.id is_pending_donation (set_first_cycle i now)
      db.donations u) [
        | inl (z, same) ↦ rw (z, same) ignored
        | inr (d, found, t, one, sums) ↦ elim (Bool-cases (invoices i db.donations == 0)) [
          | inl free ↦
              rw (one, free)
                (recorded _ _ (ground arith) (
                  rw
                    (count_where-mark (has_invoice i)
                      (λ d. d.id == anchor.id && is_pending_donation d) (set_first_cycle i now)
                      db.donations (λ d. ==_refl i) (ground arith))
                    one))
          | inr taken ↦ rw (one, taken) tt
        ]
      ]

pub pay_next_cycle-Paid :
    (anchor : Donation) (ref i amount fee now : ℕ) (db : Db)
    → Paid i db (pay_next_cycle anchor ref i amount fee now db)
unfolding pay_next_cycle enqueue
pay_next_cycle-Paid anchor ref i amount fee now db =
    elim (Bool-cases (invoices i db.donations == 0)) [
      | inl free ↦
          rw free (recorded _ _ (ground arith) (rw sum_of-append (ground (arith, ==_refl i))))
      | inr taken ↦ rw taken ignored
    ]

-- A delivery of an invoice, whatever it read before, on any database in which the identifier of the
-- donation that it read is unique: it throws, or it does nothing, or it leaves the invoice on
-- exactly one row, which none had.
pub pay_cycle-Outcome :
    (anchor : Donation) (store : Option Store) (ref i amount now : ℕ) (db : Db)
    → count_key donation_id_of anchor.id db.donations ≤ 1
    → Outcome i db (pay_cycle anchor store ref i amount now db)
unfolding pay_cycle
pay_cycle-Outcome anchor store ref i amount now db u =
    elim (Bool-cases (is_pending_donation anchor)) [
      | inl e ↦ rw e (pay_first_cycle-Outcome anchor i now db u)
      | inr e ↦ elim (Option-cases store) [
        | inl z ↦ rw (e, z) tt
        | inr (s, z) ↦ rw (e, z) (pay_next_cycle-Paid anchor ref i amount _ now db)
      ]
    ]

mark_subscription_invoice_paid-Outcome :
    (ref i amount now : ℕ) (db : Db)
    → ((k : ℕ) → count_key donation_id_of k db.donations ≤ 1)
    → Outcome i db (mark_subscription_invoice_paid ref i amount now db)
unfolding mark_subscription_invoice_paid
mark_subscription_invoice_paid-Outcome ref i amount now db u =
    elim (Bool-cases (invoices i db.donations == 0)) [
      | inr taken ↦ rw taken ignored
      | inl free ↦ elim (Option-cases (anchor_of ref db)) [
        | inl z ↦ rw (free, z) ignored
        | inr (a, z) ↦ rw (free, z) (pay_cycle-Outcome a _ ref i amount now db (u a.id))
      ]
    ]

-- What is known of an outcome once it is computed.
Outcome-ok :
    (i : ℕ) (db : Db) (m : Result (Option (ℕ × Bool) × Db)) (r : Option (ℕ × Bool)) (db' : Db)
    → m ≡ ok (r, db')
    → Outcome i db m
    → Paid i db (r, db')
Outcome-ok i db m r db' h o = subst (Outcome i db) h o

-- An ignored delivery is ignored at any time.
pay_first_cycle-ignored :
    (anchor : Donation) (i now later : ℕ) (db db' : Db)
    → count_key donation_id_of anchor.id db.donations ≤ 1
    → pay_first_cycle anchor i now db ≡ ok (none, db')
    → pay_first_cycle anchor i later db ≡ ok (none, db)
unfolding pay_first_cycle
pay_first_cycle-ignored anchor i now later db db' u h =
    elim (update_key-Point donation_id_of anchor.id is_pending_donation (set_first_cycle i later)
      db.donations u) [
        | inl (z, same) ↦ rw (z, same) refl
        | inr (d, found, t, one, sums) ↦ ground arith
      ]

mark-ignored :
    (ref i amount now later : ℕ) (db db' : Db)
    → ((k : ℕ) → count_key donation_id_of k db.donations ≤ 1)
    → mark_subscription_invoice_paid ref i amount now db ≡ ok (none, db')
    → mark_subscription_invoice_paid ref i amount later db ≡ ok (none, db)
unfolding mark_subscription_invoice_paid pay_cycle pay_next_cycle
mark-ignored ref i amount now later db db' u h = elim (Option-cases (anchor_of ref db)) [
  | inl z ↦ ground arith
  | inr (a, z) ↦ ground (arith, pay_first_cycle-ignored a i now later db db' (u a.id))
]

again :
    (ref i amount now later : ℕ) (db : Db) (r : Option (ℕ × Bool)) (db' : Db)
    → ((k : ℕ) → count_key donation_id_of k db.donations ≤ 1)
    → mark_subscription_invoice_paid ref i amount now db ≡ ok (r, db')
    → Paid i db (r, db')
    → mark_subscription_invoice_paid ref i amount later db' ≡ ok (none, db')
unfolding mark_subscription_invoice_paid
again ref i amount now later db _ _ u h ignored = mark-ignored ref i amount now later db db u h
again ref i amount now later db _ _ u h (recorded x db' z one) = rw one refl

-- Two deliveries of one invoice: the second returns `null` and leaves the database, outbox and
-- payments included, as the first left it, whether that one recorded the cycle or ignored it.
pub mark_subscription_invoice_paid-twice :
    (ref i amount now later : ℕ) (db : Db) (r : Option (ℕ × Bool)) (db' : Db)
    → ((k : ℕ) → count_key donation_id_of k db.donations ≤ 1)
    → mark_subscription_invoice_paid ref i amount now db ≡ ok (r, db')
    → mark_subscription_invoice_paid ref i amount later db' ≡ ok (none, db')
mark_subscription_invoice_paid-twice ref i amount now later db r db' u h =
    again ref i amount now later db r db' u h
      (Outcome-ok i db _ r db' h (mark_subscription_invoice_paid-Outcome ref i amount now db u))
