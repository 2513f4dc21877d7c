-- ===== src/Raffles/Given.antt =====
-- Numbers given to donations, one by one or all that are due (raffles.repository.ts).
use udv_shop_api.Prelude.{
  ℕ, ◌/◌, refl, true, ◌==◌, none, some, Option, List, [], ◌∷◌, inl, inr, Bool-cases,
}
use udv_shop_api.Schema.{Raffle, Donation, DonationStatus, donation_in, Db}
use udv_shop_api.Table.Keys.{update_key, count_at}
use udv_shop_api.RaffleWindow.{resolve_raffle}
use udv_shop_api.Grants.{
  grant_within, grant_resolved, grant_in, grant_paid, backfill_each, backfill_within, numbers_for,
  is_open, is_not_granted, set_granted, paid_time, resolves_to,
}
use udv_shop_api.Raffles.Numbers.{
  IsNumbered, Eases-IsNumbered, Eases-same, reserve_range-IsNumbered,
}

grant_within-IsNumbered :
    (r : Raffle) (d : Donation) (db : Db) → IsNumbered db → IsNumbered (grant_within r d db).1
unfolding grant_within
grant_within-IsNumbered r d db a =
    let claimed = record db {
      donations =
          update_key (λ (d : Donation). d.id) d.id is_not_granted (set_granted true) db.donations;
    } in
    let claims : IsNumbered claimed =
      Eases-IsNumbered db claimed (Eases-same db claimed refl refl) a in
    elim (Bool-cases (d.amount_cents / r.cents_per_number == 0)) [
      | inl z ↦ rw z a
      | inr s ↦
          elim (Bool-cases
            (count_at (λ (d : Donation). d.id) d.id is_not_granted db.donations == 1)) [
              | inl won ↦
                  rw (s, won)
                    (reserve_range-IsNumbered r.id d (numbers_for d.amount_cents r.cents_per_number)
                      claimed claims)
              | inr lost ↦ rw (s, lost) claims
            ]
    ]

backfill_each-IsNumbered :
    (c : ℕ) (r : Raffle) (ds : List Donation) (db : Db)
    → IsNumbered db
    → IsNumbered (backfill_each c r ds db)
unfolding backfill_each
backfill_each-IsNumbered c r [] db a = a
backfill_each-IsNumbered c r (d ∷ ds) db a =
    elim (Bool-cases (resolves_to r.id (resolve_raffle c (paid_time d) db))) [
      | inl e ↦ rw e (
          backfill_each-IsNumbered c r ds (grant_within r d db).1
            (grant_within-IsNumbered r d db a))
      | inr e ↦ rw e (backfill_each-IsNumbered c r ds db a)
    ]

pub backfill_within-IsNumbered :
    (c : ℕ) (r : Raffle) (db : Db) → IsNumbered db → IsNumbered (backfill_within c r db)
unfolding backfill_within
backfill_within-IsNumbered c r db a = backfill_each-IsNumbered c r _ db a

grant_resolved-IsNumbered :
    (found : Option Raffle) (d : Donation) (db : Db)
    → IsNumbered db
    → IsNumbered (grant_resolved found d db).1
unfolding grant_resolved
grant_resolved-IsNumbered none d db a = a
grant_resolved-IsNumbered (some r) d db a = elim (Bool-cases (is_open r)) [
  | inl e ↦ rw e (grant_within-IsNumbered r d db a)
  | inr e ↦ rw e a
]

grant_in-IsNumbered :
    (c : Option ℕ) (d : Donation) (db : Db) → IsNumbered db → IsNumbered (grant_in c d db).1
unfolding grant_in
grant_in-IsNumbered none d db a = a
grant_in-IsNumbered (some c) d db a =
    elim (Bool-cases (donation_in (DonationStatus.paid ∷ []) d.status)) [
      | inl e ↦ rw e (grant_resolved-IsNumbered (resolve_raffle c (paid_time d) db) d db a)
      | inr e ↦ rw e a
    ]

pub grant_paid-IsNumbered :
    (found : Option Donation) (db : Db) → IsNumbered db → IsNumbered (grant_paid found db).1
unfolding grant_paid
grant_paid-IsNumbered none db a = a
grant_paid-IsNumbered (some d) db a = grant_in-IsNumbered d.campaign_id d db a
