-- ===== src/Grants.antt =====
-- src/http/api/raffles/raffles.repository.ts: the numbers that a paid donation is given.
use udv_shop_api.Prelude.{
  ℕ, zero, suc, ◌+◌, ◌-◌, ◌/◌, min, Bool, true, false, not, ◌&&◌, Option, none, some, List, [], ◌∷◌,
  ◌++◌, ltb, ◌==◌, if◌then◌else◌, or_else,
}
use udv_shop_api.Schema.{
  RaffleStatus, raffle_is, DonationStatus, donation_in, Raffle, RaffleEntry, Donation, Db,
}
use udv_shop_api.Table.{update_many, find_many, sort_by}
use udv_shop_api.Table.Keys.{update_key, count_at, find_key}
use udv_shop_api.RaffleWindow.{resolve_raffle}

-- RAFFLE_MAX_NUMBERS_PER_DONATION
abbrev pub raffle_max_numbers_per_donation : ℕ
raffle_max_numbers_per_donation = 1000

-- The numbers `start + i` for `i` below `count`, as rows.
unfoldable pub new_entries : ℕ → ℕ → ℕ → ℕ → ℕ → ℕ → List RaffleEntry
new_entries raffle_id donation_id user_id id start zero = []
new_entries raffle_id donation_id user_id id start (suc n) =
    record {
      id = id;
      raffle_id = raffle_id;
      donation_id = donation_id;
      user_id = user_id;
      number = start;
    }
    ∷ new_entries raffle_id donation_id user_id (suc id) (suc start) n

abbrev pub is_not_granted : Donation → Bool
is_not_granted d = not d.raffle_granted

abbrev pub set_granted : Bool → Donation → Donation
set_granted b d = record d { raffle_granted = b }

abbrev pub is_open : Raffle → Bool
is_open r = raffle_is RaffleStatus.open_entries r.status

abbrev pub advance : ℕ → Raffle → Raffle
advance count r = record r { next_number = r.next_number + count }

-- The reservation of a range and its rows, once the donation is claimed. When the raffle is not open
-- any more, the claim is undone.
unfoldable pub reserve_range : ℕ → Donation → ℕ → Db → ℕ × Db
reserve_range raffle_id donation count db =
    let reserved = update_key (λ (r : Raffle). r.id) raffle_id is_open (advance count) db.raffles in
    if count_at (λ (r : Raffle). r.id) raffle_id is_open db.raffles == 0
    then (
      0,
      record db {
        donations = update_many (λ d. d.id == donation.id) (set_granted false) db.donations;
      },
    )
    else elim (find_key (λ (r : Raffle). r.id) raffle_id reserved) [
      | none ↦ (0, db)
      | some row ↦ (
        count,
        record db {
          next_id = db.next_id + count;
          raffles = reserved;
          entries =
              db.entries
              ++ new_entries raffle_id donation.id donation.user_id db.next_id
                  (row.next_number - count) count;
        },
      )
    ]

-- How many numbers a donation is worth. `cents_per_number` is positive: the routes ask for it.
abbrev pub numbers_for : ℕ → ℕ → ℕ
numbers_for amount_cents cents_per_number =
    min (amount_cents / cents_per_number) raffle_max_numbers_per_donation

-- `grantWithinTx`
unfoldable pub grant_within : Raffle → Donation → Db → ℕ × Db
grant_within raffle donation db =
    let claimed = record db {
      donations =
          update_key (λ (d : Donation). d.id) donation.id is_not_granted (set_granted true)
            db.donations;
    } in
    if donation.amount_cents / raffle.cents_per_number == 0
    then (0, db)
    else (if count_at (λ (d : Donation). d.id) donation.id is_not_granted db.donations == 1
        then reserve_range raffle.id donation
            (numbers_for donation.amount_cents raffle.cents_per_number) claimed
        else (0, claimed))

abbrev pub is_paid_not_granted : ℕ → Donation → Bool
is_paid_not_granted campaign_id d = elim d.campaign_id [
  | none ↦ false
  | some c ↦
      c == campaign_id && (donation_in (DonationStatus.paid ∷ []) d.status && is_not_granted d)
]

abbrev pub paid_time : Donation → ℕ
paid_time d = or_else d.paid_at d.created_at

abbrev pub resolves_to : ℕ → Option Raffle → Bool
resolves_to raffle_id none = false
resolves_to raffle_id (some r) = r.id == raffle_id

-- The loop of `backfillWithinTx`, over the donations that it read.
unfoldable pub backfill_each : ℕ → Raffle → List Donation → Db → Db
backfill_each campaign_id raffle [] db = db
backfill_each campaign_id raffle (d ∷ ds) db = backfill_each campaign_id raffle ds (
    if resolves_to raffle.id (resolve_raffle campaign_id (paid_time d) db)
    then (grant_within raffle d db).1
    else db)

-- `backfillWithinTx`
unfoldable pub backfill_within : ℕ → Raffle → Db → Db
backfill_within campaign_id raffle db =
    backfill_each campaign_id raffle
      (sort_by (λ s r. ltb s.created_at r.created_at)
        (find_many (is_paid_not_granted campaign_id) db.donations))
      db

-- The resolution and the grant, once the donation is read.
unfoldable pub grant_resolved : Option Raffle → Donation → Db → ℕ × Db
grant_resolved none donation db = (0, db)
grant_resolved (some r) donation db = if is_open r then grant_within r donation db else (0, db)

unfoldable pub grant_in : Option ℕ → Donation → Db → ℕ × Db
grant_in none donation db = (0, db)
grant_in (some c) donation db =
    if donation_in (DonationStatus.paid ∷ []) donation.status
    then grant_resolved (resolve_raffle c (paid_time donation) db) donation db
    else (0, db)

unfoldable pub grant_paid : Option Donation → Db → ℕ × Db
grant_paid none db = (0, db)
grant_paid (some d) db = grant_in d.campaign_id d db

-- `grantNumbersForDonation`
unfoldable pub grant_numbers_for_donation : ℕ → Db → ℕ × Db
grant_numbers_for_donation donation_id db =
    grant_paid (find_key (λ d. d.id) donation_id db.donations) db
