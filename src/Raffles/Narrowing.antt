-- ===== src/Raffles/Narrowing.antt =====
-- The operations that give no live raffle a wider window.
use udv_shop_api.Prelude.{
  ℕ, ◌≤◌, ◌≡◌, refl, Bool, true, ◌==◌, ◌/◌, Option, none, some, List, [], ◌∷◌, inl, inr, arith,
  Bool-cases, Option-cases, is_none,
}
use udv_shop_api.Errors.{ok}
use udv_shop_api.Schema.{DonationStatus, donation_in, Raffle, Donation, Db, enqueue}
use udv_shop_api.Table.{count_where}
use udv_shop_api.Table.Laws.{sum_of-update_many, sum_of-update_many-le}
use udv_shop_api.Table.Keys.{update_key, count_at, count_key, find_key}
use udv_shop_api.RaffleWindow.{covers, resolve_raffle}
use udv_shop_api.Raffles.{cancel_status, cancel_raffle}
use udv_shop_api.Grants.{
  grant_numbers_for_donation, grant_paid, grant_in, grant_resolved, grant_within, reserve_range,
  backfill_within, backfill_each, is_open, advance, resolves_to, paid_time, is_not_granted,
  set_granted, numbers_for,
}
use udv_shop_api.Raffles.Drawing.{draw, claim_draw, set_drawn, close_window}

abbrev pub raffle_id_of : Raffle → ℕ
raffle_id_of r = r.id

-- How many live raffles of a campaign have a time in their window.
abbrev pub covering : ℕ → ℕ → List Raffle → ℕ
covering c t rs = count_where (covers c t) rs

pub record Narrows (db db' : Db) : Type 0 where
  pub keys : (k : ℕ) → count_key raffle_id_of k db'.raffles ≡ count_key raffle_id_of k db.raffles
  pub windows : (c t : ℕ) → covering c t db'.raffles ≤ covering c t db.raffles
  pub next : db.next_id ≤ db'.next_id

pub Narrows-refl : (db : Db) → Narrows db db
Narrows-refl db = record { keys = λ k. refl; windows = λ c t. omega arith; next = omega arith }

pub Narrows-trans : (a b c : Db) → Narrows a b → Narrows b c → Narrows a c
Narrows-trans a b c m n = record {
  keys = λ k. omega (arith, m.keys k, n.keys k);
  windows = λ x t. omega (arith, m.windows x t, n.windows x t);
  next = omega (arith, m.next, n.next);
}

-- Databases with the same raffles.
pub Narrows-same :
    (db db' : Db) → db'.raffles ≡ db.raffles → db.next_id ≤ db'.next_id → Narrows db db'
Narrows-same db db' h n = record {
  keys = λ k. rw h refl;
  windows = λ c t. rw h (omega arith);
  next = n;
}

-- An update by key that keeps the keys and widens no window.
pub Narrows-update :
    (k : ℕ) (q : Raffle → Bool) (f : Raffle → Raffle) (db db' : Db)
    → db'.raffles ≡ update_key raffle_id_of k q f db.raffles
    → db.next_id ≤ db'.next_id
    → ((r : Raffle) → (f r).id ≡ r.id)
    → ((c t : ℕ) (r : Raffle) → q r ≡ true → covers c t (f r) ≡ true → covers c t r ≡ true)
    → Narrows db db'
Narrows-update k q f db db' h n ids narrow = record {
  keys = λ j. rw h (sum_of-update_many _ _ _ db.raffles (λ r e. rw (ids r) refl));
  windows =
      λ c t. rw h (sum_of-update_many-le _ _ _ db.raffles (λ r e. ground (arith, narrow c t r)));
  next = n;
}

reserve_range-Narrows :
    (k : ℕ) (d : Donation) (n : ℕ) (db : Db) → Narrows db (reserve_range k d n db).1
unfolding reserve_range
reserve_range-Narrows k d n db =
    elim (Bool-cases (count_at raffle_id_of k is_open db.raffles == 0)) [
      | inl z ↦ rw z (Narrows-same db _ refl (omega arith))
      | inr s ↦
          elim (Option-cases
            (find_key raffle_id_of k (update_key raffle_id_of k is_open (advance n) db.raffles))) [
              | inl z ↦ rw (s, z) (Narrows-refl db)
              | inr (row, z) ↦
                  rw (s, z)
                    (Narrows-update k is_open (advance n) db _ refl (omega arith) (λ r. refl)
                      (λ c t r e h. h))
            ]
    ]

grant_within-Narrows : (r : Raffle) (d : Donation) (db : Db) → Narrows db (grant_within r d db).1
unfolding grant_within
grant_within-Narrows r d db =
    let claimed = record db {
      donations =
          update_key (λ (d : Donation). d.id) d.id is_not_granted (set_granted true) db.donations;
    } in
    let claims : Narrows db claimed = Narrows-same db claimed refl (omega arith) in
    elim (Bool-cases (d.amount_cents / r.cents_per_number == 0)) [
      | inl z ↦ rw z (Narrows-refl db)
      | inr s ↦
          elim (Bool-cases
            (count_at (λ (d : Donation). d.id) d.id is_not_granted db.donations == 1)) [
              | inl won ↦
                  rw (s, won)
                    (Narrows-trans db claimed _ claims (
                      reserve_range-Narrows r.id d (numbers_for d.amount_cents r.cents_per_number)
                        claimed))
              | inr lost ↦ rw (s, lost) claims
            ]
    ]

backfill_each-Narrows :
    (c : ℕ) (r : Raffle) (ds : List Donation) (db : Db) → Narrows db (backfill_each c r ds db)
unfolding backfill_each
backfill_each-Narrows c r [] db = Narrows-refl db
backfill_each-Narrows c r (d ∷ ds) db =
    elim (Bool-cases (resolves_to r.id (resolve_raffle c (paid_time d) db))) [
      | inl e ↦ rw e (
          Narrows-trans db (grant_within r d db).1 _ (grant_within-Narrows r d db)
            (backfill_each-Narrows c r ds (grant_within r d db).1))
      | inr e ↦ rw e (backfill_each-Narrows c r ds db)
    ]

pub backfill_within-Narrows : (c : ℕ) (r : Raffle) (db : Db) → Narrows db (backfill_within c r db)
unfolding backfill_within
backfill_within-Narrows c r db = backfill_each-Narrows c r _ db

grant_resolved-Narrows :
    (found : Option Raffle) (d : Donation) (db : Db) → Narrows db (grant_resolved found d db).1
unfolding grant_resolved
grant_resolved-Narrows none d db = Narrows-refl db
grant_resolved-Narrows (some r) d db = elim (Bool-cases (is_open r)) [
  | inl e ↦ rw e (grant_within-Narrows r d db)
  | inr e ↦ rw e (Narrows-refl db)
]

grant_in-Narrows : (c : Option ℕ) (d : Donation) (db : Db) → Narrows db (grant_in c d db).1
unfolding grant_in
grant_in-Narrows none d db = Narrows-refl db
grant_in-Narrows (some c) d db =
    elim (Bool-cases (donation_in (DonationStatus.paid ∷ []) d.status)) [
      | inl e ↦ rw e (grant_resolved-Narrows (resolve_raffle c (paid_time d) db) d db)
      | inr e ↦ rw e (Narrows-refl db)
    ]

grant_paid-Narrows : (found : Option Donation) (db : Db) → Narrows db (grant_paid found db).1
unfolding grant_paid
grant_paid-Narrows none db = Narrows-refl db
grant_paid-Narrows (some d) db = grant_in-Narrows d.campaign_id d db

-- Granting numbers to a donation.
pub grant-Narrows :
    (donation_id : ℕ) (db : Db) → Narrows db (grant_numbers_for_donation donation_id db).1
unfolding grant_numbers_for_donation
grant-Narrows donation_id db = grant_paid-Narrows (find_key (λ d. d.id) donation_id db.donations) db

pub cancel_raffle-Narrows : (k : ℕ) (db : Db) → Narrows db (cancel_raffle k db)
unfolding cancel_raffle
cancel_raffle-Narrows k db =
    Narrows-update k (λ r. true) cancel_status db (cancel_raffle k db) refl (omega arith)
      (λ r. refl) (λ c t r e h. ground arith)

ends_closed :
    (c t now : ℕ) (r : Raffle)
    → is_none r.ends_at ≡ true
    → covers c t (close_window now r) ≡ true
    → covers c t r ≡ true
ends_closed c t now r e h = elim (Option-cases r.ends_at) [
  | inl z ↦ ground arith
  | inr (x, z) ↦ ground arith
]

claim_draw-Narrows :
    (k seed now : ℕ) (db : Db)
    → Narrows db (record db { raffles = claim_draw k seed now db.raffles })
unfolding claim_draw
claim_draw-Narrows k seed now db =
    let rs = update_key raffle_id_of k is_open (set_drawn seed now) db.raffles in
    let claimed = record db { raffles = rs } in
    Narrows-trans db claimed _
      (Narrows-update k is_open (set_drawn seed now) db claimed refl (omega arith) (λ r. refl)
        (λ c t r e h. ground arith))
      (Narrows-update k (λ r. is_none r.ends_at) (close_window now) claimed _ refl (omega arith)
        (λ r. refl) (λ c t r e h. ends_closed c t now r e h))

-- What a draw that did not throw has left of the other tables.
pub draw-ok :
    (digest : ℕ → ℕ → ℕ) (k seed now : ℕ) (db : Db) (r : ℕ) (db' : Db)
    → draw digest k seed now db ≡ ok (r, db')
    → (db'.raffles ≡ claim_draw k seed now db.raffles)
      × (db'.entries ≡ db.entries)
      × (db'.donations ≡ db.donations)
      × (db.next_id ≤ db'.next_id)
unfolding draw enqueue
draw-ok digest k seed now db r db' h = ground arith

pub draw-Narrows :
    (digest : ℕ → ℕ → ℕ) (k seed now : ℕ) (db : Db) (r : ℕ) (db' : Db)
    → draw digest k seed now db ≡ ok (r, db')
    → Narrows db db'
draw-Narrows digest k seed now db r db' h =
    let (rs, es, ds, next) = draw-ok digest k seed now db r db' h in
    Narrows-trans db (record db { raffles = claim_draw k seed now db.raffles }) db'
      (claim_draw-Narrows k seed now db) (Narrows-same _ db' rs next)
