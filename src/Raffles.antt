-- ===== src/Raffles.antt =====
-- src/http/api/raffles/raffles.repository.ts: the raffles of a campaign, their windows and their
-- status.
use udv_shop_api.Prelude.{
  ℕ, suc, ◌+◌, true, false, Option, none, some, List, [], ◌∷◌, ◌++◌, ltb, ◌==◌, if◌then◌else◌,
  length, any, map,
}
pub mod Drawing
pub mod Ops
pub mod Narrowing
pub mod Windows
pub mod Apart
pub mod Numbers
pub mod Given
pub mod Held
pub mod Repeats
pub mod Granted
use udv_shop_api.Errors.{Result, ok, err, failure, conflict, ◌>>=◌}
use udv_shop_api.Schema.{RaffleStatus, raffle_is, Raffle, RafflePrize, Db}
use udv_shop_api.Table.{update_many, find_first, find_many, delete_many, sort_by}
use udv_shop_api.Table.Keys.{update_key, find_key}
use udv_shop_api.RaffleWindow.{Window, assert_window_free}
use udv_shop_api.Grants.{backfill_within, set_granted}

-- The configuration that a store writes: prizes are pairs of a position and a title.
pub record RaffleConfig : Type 0 where
  pub title : ℕ
  pub cents_per_number : ℕ
  pub starts_at : ℕ
  pub ends_at : Option ℕ
  pub draw_at : Option ℕ
  pub prizes : List (ℕ × ℕ)

-- `prizeCreateData`, with the identifiers that the insertion draws.
unfoldable pub prize_create_data : ℕ → ℕ → List (ℕ × ℕ) → List RafflePrize
prize_create_data id raffle_id [] = []
prize_create_data id raffle_id ((position, title) ∷ prizes) =
    record {
      id = id;
      raffle_id = raffle_id;
      position = position;
      title = title;
      winner_entry_id = none;
    }
    ∷ prize_create_data (suc id) raffle_id prizes

last_sequence : Option Raffle → ℕ
last_sequence none = 0
last_sequence (some r) = r.sequence

-- The sequence that follows the last one of the campaign.
unfoldable pub next_sequence : ℕ → Db → ℕ
unfolding last_sequence
next_sequence campaign_id db =
    last_sequence (
      find_first (λ r. r.campaign_id == campaign_id)
        (sort_by (λ s r. ltb r.sequence s.sequence) db.raffles))
    + 1

abbrev pub new_raffle : ℕ → ℕ → ℕ → RaffleConfig → Raffle
new_raffle id campaign_id sequence input = record {
  id = id;
  campaign_id = campaign_id;
  sequence = sequence;
  title = input.title;
  cents_per_number = input.cents_per_number;
  starts_at = input.starts_at;
  ends_at = input.ends_at;
  draw_at = input.draw_at;
  status = RaffleStatus.open_entries;
  seed = none;
  drawn_at = none;
  next_number = 1;
}

-- The rows of a new raffle and of its prizes.
unfoldable pub insert_raffle : Raffle → List (ℕ × ℕ) → Db → Db
insert_raffle raffle prizes db = record db {
  next_id = suc db.next_id + length prizes;
  raffles = db.raffles ++ raffle ∷ [];
  prizes = db.prizes ++ prize_create_data (suc db.next_id) raffle.id prizes;
}

abbrev pub window_of : ℕ → RaffleConfig → Option ℕ → Window
window_of campaign_id input except = record {
  campaign_id = campaign_id;
  starts_at = input.starts_at;
  ends_at = input.ends_at;
  except_raffle_id = except;
}

-- `create`
unfoldable pub create_raffle : ℕ → RaffleConfig → Db → Result (ℕ × Db)
create_raffle campaign_id input db = do
  db ← assert_window_free (window_of campaign_id input none) db
  let raffle = new_raffle db.next_id campaign_id (next_sequence campaign_id db) input
  ok (raffle.id, backfill_within campaign_id raffle (insert_raffle raffle input.prizes db))

-- `findUniqueOrThrow`
unfoldable pub find_raffle : ℕ → Db → Result Raffle
find_raffle raffle_id db = elim (find_key (λ r. r.id) raffle_id db.raffles) [
  | none ↦ err (failure "record_not_found")
  | some r ↦ ok r
]

abbrev pub configure : RaffleConfig → Raffle → Raffle
configure input r = record r {
  title = input.title;
  cents_per_number = input.cents_per_number;
  starts_at = input.starts_at;
  ends_at = input.ends_at;
  draw_at = input.draw_at;
}

-- The writes of `updateConfig`: the raffle, and its prizes replaced as a whole.
unfoldable pub write_config : ℕ → RaffleConfig → Db → Db
write_config raffle_id input db = record db {
  next_id = db.next_id + length input.prizes;
  raffles = update_key (λ (r : Raffle). r.id) raffle_id (λ r. true) (configure input) db.raffles;
  prizes =
      delete_many (λ p. p.raffle_id == raffle_id) db.prizes
      ++ prize_create_data db.next_id raffle_id input.prizes;
}

-- `updateConfig`
unfoldable pub update_config : ℕ → RaffleConfig → Db → Result (ℕ × Db)
update_config raffle_id input db = do
  current ← find_raffle raffle_id db
  db ← assert_window_free (window_of current.campaign_id input (some raffle_id)) db
  ok (raffle_id, write_config raffle_id input db)

abbrev pub cancel_status : Raffle → Raffle
cancel_status r = record r { status = RaffleStatus.cancelled; next_number = 1 }

-- Cancelling: the numbers go, and the donations that had them may take part elsewhere.
unfoldable pub cancel_raffle : ℕ → Db → Db
cancel_raffle raffle_id db = record db {
  entries = delete_many (λ e. e.raffle_id == raffle_id) db.entries;
  donations =
      update_many
        (λ d.
          any (λ e. e.donation_id == d.id) (find_many (λ e. e.raffle_id == raffle_id) db.entries))
        (set_granted false) db.donations;
  raffles = update_key (λ (r : Raffle). r.id) raffle_id (λ r. true) cancel_status db.raffles;
}

abbrev pub open_status : Raffle → Raffle
open_status r = record r { status = RaffleStatus.open_entries }

-- Reopening: the row, and the numbers of who donated meanwhile.
unfoldable pub reopen_raffle : Raffle → Db → Db
reopen_raffle current db = backfill_within current.campaign_id current (record db {
  raffles = update_key (λ (r : Raffle). r.id) current.id (λ r. true) open_status db.raffles;
})

-- What a store may set by hand.
pub data RaffleChange : Type 0 where
  reopen cancel : RaffleChange

-- `setStatus`: a raffle that was drawn stays drawn.
unfoldable pub set_status_of : Raffle → RaffleChange → Db → Result (ℕ × Db)
set_status_of current cancel db =
    if raffle_is RaffleStatus.open_entries current.status
    then ok (current.id, cancel_raffle current.id db)
    else err (conflict "invalid_raffle_transition")
set_status_of current reopen db =
    if raffle_is RaffleStatus.cancelled current.status
    then (assert_window_free
          (record {
            campaign_id = current.campaign_id;
            starts_at = current.starts_at;
            ends_at = current.ends_at;
            except_raffle_id = some current.id;
          })
          db
        >>= λ db. ok (current.id, reopen_raffle current db))
    else err (conflict "invalid_raffle_transition")

unfoldable pub set_status : ℕ → RaffleChange → Db → Result (ℕ × Db)
set_status raffle_id change db = find_raffle raffle_id db >>= λ r. set_status_of r change db

-- `countEntries`: how many entries, and how many people.
unfoldable pub distinct : List ℕ → ℕ
distinct [] = 0
distinct (x ∷ xs) = (if any (λ y. y == x) xs then 0 else 1) + distinct xs

unfoldable pub count_entries : ℕ → Db → ℕ × ℕ
count_entries raffle_id db =
    let entries = find_many (λ e. e.raffle_id == raffle_id) db.entries in
    (length entries, distinct (map (λ e. e.user_id) entries))
