-- ===== src/Examples/Draws.antt =====
-- Raffles, their draw, and the outbox at concrete inputs.
use udv_shop_api.Prelude.{
  ℕ, ◌+◌, ◌≤◌, ◌≡◌, refl, min, false, true, none, some, List, [], ◌∷◌, arith, All, length,
}
use udv_shop_api.Errors.{ok, err, failure, conflict, transaction}
use udv_shop_api.Schema.{
  OutboxEvent, OutboxStatus, woovi_withdraw, Db, empty_db, Raffle, DonationType, DonationStatus,
}
use udv_shop_api.Draw.{draw_winners, draw_from, sort_numbers}
use udv_shop_api.Table.{find_many, sort_by, find_first}
use udv_shop_api.Draw.Winners.{occurs, draw_winners-fair}
use udv_shop_api.Draw.Sorted.{draw_winners-order}
use udv_shop_api.Raffles.{
  RaffleConfig, cancel, reopen, new_raffle, create_raffle, insert_raffle, next_sequence,
}
use udv_shop_api.RaffleWindow.{covers, resolve_raffle, assert_window_free, find_window_conflict}
use udv_shop_api.Grants.{backfill_within, backfill_each, grant_numbers_for_donation}
use udv_shop_api.Table.Keys.{find_key}
use udv_shop_api.Raffles.Drawing.{draw}
use udv_shop_api.Raffles.Repeats.{draw-draw}
use udv_shop_api.Raffles.Ops.{RaffleOp, create, change, grant, perform, run, step}
use udv_shop_api.Raffles.Numbers.{IsNumbered}
use udv_shop_api.Raffles.Held.{run-IsNumbered}
use udv_shop_api.Raffles.Apart.{IsApart, run-IsApart, run-resolve_raffle}
use udv_shop_api.Outbox.{Gateways, claim, reap, relay_outbox, is_held}
use udv_shop_api.Outbox.Claims.{held_by, claim-exclusive}
use udv_shop_api.Outbox.Attempts.{IsTried, relay_outbox-IsTried}

-- A stand-in for the hash.
abbrev digest : ℕ → ℕ → ℕ
digest seed position = seed + position

draw_winners-fair_example :
    (length (draw_winners digest 5 (3 ∷ 1 ∷ 2 ∷ []) 2) ≡ min 2 3)
    × ((n : ℕ) → occurs n (draw_winners digest 5 (3 ∷ 1 ∷ 2 ∷ []) 2) ≤ occurs n (3 ∷ 1 ∷ 2 ∷ []))
draw_winners-fair_example = draw_winners-fair digest 5 2 (3 ∷ 1 ∷ 2 ∷ [])

draw_winners-order_example :
    draw_winners digest 5 (3 ∷ 1 ∷ 2 ∷ []) 2 ≡ draw_winners digest 5 (1 ∷ 2 ∷ 3 ∷ []) 2
draw_winners-order_example =
    draw_winners-order digest 5 2 (3 ∷ 1 ∷ 2 ∷ []) (1 ∷ 2 ∷ 3 ∷ []) (λ n. omega arith)

abbrev august : RaffleConfig
august = record {
  title = 1;
  cents_per_number = 1000;
  starts_at = 10;
  ends_at = some 20;
  draw_at = none;
  prizes = (1, 5) ∷ [];
}

abbrev september : RaffleConfig
september = record {
  title = 2;
  cents_per_number = 1000;
  starts_at = 15;
  ends_at = none;
  draw_at = none;
  prizes = (1, 6) ∷ [];
}

empty-IsApart : IsApart empty_db
empty-IsApart = record {
  unique = λ k. omega arith;
  fresh = λ k h. refl;
  apart = λ c t. omega arith;
}

-- The second raffle overlaps the first and is refused, until the first is cancelled; then the first
-- cannot be reopened.
abbrev raffle_history : List (ℕ × RaffleOp)
raffle_history =
    (1, create 3 august)
    ∷ (2, create 3 september)
    ∷ (3, change 0 cancel)
    ∷ (4, create 3 september)
    ∷ (5, change 0 reopen)
    ∷ []

run-IsApart_example : IsApart (run digest raffle_history empty_db)
run-IsApart_example = run-IsApart digest raffle_history empty_db empty-IsApart

-- The raffle of August, as it is created.
abbrev august_row : Raffle
august_row = new_raffle 0 3 1 august

august_found :
    find_key (λ r. r.id) august_row.id (run digest ((1, create 3 august) ∷ []) empty_db).raffles
    ≡ some august_row
unfolding run step create_raffle new_raffle insert_raffle find_first backfill_within backfill_each
    assert_window_free find_window_conflict sort_by next_sequence find_many
august_found = refl

august_covers : covers 3 12 august_row ≡ true
unfolding new_raffle
august_covers = refl

run-resolve_raffle_example :
    resolve_raffle 3 12 (run digest ((1, create 3 august) ∷ []) empty_db) ≡ some august_row
run-resolve_raffle_example =
    run-resolve_raffle digest ((1, create 3 august) ∷ []) empty_db 3 12 august_row empty-IsApart
      august_found august_covers

-- A paid donation that is worth five numbers of the raffle of August.
abbrev gift_db : Db
gift_db = record empty_db {
  next_id = 9;
  donations =
      record {
        id = 8;
        store_id = 1;
        campaign_id = some 3;
        user_id = 4;
        kind = DonationType.one_time;
        amount_cents = 5000;
        status = DonationStatus.paid;
        anonymous = false;
        message = none;
        subscription_ref = none;
        provider_invoice_id = none;
        subscription_cancelled_at = none;
        raffle_granted = false;
        public_token = none;
        paid_at = some 12;
        expires_at = none;
        created_at = 12;
      }
      ∷ [];
}

-- The raffle of August and the donation, whose numbers are granted; then a second raffle is made.
abbrev due : Db
due = record gift_db { raffles = august_row ∷ [] }

abbrev next_raffle : Db
next_raffle =
    run digest ((21, create 3 (record september { starts_at = 20 })) ∷ [])
      (grant_numbers_for_donation 8 due).1

gift-IsApart : IsApart gift_db
gift-IsApart = record { unique = λ k. omega arith; fresh = λ k h. refl; apart = λ c t. omega arith }

gift-IsNumbered : IsNumbered gift_db
gift-IsNumbered = record {
  unique = λ k. omega arith;
  once = λ k n. omega arith;
  below = λ k n h. refl;
}

-- The donation is given its numbers, and a second delivery gives it none.
abbrev grant_history : List (ℕ × RaffleOp)
grant_history = (1, create 3 august) ∷ (13, grant 8) ∷ (14, grant 8) ∷ (40, perform 9 7) ∷ []

run-IsNumbered_example : IsNumbered (run digest grant_history gift_db)
run-IsNumbered_example = run-IsNumbered digest grant_history gift_db gift-IsApart gift-IsNumbered

-- A raffle that is open, with a number of each of two donations and one prize.
abbrev open_raffle : Raffle
open_raffle = new_raffle 0 1 3 august

abbrev raffle_db : Db
raffle_db = record empty_db {
  next_id = 5;
  raffles = open_raffle ∷ [];
  entries =
      record { id = 1; raffle_id = 0; donation_id = 8; user_id = 4; number = 1 }
      ∷ record { id = 2; raffle_id = 0; donation_id = 9; user_id = 5; number = 2 }
      ∷ [];
  prizes = record { id = 3; raffle_id = 0; position = 1; title = 6; winner_entry_id = none } ∷ [];
}

abbrev drawn_db : Db
drawn_db = (transaction raffle_db (draw digest 0 7 30 raffle_db)).1

drawn_by : draw digest 0 7 30 raffle_db ≡ ok (0, drawn_db)
unfolding draw draw_winners draw_from sort_numbers find_many sort_by
drawn_by = refl

draw-draw_example : draw digest 0 9 40 drawn_db ≡ err (conflict "raffle_not_open")
draw-draw_example = draw-draw digest digest 0 7 9 30 40 raffle_db 0 drawn_db drawn_by

-- An event that one tick has claimed, and one that waits after a failure.
abbrev held_event : OutboxEvent
held_event = record {
  id = 1;
  payload = woovi_withdraw 1 2 3;
  status = OutboxStatus.processing;
  attempts = 0;
  processed_at = none;
  claimed_at = some 100;
  claimed_by = some 70;
}

abbrev waiting_event : OutboxEvent
waiting_event = record {
  id = 2;
  payload = woovi_withdraw 1 2 4;
  status = OutboxStatus.pending;
  attempts = 4;
  processed_at = none;
  claimed_at = none;
  claimed_by = none;
}

abbrev queue : Db
queue = record empty_db { outbox = held_event ∷ waiting_event ∷ [] }

claim-exclusive_example :
    (held_by 70 (claim (2 ∷ []) 71 200 (reap 200 queue)).1 ≡ held_by 70 queue)
    × All (λ e. is_held 70 e ≡ false) (claim (2 ∷ []) 71 200 (reap 200 queue)).0
claim-exclusive_example =
    claim-exclusive (2 ∷ []) 70 71 100 200 queue (omega arith) (omega arith)
      (λ h. refl, (λ h. ground arith, tt))

abbrev offline : Gateways
offline = record {
  mail = λ payload db. none;
  retrieve_invoice_charge_id = λ i. err (failure "down");
  retrieve_charge_fee = λ c. err (failure "down");
  create_transfer = λ amount account charge payment. err (failure "down");
  withdraw_sub_account = λ key. some (failure "down");
}

-- The fifth failure of the event that waits.
relay_outbox-IsTried_example : All IsTried (relay_outbox offline 200 queue).1.outbox
relay_outbox-IsTried_example =
    relay_outbox-IsTried offline 200 queue (omega arith, (omega arith, tt))
