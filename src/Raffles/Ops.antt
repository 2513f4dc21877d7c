-- ===== src/Raffles/Ops.antt =====
-- What the routes, the webhooks and the relay can do to raffles, in any sequence.
use udv_shop_api.Prelude.{ℕ, List, [], ◌∷◌}
use udv_shop_api.Errors.{transaction}
use udv_shop_api.Schema.{Db}
use udv_shop_api.Donations.{refund_donation}
use udv_shop_api.Raffles.{RaffleConfig, RaffleChange, create_raffle, update_config, set_status}
use udv_shop_api.Grants.{grant_numbers_for_donation}
use udv_shop_api.Raffles.Drawing.{draw}

pub data RaffleOp : Type 0 where
  create : (campaign_id : ℕ) → RaffleConfig → RaffleOp
  update : (raffle_id : ℕ) → RaffleConfig → RaffleOp
  change : (raffle_id : ℕ) → RaffleChange → RaffleOp
  grant : (donation_id : ℕ) → RaffleOp
  refund : (payment_id : ℕ) → RaffleOp
  perform : (raffle_id seed : ℕ) → RaffleOp

-- One transaction, at a time `now`.
unfoldable pub step : (ℕ → ℕ → ℕ) → RaffleOp → ℕ → Db → Db
step digest (create c input) now db = (transaction db (create_raffle c input db)).1
step digest (update r input) now db = (transaction db (update_config r input db)).1
step digest (change r to) now db = (transaction db (set_status r to db)).1
step digest (grant d) now db = (grant_numbers_for_donation d db).1
step digest (refund p) now db = (transaction db (refund_donation p now db)).1
step digest (perform r seed) now db = (transaction db (draw digest r seed now db)).1

unfoldable pub run : (ℕ → ℕ → ℕ) → List (ℕ × RaffleOp) → Db → Db
run digest [] db = db
run digest ((now, op) ∷ ops) db = run digest ops (step digest op now db)
