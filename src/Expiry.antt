-- ===== src/Expiry.antt =====
-- src/workers/expire-reservations.ts and expire-donations.ts: the ticks that cancel what was not
-- paid in time. Each cancellation is a transaction of its own; one that throws ends the tick.
use udv_shop_api.Prelude.{ℕ, suc, List, [], ◌∷◌, if◌then◌else◌}
pub mod Drained
use udv_shop_api.Errors.{Result, ok, err}
use udv_shop_api.Schema.{Order, Donation, PaymentStatus, Db}
use udv_shop_api.Orders.{list_expired_pending, cancel_pending_order}
use udv_shop_api.Donations.{list_expired_donations, cancel_pending_donation}

-- The loop over the orders that were read, with how many were cancelled so far.
unfoldable pub expire_orders : List Order → ℕ → ℕ → Db → Result ℕ × Db
expire_orders [] cancelled now db = (ok cancelled, db)
expire_orders (o ∷ os) cancelled now db =
    elim (cancel_pending_order o.id PaymentStatus.expired now db) [
      | err e ↦ (err e, db)
      | ok (won, db') ↦ expire_orders os (if won then suc cancelled else cancelled) now db'
    ]

-- `expireReservations`
unfoldable pub expire_reservations : ℕ → Db → Result ℕ × Db
expire_reservations now db = expire_orders (list_expired_pending now db) 0 now db

unfoldable pub expire_each : List Donation → ℕ → ℕ → Db → ℕ × Db
expire_each [] cancelled now db = (cancelled, db)
expire_each (d ∷ ds) cancelled now db =
    let (won, db') = cancel_pending_donation d.id PaymentStatus.expired now db in
    expire_each ds (if won then suc cancelled else cancelled) now db'

-- `expireDonations`
unfoldable pub expire_donations : ℕ → Db → ℕ × Db
expire_donations now db = expire_each (list_expired_donations now db) 0 now db
