-- ===== src/Outbox/Handlers.antt =====
-- What the handlers of the relay write (src/workers/outbox-relay.ts).
use udv_shop_api.Prelude.{
  ℕ, ◌≡◌, refl, true, Option, none, some, inl, inr, arith, Bool-cases, Option-cases,
}
use udv_shop_api.Errors.{write, Result, ok, err, >>=-eq-ok}
use udv_shop_api.Table.Keys.{update_key}
use udv_shop_api.RaffleWindow.{resolve_raffle}
use udv_shop_api.Routing.{find_payment, store_of_payment}
use udv_shop_api.Payouts.{is_given}
use udv_shop_api.Schema.{
  order_paid, order_paid_store, donation_received, donation_received_store, payment_orphaned,
  interest_notified, stripe_transfer, woovi_withdraw, raffle_drawn, OutboxPayload, TransferSource,
  Donation, Raffle, Order, Db,
}
use udv_shop_api.Grants.{
  grant_numbers_for_donation, grant_paid, grant_in, grant_resolved, grant_within, reserve_range,
  set_granted, is_not_granted, numbers_for, paid_time,
}
use udv_shop_api.Interests.{convert_for_order}
use udv_shop_api.Orders.{update_payment}
use udv_shop_api.Outbox.{
  Gateways, handle, handle_order_paid, handle_donation_received, handle_stripe_transfer,
  transfer_to, transfer_charge, resolve_charge, account_of,
}

reserve_range-outbox :
    (k : ℕ) (d : Donation) (n : ℕ) (db : Db) → (reserve_range k d n db).1.outbox ≡ db.outbox
unfolding reserve_range
reserve_range-outbox k d n db = ground arith

grant_within-outbox :
    (r : Raffle) (d : Donation) (db : Db) → (grant_within r d db).1.outbox ≡ db.outbox
unfolding grant_within
grant_within-outbox r d db =
    let claimed = record db {
      donations =
          update_key (λ (d : Donation). d.id) d.id is_not_granted (set_granted true) db.donations;
    } in
    ground
      (arith, reserve_range-outbox r.id d (numbers_for d.amount_cents r.cents_per_number) claimed)

grant_resolved-outbox :
    (r : Option Raffle) (d : Donation) (db : Db) → (grant_resolved r d db).1.outbox ≡ db.outbox
unfolding grant_resolved
grant_resolved-outbox none d db = refl
grant_resolved-outbox (some r) d db = ground (arith, grant_within-outbox r d db)

grant_in-outbox : (c : Option ℕ) (d : Donation) (db : Db) → (grant_in c d db).1.outbox ≡ db.outbox
unfolding grant_in
grant_in-outbox none d db = refl
grant_in-outbox (some c) d db =
    ground (arith, grant_resolved-outbox (resolve_raffle c (paid_time d) db) d db)

grant_paid-outbox : (d : Option Donation) (db : Db) → (grant_paid d db).1.outbox ≡ db.outbox
unfolding grant_paid
grant_paid-outbox none db = refl
grant_paid-outbox (some d) db = grant_in-outbox d.campaign_id d db

grant-outbox : (k : ℕ) (db : Db) → (grant_numbers_for_donation k db).1.outbox ≡ db.outbox
unfolding grant_numbers_for_donation
grant-outbox k db = grant_paid-outbox _ db

transfer_charge-outbox :
    (g : Gateways) (p account : ℕ) (charge : Option ℕ) (now : ℕ) (db db' : Db)
    → transfer_charge g p account charge now db ≡ ok db'
    → db'.outbox ≡ db.outbox
unfolding transfer_charge update_payment
transfer_charge-outbox g p account none now db db' h = ground arith
transfer_charge-outbox g p account (some c) now db db' h = ground arith

transfer_to-outbox :
    (g : Gateways) (p : ℕ) (s : TransferSource) (account : Option ℕ) (now : ℕ) (db db' : Db)
    → transfer_to g p s account now db ≡ ok db'
    → db'.outbox ≡ db.outbox
unfolding transfer_to
transfer_to-outbox g p s none now db db' h = ground arith
transfer_to-outbox g p s (some account) now db db' h = elim (Bool-cases (is_given (some account))) [
  | inr e ↦ ground arith
  | inl e ↦
      let (charge, asked, made) =
        >>=-eq-ok (resolve_charge g s) (λ c. transfer_charge g p account c now db) (ground arith) in
      transfer_charge-outbox g p account charge now db db' made
]

stripe_transfer-outbox :
    (g : Gateways) (p now : ℕ) (s : TransferSource) (db db' : Db)
    → handle_stripe_transfer g p s now db ≡ ok db'
    → db'.outbox ≡ db.outbox
unfolding handle_stripe_transfer
stripe_transfer-outbox g p now s db db' h = elim (Option-cases (find_payment p db)) [
  | inl z ↦ ground arith
  | inr (x, z) ↦
      ground (arith, transfer_to-outbox g p s (account_of (store_of_payment p db)) now db db')
]

write-outbox :
    (db : Db) (r : Result Db)
    → ((db' : Db) → r ≡ ok db' → db'.outbox ≡ db.outbox)
    → (write db r).1.outbox ≡ db.outbox
write-outbox db (ok db') h = h db' refl
write-outbox db (err e) h = refl

order_paid-outbox :
    (g : Gateways) (o : Option Order) (payload : OutboxPayload) (db : Db)
    → (handle_order_paid g o payload db).1.outbox ≡ db.outbox
unfolding handle_order_paid convert_for_order
order_paid-outbox g none payload db = refl
order_paid-outbox g (some o) payload db = refl

donation_received-outbox :
    (g : Gateways) (d : Option Donation) (payload : OutboxPayload) (db : Db)
    → (handle_donation_received g d payload db).1.outbox ≡ db.outbox
unfolding handle_donation_received
donation_received-outbox g none payload db = refl
donation_received-outbox g (some d) payload db = ground (arith, grant-outbox d.id db)

-- No handler writes to the outbox, whether it throws or not.
pub handle-outbox :
    (g : Gateways) (payload : OutboxPayload) (now : ℕ) (db : Db)
    → (handle g payload now db).1.outbox ≡ db.outbox
unfolding handle
handle-outbox g (order_paid o) now db = order_paid-outbox g _ (order_paid o) db
handle-outbox g (donation_received d) now db = donation_received-outbox g _ (donation_received d) db
handle-outbox g (stripe_transfer p s) now db =
    write-outbox db (handle_stripe_transfer g p s now db)
      (λ db' h. stripe_transfer-outbox g p now s db db' h)
handle-outbox g (woovi_withdraw store key p) now db = refl
handle-outbox g (order_paid_store o) now db = refl
handle-outbox g (donation_received_store d) now db = refl
handle-outbox g (payment_orphaned a p) now db = refl
handle-outbox g (interest_notified i) now db = refl
handle-outbox g (raffle_drawn r) now db = refl
