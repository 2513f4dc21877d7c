-- ===== src/Outbox.antt =====
-- src/workers/outbox-relay.ts: the relay that claims the pending events of the outbox, does what
-- each one asks for, and tries again what failed.
use udv_shop_api.Prelude.{
  ℕ, suc, ◌+◌, ◌*◌, ◌-◌, ℤ, pos, ◌-ℤ◌, Bool, true, false, not, ◌&&◌, Option, none, some, List, [],
  ◌∷◌, ◌++◌, ltb, leb, ◌==◌, if◌then◌else◌, is_some_of, any, take, map,
}
pub mod Handlers
pub mod Claims
pub mod Attempts
use udv_shop_api.Errors.{AppError, Result, ok, err, Effects, done, and_then, commit, write, ◌>>=◌}
use udv_shop_api.Schema.{
  OutboxStatus, outbox_is, OutboxPayload, OutboxEvent, TransferSource, charge_id, invoice_id,
  order_paid, donation_received, stripe_transfer, woovi_withdraw, Order, OrderItem, Donation,
  DonationStatus, donation_in, Payment, Store, Db,
}
use udv_shop_api.Table.{update_many, find_many, update_first}
use udv_shop_api.Table.Keys.{find_key}
use udv_shop_api.Interests.{convert_for_order}
use udv_shop_api.Grants.{grant_numbers_for_donation}
use udv_shop_api.Routing.{find_payment, store_of_payment}
use udv_shop_api.Payouts.{is_given}
use udv_shop_api.Orders.{update_payment}

-- MAX_ATTEMPTS and STALE_CLAIM_MS
abbrev pub max_attempts : ℕ
max_attempts = 5

abbrev pub stale_claim_ms : ℕ
stale_claim_ms = 5 * 60000

-- What Stripe tells of a charge.
pub record ChargeFee : Type 0 where
  pub amount_cents : ℕ
  pub fee_cents : ℕ

-- The gateways. `mail` is the error, if any, of composing and sending what an event tells; a transfer
-- takes the amount, the account, the charge and the payment of its idempotency key.
pub record Gateways : Type 0 where
  pub mail : OutboxPayload → Db → Option AppError
  pub retrieve_invoice_charge_id : ℕ → Result (Option ℕ)
  pub retrieve_charge_fee : ℕ → Result ChargeFee
  pub create_transfer : ℤ → ℕ → ℕ → ℕ → Result ℕ
  pub withdraw_sub_account : ℕ → Option AppError

abbrev pub is_stale : ℕ → Option ℕ → Bool
is_stale now none = false
is_stale now (some t) = ltb (t + stale_claim_ms) now

abbrev pub is_abandoned : ℕ → OutboxEvent → Bool
is_abandoned now e = outbox_is OutboxStatus.processing e.status && is_stale now e.claimed_at

abbrev pub give_back : OutboxEvent → OutboxEvent
give_back e = record e { status = OutboxStatus.pending; claimed_by = none; claimed_at = none }

-- The claims that are abandoned are given back.
unfoldable pub reap : ℕ → Db → Db
reap now db = record db { outbox = update_many (is_abandoned now) give_back db.outbox }

abbrev pub is_pending_event : OutboxEvent → Bool
is_pending_event e = outbox_is OutboxStatus.pending e.status

-- The identifiers of the first 50 pending events.
unfoldable pub candidates : Db → List ℕ
candidates db = map (λ e. e.id) (take 50 (find_many is_pending_event db.outbox))

abbrev pub is_candidate : List ℕ → OutboxEvent → Bool
is_candidate ids e = any (λ id. e.id == id) ids && is_pending_event e

abbrev pub set_claimed : ℕ → ℕ → OutboxEvent → OutboxEvent
set_claimed token now e = record e {
  status = OutboxStatus.processing;
  claimed_by = some token;
  claimed_at = some now;
}

abbrev pub is_held : ℕ → OutboxEvent → Bool
is_held token e = outbox_is OutboxStatus.processing e.status && is_some_of token e.claimed_by

-- The claim under a token, and the events that it got.
unfoldable pub claim : List ℕ → ℕ → ℕ → Db → List OutboxEvent × Db
claim ids token now db =
    let claimed = record db {
      outbox = update_many (is_candidate ids) (set_claimed token now) db.outbox;
    } in
    (find_many (λ e. any (λ id. e.id == id) ids && is_held token e) claimed.outbox, claimed)

-- The sends of an event.
abbrev send : Gateways → OutboxPayload → Db → Effects Db
send g payload db = (g.mail payload db, db)

abbrev ids_of : (OrderItem → Option ℕ) → List OrderItem → List ℕ
ids_of key [] = []
ids_of key (i ∷ is) = elim (key i) [ none ↦ ids_of key is | some k ↦ k ∷ ids_of key is ]

-- `order.paid`: the interests that the order satisfies are converted before the message is sent.
unfoldable pub handle_order_paid : Gateways → Option Order → OutboxPayload → Db → Effects Db
handle_order_paid g none payload db = done db
handle_order_paid g (some o) payload db =
    send g payload
      (convert_for_order o.user_id (ids_of (λ i. i.product_id) o.items)
        (ids_of (λ i. i.event_id) o.items) db).1

-- `donation.received`: the numbers are granted before the message is sent.
unfoldable pub handle_donation_received :
    Gateways → Option Donation → OutboxPayload → Db → Effects Db
handle_donation_received g none payload db = done db
handle_donation_received g (some d) payload db =
    if donation_in (DonationStatus.paid ∷ []) d.status
    then send g payload (grant_numbers_for_donation d.id db).1
    else done db

-- The charge of a transfer: an invoice is asked for its charge, and may have none.
unfoldable pub resolve_charge : Gateways → TransferSource → Result (Option ℕ)
resolve_charge g (charge_id c) = ok (some c)
resolve_charge g (invoice_id i) = g.retrieve_invoice_charge_id i

-- The transfer itself: what was charged less the fee, and the record of both.
unfoldable pub transfer_charge : Gateways → ℕ → ℕ → Option ℕ → ℕ → Db → Result Db
transfer_charge g payment_id account none now db = ok db
transfer_charge g payment_id account (some charge) now db = do
  fee ← g.retrieve_charge_fee charge
  transfer ← g.create_transfer (pos fee.amount_cents -ℤ pos fee.fee_cents) account charge payment_id
  update_payment payment_id
      (λ p. record p {
        provider_fee_cents = some (pos fee.fee_cents);
        stripe_transfer_id = some transfer;
        updated_at = now;
      })
      db

abbrev pub account_of : Option Store → Option ℕ
account_of none = none
account_of (some s) = s.stripe_account_id

unfoldable pub transfer_to : Gateways → ℕ → TransferSource → Option ℕ → ℕ → Db → Result Db
transfer_to g payment_id source none now db = ok db
transfer_to g payment_id source (some account) now db =
    if is_given (some account)
    then (resolve_charge g source >>= λ charge. transfer_charge g payment_id account charge now db)
    else ok db

-- `stripe.transfer`: nothing for a payment that is not there, was transferred, or whose store has no
-- account.
unfoldable pub handle_stripe_transfer : Gateways → ℕ → TransferSource → ℕ → Db → Result Db
handle_stripe_transfer g payment_id source now db = elim (find_payment payment_id db) [
  | none ↦ ok db
  | some p ↦
      if is_given p.stripe_transfer_id
      then ok db
      else transfer_to g payment_id source (account_of (store_of_payment payment_id db)) now db
]

-- What the relay does for an event, by its type.
unfoldable pub handle : Gateways → OutboxPayload → ℕ → Db → Effects Db
handle g (order_paid o) now db =
    handle_order_paid g (find_key (λ r. r.id) o db.orders) (order_paid o) db
handle g (donation_received d) now db =
    handle_donation_received g (find_key (λ r. r.id) d db.donations) (donation_received d) db
handle g (stripe_transfer p source) now db = write db (handle_stripe_transfer g p source now db)
handle g (woovi_withdraw store key p) now db = (g.withdraw_sub_account key, db)
handle g payload now db = send g payload db

abbrev pub set_event_done : ℕ → OutboxEvent → OutboxEvent
set_event_done now e = record e {
  status = OutboxStatus.processed;
  processed_at = some now;
  claimed_by = none;
  claimed_at = none;
}

-- An event that failed: its last attempt is terminal, any other gives it back. The attempts are those
-- of the row as it was claimed.
abbrev pub set_event_failed : OutboxEvent → OutboxEvent → OutboxEvent
set_event_failed seen e =
    if leb max_attempts (suc seen.attempts)
    then record e {
      attempts = suc seen.attempts;
      status = OutboxStatus.failed;
      claimed_by = none;
      claimed_at = none;
    }
    else record e {
      attempts = suc seen.attempts;
      status = OutboxStatus.pending;
      claimed_by = seen.claimed_by;
      claimed_at = seen.claimed_at;
    }

abbrev pub update_event : ℕ → (OutboxEvent → OutboxEvent) → Db → Db
update_event id f db = record db { outbox = update_first (λ e. e.id == id) f db.outbox }

abbrev pub settle_event : OutboxEvent → ℕ → Effects Db → ℕ × Db
settle_event e now (none, db) = (1, update_event e.id (set_event_done now) db)
settle_event e now (some error, db) = (0, update_event e.id (set_event_failed e) db)

-- The loop over the events that were claimed: how many were processed.
unfoldable pub process_each : Gateways → ℕ → List OutboxEvent → Db → ℕ × Db
process_each g now [] db = (0, db)
process_each g now (e ∷ es) db =
    let (n, db') = settle_event e now (handle g e.payload now db) in
    let (m, db'') = process_each g now es db' in (n + m, db'')

-- The tick over its candidates; its token is the next identifier.
unfoldable pub relay_candidates : List ℕ → Gateways → ℕ → Db → ℕ × Db
unfolding claim process_each
relay_candidates [] g now db = (0, db)
relay_candidates (id ∷ ids) g now db =
    let (events, claimed) =
      claim (id ∷ ids) db.next_id now (record db { next_id = suc db.next_id }) in
    process_each g now events claimed

-- `relayOutbox`: how many events it processed.
unfoldable pub relay_outbox : Gateways → ℕ → Db → ℕ × Db
unfolding reap candidates relay_candidates
relay_outbox g now db =
    let reaped = reap now db in relay_candidates (candidates reaped) g now reaped
