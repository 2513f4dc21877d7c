-- ===== src/Schema/Database.antt =====
-- The database: its tables, each in creation order, and the next identifier. `@default(uuid())`
-- draws an identifier that no row has; here the draws are counted.
use udv_shop_api.Prelude.{
  ℕ, suc, ◌+◌, ◌≡◌, refl, Bool, List, [], ◌∷◌, ◌++◌, none, sum_of-append, arith, if◌then◌else◌,
}
use udv_shop_api.Table.{count_where}
use udv_shop_api.Schema.Enums.{OutboxStatus}
use udv_shop_api.Schema.Sales.{Product, Event, EventBatch, Order, Payment, Donation, Interest}
use udv_shop_api.Schema.Raffles.{Campaign, Raffle, RafflePrize, RaffleEntry}
use udv_shop_api.Schema.Stores.{Store, StoreSubscription, WooviPixKeyVerification}
use udv_shop_api.Schema.Events.{OutboxPayload, OutboxEvent}

-- The tables that hold what can be sold.
pub record Shelves : Type 0 where
  pub products : List Product
  pub events : List Event
  pub batches : List EventBatch

pub record Db : Type 0 where
  pub next_id : ℕ
  pub stores : List Store
  pub subscriptions : List StoreSubscription
  pub verifications : List WooviPixKeyVerification
  pub shelves : Shelves
  pub orders : List Order
  pub donations : List Donation
  pub payments : List Payment
  pub interests : List Interest
  pub campaigns : List Campaign
  pub raffles : List Raffle
  pub prizes : List RafflePrize
  pub entries : List RaffleEntry
  pub outbox : List OutboxEvent

abbrev pub empty_db : Db
empty_db = record {
  next_id = 0;
  stores = [];
  subscriptions = [];
  verifications = [];
  shelves = record { products = []; events = []; batches = [] };
  orders = [];
  donations = [];
  payments = [];
  interests = [];
  campaigns = [];
  raffles = [];
  prizes = [];
  entries = [];
  outbox = [];
}

-- `tx.outboxEvent.create({ data: { type, payload } })`
unfoldable pub enqueue : OutboxPayload → Db → Db
enqueue payload db = record db {
  next_id = suc db.next_id;
  outbox =
      db.outbox
      ++ record {
        id = db.next_id;
        payload = payload;
        status = OutboxStatus.pending;
        attempts = 0;
        processed_at = none;
        claimed_at = none;
        claimed_by = none;
      }
        ∷ [];
}

-- How many events of a kind the outbox has.
abbrev pub sent : (OutboxPayload → Bool) → Db → ℕ
sent test db = count_where (λ (e : OutboxEvent). test e.payload) db.outbox

pub sent-enqueue :
    (test : OutboxPayload → Bool) (payload : OutboxPayload) (db : Db)
    → sent test (enqueue payload db) ≡ sent test db + (if test payload then 1 else 0)
unfolding enqueue
sent-enqueue test payload db = rw sum_of-append (omega arith)

pub orders-enqueue : (payload : OutboxPayload) (db : Db) → (enqueue payload db).orders ≡ db.orders
unfolding enqueue
orders-enqueue payload db = refl
