-- ===== src/Offers.antt =====
-- src/http/api/events/events.repository.ts: at what price, and from which batch, an event sells
-- now. The batches of an event come in the order of sale.
use udv_shop_api.Prelude.{
  ℕ, ◌+◌, Bool, true, false, not, ◌&&◌, Option, none, some, List, [], ◌∷◌, ltb, leb, ◌==◌,
  if◌then◌else◌, is_none, or_else, sum_of,
}
pub mod Active
use udv_shop_api.Schema.{Event, EventBatch, Shelves}
use udv_shop_api.Table.{find_first, find_many, sort_by}

-- `EVENT_INCLUDE`: the batches of an event by position.
unfoldable pub batches_of : Event → Shelves → List EventBatch
batches_of e s =
    sort_by (λ a b. ltb a.position b.position) (find_many (λ b. b.event_id == e.id) s.batches)

pub record ActiveOffer : Type 0 where
  pub batch : Option EventBatch
  pub price_cents : ℕ
  pub seats : ℕ

abbrev pub opened : ℕ → Option ℕ → Bool
opened now none = true
opened now (some t) = leb t now

abbrev pub not_closed : ℕ → Option ℕ → Bool
not_closed now none = true
not_closed now (some t) = ltb now t

abbrev pub opens_later : ℕ → Option ℕ → Bool
opens_later now none = false
opens_later now (some t) = ltb now t

-- A batch that has seats and is in its window.
abbrev pub on_sale : ℕ → EventBatch → Bool
on_sale now b = ltb 0 b.seats && (opened now b.opens_at && not_closed now b.closes_at)

abbrev is_future : ℕ → EventBatch → Bool
is_future now b = ltb 0 b.seats && opens_later now b.opens_at

last_price : ℕ → List EventBatch → ℕ
last_price price [] = price
last_price price (b ∷ bs) = last_price b.price_cents bs

-- The price that is shown when nothing is on sale: of the next batch, or of the last one.
unfoldable pub reference_price : ℕ → Event → List EventBatch → ℕ
unfolding last_price
reference_price now e batches = elim (find_first (is_future now) batches) [
  | some b ↦ b.price_cents
  | none ↦ last_price e.price_cents batches
]

unfoldable pub batch_offer : ℕ → Event → List EventBatch → ActiveOffer
unfolding reference_price
batch_offer now e batches = elim (find_first (on_sale now) batches) [
  | some b ↦ record { batch = some b; price_cents = b.price_cents; seats = b.seats }
  | none ↦ record { batch = none; price_cents = reference_price now e batches; seats = 0 }
]

-- `activeOffer`
unfoldable pub active_offer : ℕ → Event → List EventBatch → ActiveOffer
active_offer now e [] = record { batch = none; price_cents = e.price_cents; seats = e.seats }
active_offer now e (b ∷ bs) = batch_offer now e (b ∷ bs)

abbrev follows : EventBatch → EventBatch → Bool
follows current b = ltb current.position b.position && ltb 0 b.seats

abbrev dearer : EventBatch → Option EventBatch → Option ℕ
dearer current none = none
dearer current (some next) =
    if ltb current.price_cents next.price_cents then some next.price_cents else none

-- `nextBatchPrice`
unfoldable pub next_batch_price : Option EventBatch → List EventBatch → Option ℕ
next_batch_price none batches = none
next_batch_price (some current) batches = dearer current (find_first (follows current) batches)

-- `totalSeatsLeft`
unfoldable pub total_seats_left : ℕ → Event → List EventBatch → ℕ
total_seats_left now e [] = e.seats
total_seats_left now e (b ∷ bs) =
    sum_of (λ b. b.seats) (find_many (λ b. not_closed now b.closes_at) (b ∷ bs))

-- `eventFinished`
unfoldable pub event_finished : ℕ → Event → Bool
event_finished now e = ltb (or_else e.ends_at e.starts_at) now
