-- ===== src/Orders/Transitions.antt =====
-- The statuses of an order over a history, and its other fields (orders.repository.ts).
use udv_shop_api.Prelude.{
  ℕ, ◌≡◌, refl, Bool, true, ◌&&◌, some, List, [], ◌∷◌, ◌++◌, arith, ◌==◌, Bool-cases, inl, inr,
}
use udv_shop_api.Schema.{OrderStatus, Order, Db}
use udv_shop_api.Table.{find_first}
use udv_shop_api.Table.Keys.{update_key, find_key, find_key-update_key}
use udv_shop_api.Orders.{set_order_status, is_pending_order}
use udv_shop_api.Orders.Ops.{OrderOp, step, run}
use udv_shop_api.Orders.Moves.{
  Effect, kept, moved, created, released, Move, pays, arranges, hands_over, delivers, refunds_paid,
  refunds_arranged, refunds_delivered, order_id_of,
}
use udv_shop_api.Orders.Effects.{step-Effect}
use udv_shop_api.Orders.Conservation.{IsConsistent, step-IsConsistent}

-- The statuses that an order goes through.
pub data Becomes (s : OrderStatus) : OrderStatus → Type 0 where
  stays : Becomes s s
  moves : {t u : OrderStatus} → Becomes s t → Move t u → Becomes s u
  cancels : Becomes s OrderStatus.pending_payment → Becomes s OrderStatus.cancelled

Becomes-trans : {s t u : OrderStatus} → Becomes s t → Becomes t u → Becomes s u
Becomes-trans a stays = a
Becomes-trans a (moves b m) = moves (Becomes-trans a b) m
Becomes-trans a (cancels b) = cancels (Becomes-trans a b)

-- The same order later: what was bought, by whom, where and for how much is as it was.
pub record Later (o o' : Order) : Type 0 where
  pub status : Becomes o.status o'.status
  pub same : record o { status = o'.status; updated_at = o'.updated_at } ≡ o'

-- What the table shows of an order after an operation.
abbrev Kept : ℕ → Order → List Order → Type 0
Kept k o os = (o' : Order) × (find_key order_id_of k os ≡ some o') × Later o o'

find_key-append :
    (k : ℕ) (os : List Order) (n o : Order)
    → find_key order_id_of k os ≡ some o
    → find_key order_id_of k (os ++ n ∷ []) ≡ some o
unfolding find_first
find_key-append k [] n o h = ground arith
find_key-append k (x ∷ os) n o h = ground (arith, find_key-append k os n o)

Later-refl : (o : Order) → Later o o
Later-refl o = record { status = stays; same = refl }

-- The row that an update of some key leaves at `j`.
moved_at :
    (k j : ℕ) (q : Order → Bool) (to : OrderStatus) (now : ℕ) (o : Order) (os : List Order)
    → find_key order_id_of j os ≡ some o
    → (q o ≡ true → Becomes o.status to)
    → Kept j o (update_key order_id_of k q (set_order_status to now) os)
moved_at k j q to now o os found becomes = elim (Bool-cases (o.id == k && q o)) [
  | inl e ↦ (
    set_order_status to now o,
    rw (find_key-update_key order_id_of k j q (set_order_status to now) os (λ r. refl))
        (rw found (rw e)),
    record { status = becomes (ground arith); same = refl },
  )
  | inr e ↦ (
    o,
    rw (find_key-update_key order_id_of k j q (set_order_status to now) os (λ r. refl))
        (rw found (rw e)),
    Later-refl o,
  )
]

pending_cancels :
    (s : OrderStatus) → s ≡ OrderStatus.pending_payment → Becomes s OrderStatus.cancelled
pending_cancels OrderStatus.pending_payment h = cancels stays
pending_cancels _ h = absurd (cc)

is_pending_status : (o : Order) → is_pending_order o ≡ true → o.status ≡ OrderStatus.pending_payment
is_pending_status o h = ground arith

Effect-Kept :
    {db db' : Db}
    → Effect db db'
    → (j : ℕ) (o : Order) → find_key order_id_of j db.orders ≡ some o
    → Kept j o db'.orders
Effect-Kept (kept orders shelves later) j o found = (o, rw orders found, Later-refl o)
Effect-Kept {db} (moved k q to now h orders shelves later) j o found =
    rw orders (moved_at k j q to now o db.orders found (λ e. moves stays (h o e)))
Effect-Kept {db} (created n id live later orders reserved) j o found =
    (o, rw orders (find_key-append j db.orders n o found), Later-refl o)
Effect-Kept {db} (released k n now found' p orders restocked later) j o found = rw orders (
    moved_at k j is_pending_order OrderStatus.cancelled now o db.orders found
      (λ e. pending_cancels o.status (is_pending_status o e)))

-- From consistent order tables, whatever the history of the operations of the repository, an order
-- that is in the table stays in it, its fields other than the status and the time of its last write
-- never change, its lines included, and the status goes only from pending to paid or cancelled, from paid on to
-- arranged or delivered, from arranged to delivered, and from these three to refunded.
pub run-Later :
    (ops : List (ℕ × OrderOp)) (db : Db) (j : ℕ) (o : Order)
    → IsConsistent db
    → find_key order_id_of j db.orders ≡ some o
    → (o' : Order) × (find_key order_id_of j (run ops db).orders ≡ some o') × Later o o'
unfolding run
run-Later [] db j o c found = (o, found, Later-refl o)
run-Later ((now, op) ∷ ops) db j o c found =
    let (m, found', first) = Effect-Kept (step-Effect op now db c.unique) j o found in
    let (o', found'', rest) =
      run-Later ops (step op now db) j m (step-IsConsistent op now db c) found' in
    (
      o',
      found'',
      record { status = Becomes-trans first.status rest.status; same = cc (first.same, rest.same) },
    )

cancelled_stays : {s t : OrderStatus} → Becomes s t → s ≡ OrderStatus.cancelled → t ≡ s
cancelled_stays stays h = refl
cancelled_stays (moves b pays) h = absurd (cc (cancelled_stays b h))
cancelled_stays (moves b arranges) h = absurd (cc (cancelled_stays b h))
cancelled_stays (moves b hands_over) h = absurd (cc (cancelled_stays b h))
cancelled_stays (moves b delivers) h = absurd (cc (cancelled_stays b h))
cancelled_stays (moves b refunds_paid) h = absurd (cc (cancelled_stays b h))
cancelled_stays (moves b refunds_arranged) h = absurd (cc (cancelled_stays b h))
cancelled_stays (moves b refunds_delivered) h = absurd (cc (cancelled_stays b h))
cancelled_stays (cancels b) h = absurd (cc (cancelled_stays b h))
