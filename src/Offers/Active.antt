-- ===== src/Offers/Active.antt =====
-- The offer of an event against its batches (src/http/api/events/events.repository.ts).
use udv_shop_api.Prelude.{
  ℕ, ◌≤◌, ◌<◌, ◌==◌, ◌&&◌, ltb, if◌then◌else◌, ◌≡◌, refl, Bool, true, false, Option, some, none,
  List, [], ◌∷◌, ◌++◌, arith, inl, inr, Bool-cases, Option-cases, All, some-injective, ap, ◌∙◌,
}
use udv_shop_api.Schema.{Event, EventBatch, Shelves}
use mathlib.Core.Path.{subst}
use udv_shop_api.Table.{find_first, find_many, sort_by, insert_by, count_where}
use udv_shop_api.Table.Laws.{sum_of-sort_by}
use udv_shop_api.Offers.{active_offer, batch_offer, on_sale, opened, not_closed, batches_of}

-- What `find` finds is the first that passes.
find_first-split :
    (p : EventBatch → Bool) (bs : List EventBatch) (b : EventBatch)
    → find_first p bs ≡ some b
    → (before : List EventBatch) × (after : List EventBatch) × (bs ≡ before ++ b ∷ after)
      × (p b ≡ true)
      × All (λ x. p x ≡ false) before
unfolding find_first
find_first-split p [] b h = ground arith
find_first-split p (x ∷ bs) b h = elim (Bool-cases (p x)) [
  | inl e ↦
      let same : x ≡ b = some-injective (ground arith) in ([], bs, rw same refl, rw⁻¹ same e, tt)
  | inr e ↦
      let (before, after, split, ok, none_before) = find_first-split p bs b (ground arith) in
      (x ∷ before, after, rw split refl, ok, (e, none_before))
]

-- The batch of an offer is the first that passes the test, with its price and its seats.
active_offer-split :
    (now : ℕ) (e : Event) (bs : List EventBatch) (b : EventBatch)
    → (active_offer now e bs).batch ≡ some b
    → (before : List EventBatch) × (after : List EventBatch) × (bs ≡ before ++ b ∷ after)
      × (on_sale now b ≡ true)
      × All (λ x. on_sale now x ≡ false) before
      × ((active_offer now e bs).price_cents ≡ b.price_cents)
      × ((active_offer now e bs).seats ≡ b.seats)
unfolding active_offer batch_offer
active_offer-split now e [] b h = ground arith
active_offer-split now e (x ∷ bs) b h = elim (Option-cases (find_first (on_sale now) (x ∷ bs))) [
  | inl z ↦ ground arith
  | inr (c, z) ↦
      let same : c ≡ b = some-injective (ground arith) in
      let (before, after, split, ok, none_before) =
        find_first-split (on_sale now) (x ∷ bs) b (z ∙ ap Option.some same) in
      (
        before,
        after,
        split,
        ok,
        none_before,
        rw (batch_offer, z, same) refl,
        rw (batch_offer, z, same) refl,
      )
]

abbrev HasOpened : ℕ → Option ℕ → Type 0
HasOpened now none = Unit
HasOpened now (some t) = t ≤ now

abbrev HasNotClosed : ℕ → Option ℕ → Type 0
HasNotClosed now none = Unit
HasNotClosed now (some t) = now < t

-- Seats are left, the sale has begun, and it has not ended.
abbrev pub Sells : ℕ → EventBatch → Type 0
Sells now b = (1 ≤ b.seats) × HasOpened now b.opens_at × HasNotClosed now b.closes_at

opened-HasOpened : (now : ℕ) (t : Option ℕ) → opened now t ≡ true → HasOpened now t
opened-HasOpened now none h = tt
opened-HasOpened now (some t) h = ground arith

HasOpened-opened : (now : ℕ) (t : Option ℕ) → HasOpened now t → opened now t ≡ true
HasOpened-opened now none h = refl
HasOpened-opened now (some t) h = ground arith

not_closed-HasNotClosed : (now : ℕ) (t : Option ℕ) → not_closed now t ≡ true → HasNotClosed now t
not_closed-HasNotClosed now none h = tt
not_closed-HasNotClosed now (some t) h = ground arith

HasNotClosed-not_closed : (now : ℕ) (t : Option ℕ) → HasNotClosed now t → not_closed now t ≡ true
HasNotClosed-not_closed now none h = refl
HasNotClosed-not_closed now (some t) h = ground arith

on_sale-Sells : (now : ℕ) (b : EventBatch) → on_sale now b ≡ true → Sells now b
on_sale-Sells now b h = (
  ground arith,
  opened-HasOpened now b.opens_at (ground arith),
  not_closed-HasNotClosed now b.closes_at (ground arith),
)

Sells-on_sale : (now : ℕ) (b : EventBatch) → Sells now b → on_sale now b ≡ true
Sells-on_sale now b (s, o, c) =
    ground (arith, HasOpened-opened now b.opens_at o, HasNotClosed-not_closed now b.closes_at c)

abbrev AtOrAfter : ℕ → List EventBatch → Type 0
AtOrAfter k bs = All (λ (x : EventBatch). k ≤ x.position) bs

-- The order of sale.
abbrev Ascending : List EventBatch → Type 0
Ascending [] = Unit
Ascending (b ∷ bs) = AtOrAfter b.position bs × Ascending bs

abbrev sooner : EventBatch → EventBatch → Bool
sooner a b = ltb a.position b.position

AtOrAfter-le : (j k : ℕ) (bs : List EventBatch) → j ≤ k → AtOrAfter k bs → AtOrAfter j bs
AtOrAfter-le j k [] h a = tt
AtOrAfter-le j k (b ∷ bs) h (x, a) = (omega arith, AtOrAfter-le j k bs h a)

AtOrAfter-insert :
    (k : ℕ) (x : EventBatch) (bs : List EventBatch)
    → k ≤ x.position
    → AtOrAfter k bs
    → AtOrAfter k (insert_by sooner x bs)
unfolding insert_by
AtOrAfter-insert k x [] h a = (h, tt)
AtOrAfter-insert k x (b ∷ bs) h (c, a) = elim (Bool-cases (sooner b x)) [
  | inl t ↦ rw t (c, AtOrAfter-insert k x bs h a)
  | inr t ↦ rw t (h, (c, a))
]

insert-Ascending :
    (x : EventBatch) (bs : List EventBatch) → Ascending bs → Ascending (insert_by sooner x bs)
unfolding insert_by
insert-Ascending x [] a = (tt, tt)
insert-Ascending x (b ∷ bs) (c, a) = elim (Bool-cases (sooner b x)) [
  | inl t ↦ rw t (AtOrAfter-insert b.position x bs (ground arith) c, insert-Ascending x bs a)
  | inr t ↦
      let le : x.position ≤ b.position = ground arith in
      rw t ((le, AtOrAfter-le x.position b.position bs le c), (c, a))
]

sort_by-Ascending : (bs : List EventBatch) → Ascending (sort_by sooner bs)
unfolding sort_by
sort_by-Ascending [] = tt
sort_by-Ascending (b ∷ bs) = insert-Ascending b (sort_by sooner bs) (sort_by-Ascending bs)

-- A batch of the event that would have to go first.
abbrev rivals : ℕ → Event → EventBatch → EventBatch → Bool
rivals now e b x = x.event_id == e.id && (sooner x b && on_sale now x)

rivals-after :
    (now : ℕ) (e : Event) (b : EventBatch) (bs : List EventBatch)
    → AtOrAfter b.position bs
    → count_where (rivals now e b) bs ≡ 0
rivals-after now e b [] a = refl
rivals-after now e b (x ∷ bs) (h, a) = ground (arith, rivals-after now e b bs a)

rivals-split :
    (now : ℕ) (e : Event) (b : EventBatch) (before after : List EventBatch)
    → All (λ x. on_sale now x ≡ false) before
    → Ascending (before ++ b ∷ after)
    → count_where (rivals now e b) (before ++ b ∷ after) ≡ 0
rivals-split now e b [] after n (c, a) = ground (arith, rivals-after now e b after c)
rivals-split now e b (x ∷ before) after (h, n) (c, a) =
    ground (arith, rivals-split now e b before after n a)

rivals-listed :
    (now : ℕ) (e : Event) (b : EventBatch) (bs : List EventBatch)
    → count_where (rivals now e b) (find_many (λ x. x.event_id == e.id) bs)
      ≡ count_where (rivals now e b) bs
unfolding find_many
rivals-listed now e b [] = refl
rivals-listed now e b (x ∷ bs) = ground (arith, rivals-listed now e b bs)

-- A batch of the event that is on sale, at a place before `b`.
abbrev pub Rivals : ℕ → Event → EventBatch → EventBatch → Type 0
Rivals now e b x = (x.event_id ≡ e.id) × (x.position < b.position) × Sells now x

no_rivals :
    (now : ℕ) (e : Event) (b : EventBatch) (bs : List EventBatch)
    → count_where (rivals now e b) bs ≡ 0
    → All (λ x. ¬ Rivals now e b x) bs
no_rivals now e b [] h = tt
no_rivals now e b (x ∷ bs) h =
    (λ (i, p, s). ground (arith, Sells-on_sale now x s), no_rivals now e b bs (ground arith))

-- The batch that an event is offered from has seats left, its sale has begun and not ended, and it is
-- offered at its price with its seats; no batch of the event that could be sold has a place before
-- it, whatever the order in which the database keeps them.
pub active_offer-first :
    (now : ℕ) (e : Event) (s : Shelves) (b : EventBatch)
    → (active_offer now e (batches_of e s)).batch ≡ some b
    → Sells now b
      × ((active_offer now e (batches_of e s)).price_cents ≡ b.price_cents)
      × ((active_offer now e (batches_of e s)).seats ≡ b.seats)
      × All (λ x. ¬ Rivals now e b x) s.batches
unfolding batches_of
active_offer-first now e s b h =
    let listed = find_many (λ (x : EventBatch). x.event_id == e.id) s.batches in
    let (before, after, split, ok, none_before, price, seats) =
      active_offer-split now e (batches_of e s) b h in
    let none_left : count_where (rivals now e b) (sort_by sooner listed) ≡ 0 = rw split (
      rivals-split now e b before after none_before
        (subst Ascending split (sort_by-Ascending listed))) in
    (
      on_sale-Sells now b ok,
      price,
      seats,
      no_rivals now e b s.batches (
          omega (
            arith,
            none_left,
            sum_of-sort_by (λ x. if rivals now e b x then 1 else 0) sooner listed,
            rivals-listed now e b s.batches,
          )),
    )
