-- ===== src/Shelf/Lines.antt =====
-- The reservation and the restocking of all the lines of an order.
use udv_shop_api.Prelude.{
  ℕ, ◌+◌, ◌≡◌, refl, none, some, List, [], ◌∷◌, sum_of, if◌then◌else◌, arith, Option-cases, inl,
  inr, ◌==◌, ltb,
}
use udv_shop_api.Errors.{ok, >>=-eq-ok}
use udv_shop_api.Schema.{OrderItem, Shelves}
use udv_shop_api.Table.Laws.{sum_of-sort_by, sum_of-same}
use udv_shop_api.Shelf.{
  Target, lock_key, target_of, reserve_item, reserve_items, sorted_items, restock_item,
  restock_items, available, rows_of, is_for, demand,
}
use udv_shop_api.Shelf.Laws.{
  available-reserve_target, rows_of-reserve_target, reserve_target-row, restock_target-ok,
  available-restock_target, rows_of-restock_target,
}

-- 1 for a line whose target has no row.
abbrev pub missing : Shelves → OrderItem → ℕ
missing s i = elim (target_of i) [ none ↦ 0 | some t ↦ if rows_of t s == 0 then 1 else 0 ]

-- Every line that has a target finds it on the shelf.
abbrev pub OnShelf : Shelves → List OrderItem → Type 0
OnShelf s items = sum_of (missing s) items ≡ 0

-- The shelf has the same rows, whatever is left of them.
abbrev pub SameRows : Shelves → Shelves → Type 0
SameRows s s' = (u : Target) → rows_of u s' ≡ rows_of u s

missing-SameRows : (s s' : Shelves) (i : OrderItem) → SameRows s s' → missing s' i ≡ missing s i
missing-SameRows s s' i same = elim (Option-cases (target_of i)) [
  | inl e ↦ ground arith
  | inr (t, e) ↦ ground (arith, same t)
]

pub OnShelf-SameRows :
    (s s' : Shelves) (items : List OrderItem) → SameRows s s' → OnShelf s items → OnShelf s' items
OnShelf-SameRows s s' items same h =
    omega (arith, sum_of-same (missing s') (missing s) items (λ i. missing-SameRows s s' i same))

available-reserve_item :
    (u : Target) (i : OrderItem) (s : Shelves) {s' : Shelves}
    → reserve_item i s ≡ ok s'
    → available u s' + (if is_for u (target_of i) then i.qty else 0) ≡ available u s
unfolding reserve_item
available-reserve_item u i s {s'} h = elim (Option-cases (target_of i)) [
  | inl e ↦ ground arith
  | inr (t, e) ↦ ground (arith, available-reserve_target t u i.qty s {s' = s'})
]

reserve_item-SameRows :
    (i : OrderItem) (s : Shelves) {s' : Shelves} → reserve_item i s ≡ ok s' → SameRows s s'
unfolding reserve_item
reserve_item-SameRows i s {s'} h u = elim (Option-cases (target_of i)) [
  | inl e ↦ ground arith
  | inr (t, e) ↦ ground (arith, rows_of-reserve_target t u i.qty s {s' = s'})
]

reserve_item-found :
    (i : OrderItem) (s : Shelves) {s' : Shelves} → reserve_item i s ≡ ok s' → missing s i ≡ 0
unfolding reserve_item
reserve_item-found i s {s'} h = elim (Option-cases (target_of i)) [
  | inl e ↦ ground arith
  | inr (t, e) ↦ ground (arith, reserve_target-row t i.qty s {s' = s'})
]

pub reserve_items-SameRows :
    (items : List OrderItem) (s : Shelves) {s' : Shelves}
    → reserve_items items s ≡ ok s'
    → SameRows s s'
unfolding reserve_items
reserve_items-SameRows [] s h u = ground arith
reserve_items-SameRows (i ∷ items) s h u =
    let (m, first, rest) = >>=-eq-ok (reserve_item i s) (reserve_items items) h in
    omega (arith, reserve_item-SameRows i s first u, reserve_items-SameRows items m rest u)

-- A reservation takes exactly the demand of its lines.
pub available-reserve_items :
    (u : Target) (items : List OrderItem) (s : Shelves) {s' : Shelves}
    → reserve_items items s ≡ ok s'
    → available u s' + demand u items ≡ available u s
unfolding reserve_items
available-reserve_items u [] s h = ground arith
available-reserve_items u (i ∷ items) s h =
    let (m, first, rest) = >>=-eq-ok (reserve_item i s) (reserve_items items) h in
    omega (arith, available-reserve_item u i s first, available-reserve_items u items m rest)

pub reserve_items-OnShelf :
    (items : List OrderItem) (s : Shelves) {s' : Shelves}
    → reserve_items items s ≡ ok s'
    → OnShelf s items
unfolding reserve_items
reserve_items-OnShelf [] s h = refl
reserve_items-OnShelf (i ∷ items) s h =
    let (m, first, rest) = >>=-eq-ok (reserve_item i s) (reserve_items items) h in
    omega (
      arith,
      reserve_item-found i s first,
      reserve_items-OnShelf items m rest,
      sum_of-same (missing m) (missing s) items
          (λ j. missing-SameRows s m j (reserve_item-SameRows i s first)),
    )

available-restock_item :
    (u : Target) (i : OrderItem) (s : Shelves) {s' : Shelves}
    → restock_item i s ≡ ok s'
    → available u s' ≡ available u s + (if is_for u (target_of i) then i.qty else 0)
unfolding restock_item
available-restock_item u i s {s'} h = elim (Option-cases (target_of i)) [
  | inl e ↦ ground arith
  | inr (t, e) ↦ ground (arith, available-restock_target t u i.qty s {s' = s'})
]

restock_item-SameRows :
    (i : OrderItem) (s : Shelves) {s' : Shelves} → restock_item i s ≡ ok s' → SameRows s s'
unfolding restock_item
restock_item-SameRows i s {s'} h u = elim (Option-cases (target_of i)) [
  | inl e ↦ ground arith
  | inr (t, e) ↦ ground (arith, rows_of-restock_target t u i.qty s {s' = s'})
]

restock_item-ok :
    (i : OrderItem) (s : Shelves) → missing s i ≡ 0 → (s' : Shelves) × (restock_item i s ≡ ok s')
unfolding restock_item
restock_item-ok i s h = elim (Option-cases (target_of i)) [
  | inl e ↦ (s, rw (e, restock_item))
  | inr (t, e) ↦
      let (s', good) = restock_target-ok t i.qty s (ground arith) in (s', rw (e, restock_item) good)
]

-- Lines that are on the shelf can be given back.
pub restock_items-ok :
    (items : List OrderItem) (s : Shelves)
    → OnShelf s items
    → (s' : Shelves) × (restock_items items s ≡ ok s')
unfolding restock_items
restock_items-ok [] s h = (s, refl)
restock_items-ok (i ∷ items) s h =
    let (m, first) = restock_item-ok i s (omega arith) in
    let later : OnShelf m items =
      OnShelf-SameRows s m items (restock_item-SameRows i s first) (omega arith) in
    let (s', rest) = restock_items-ok items m later in (s', rw first rest)

pub restock_items-SameRows :
    (items : List OrderItem) (s : Shelves) {s' : Shelves}
    → restock_items items s ≡ ok s'
    → SameRows s s'
unfolding restock_items
restock_items-SameRows [] s h u = ground arith
restock_items-SameRows (i ∷ items) s h u =
    let (m, first, rest) = >>=-eq-ok (restock_item i s) (restock_items items) h in
    omega (arith, restock_item-SameRows i s first u, restock_items-SameRows items m rest u)

-- A restocking gives exactly the demand of its lines back.
pub available-restock_items :
    (u : Target) (items : List OrderItem) (s : Shelves) {s' : Shelves}
    → restock_items items s ≡ ok s'
    → available u s' ≡ available u s + demand u items
unfolding restock_items
available-restock_items u [] s h = ground arith
available-restock_items u (i ∷ items) s h =
    let (m, first, rest) = >>=-eq-ok (restock_item i s) (restock_items items) h in
    omega (arith, available-restock_item u i s first, available-restock_items u items m rest)

-- The order in which the lines are locked changes no demand.
pub demand-sorted_items :
    (u : Target) (items : List OrderItem) → demand u (sorted_items items) ≡ demand u items
unfolding sorted_items
demand-sorted_items u items = sum_of-sort_by _ _ items

pub OnShelf-sorted_items :
    (s : Shelves) (items : List OrderItem) → OnShelf s (sorted_items items) → OnShelf s items
unfolding sorted_items
OnShelf-sorted_items s items h =
    omega (arith, sum_of-sort_by (missing s) (λ a b. ltb (lock_key a) (lock_key b)) items)
