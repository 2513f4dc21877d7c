-- ===== src/Checkout/Refines.antt =====
-- src/http/api/orders/checkout/checkout.service.ts as a sequence of operations of the order
-- repository.
use udv_shop_api.Prelude.{
  ℕ, suc, ◌≡◌, refl, Bool, true, false, List, [], ◌∷◌, ◌++◌, inl, inr, ap, ◌∙◌,
}
use mathlib.Core.Path.{subst}
use udv_shop_api.Errors.{Result, ok, transaction, Result-cases}
use udv_shop_api.Schema.{PaymentProvider, Order, Db}
use udv_shop_api.Shelf.{Target}
use udv_shop_api.Orders.{
  NewOrder, create_pending_order, attach_provider_id, attach_pix_charge, compensate_failed_checkout,
}
use udv_shop_api.Orders.Ops.{
  OrderOp, create, attach_provider, attach_pix, cancel, failed, step, run,
}
use udv_shop_api.Orders.Conservation.{IsConsistent, total, run-total}
use udv_shop_api.Checkout.{
  Cart, PaymentGateways, checkout, place_order, prepare_order, after_charge, charge, charge_pix,
  charge_card, split_of,
}

-- A database that a history of the orders reaches.
abbrev pub Reaches : Db → Db → Type 0
Reaches db db' = (ops : List (ℕ × OrderOp)) × (run ops db ≡ db')

run-append : (xs ys : List (ℕ × OrderOp)) (db : Db) → run (xs ++ ys) db ≡ run ys (run xs db)
unfolding run
run-append [] ys db = refl
run-append ((now, op) ∷ xs) ys db = run-append xs ys (step op now db)

Reaches-then : (a b c : Db) → Reaches a b → Reaches b c → Reaches a c
Reaches-then a b c (xs, p) (ys, q) = (xs ++ ys, run-append xs ys a ∙ rw p q)

attach-Reaches :
    (p x now : ℕ) (db db' : Db) → attach_provider_id p x now db ≡ ok db' → Reaches db db'
unfolding run step
attach-Reaches p x now db db' h = ((now, attach_provider p x) ∷ [], rw h refl)

pix-Reaches :
    (p b q now : ℕ) (db db' : Db) → attach_pix_charge p b q now db ≡ ok db' → Reaches db db'
unfolding run step
pix-Reaches p b q now db db' h = ((now, attach_pix p b q) ∷ [], rw h refl)

create-Reaches :
    (o : NewOrder) (now : ℕ) (db : Db) (row : Order) (db' : Db)
    → create_pending_order now o db ≡ ok (row, db')
    → Reaches db db'
unfolding run step
create-Reaches o now db row db' h =
    ((now, create o) ∷ [], ap (λ (m : Result (Order × Db)). (transaction db m).1) h)

cancel-Reaches :
    (order_id now : ℕ) (db : Db) (w : Bool) (db' : Db)
    → compensate_failed_checkout order_id now db ≡ ok (w, db')
    → Reaches db db'
unfolding run step compensate_failed_checkout
cancel-Reaches order_id now db w db' h =
    ((now, cancel order_id failed) ∷ [], ap (λ (m : Result (Bool × Db)). (transaction db m).1) h)

module _ (label : ℕ → ℕ → ℕ) (fee : ℕ) (g : PaymentGateways) where
  card-Reaches :
      (o : NewOrder) (p now : ℕ) (db : Db) → Reaches db (charge_card label fee g o p now db).1
  unfolding charge_card run
  card-Reaches o p now db = elim (Result-cases (g.create_payment_intent o.total_cents p)) [
    | inr (e, z) ↦ rw (charge_card, z) ([], refl)
    | inl (x, z) ↦ elim (Result-cases (attach_provider_id p x now db)) [
      | inr (e, y) ↦ rw (charge_card, z, y) ([], refl)
      | inl (db1, y) ↦ rw (charge_card, z, y) (attach-Reaches p x now db db1 y)
    ]
  ]

  pix-charge-Reaches :
      (o : NewOrder) (p now : ℕ) (db : Db) → Reaches db (charge_pix label fee g o p now db).1
  unfolding charge_pix run
  pix-charge-Reaches o p now db =
      elim (Result-cases (g.create_charge o.total_cents p (split_of label fee g o))) [
        | inr (e, z) ↦ rw (charge_pix, z) ([], refl)
        | inl (c, z) ↦ elim (Result-cases (attach_provider_id p c.provider_id now db)) [
          | inr (e, y) ↦ rw (charge_pix, z, y) ([], refl)
          | inl (db1, y) ↦
              elim (Result-cases (attach_pix_charge p c.br_code c.qr_code_url now db1)) [
                | inr (e, x) ↦
                    rw (charge_pix, z, y, x) (attach-Reaches p c.provider_id now db db1 y)
                | inl (db2, x) ↦
                    rw (charge_pix, z, y, x)
                      (Reaches-then db db1 db2 (attach-Reaches p c.provider_id now db db1 y)
                        (pix-Reaches p c.br_code c.qr_code_url now db1 db2 x))
              ]
        ]
      ]

  charge-by :
      (provider : PaymentProvider) (o : NewOrder) (p now : ℕ) (db : Db)
      → o.provider ≡ provider
      → Reaches db (charge label fee g o p now db).1
  unfolding charge
  charge-by PaymentProvider.stripe o p now db e = rw (charge, e) (card-Reaches o p now db)
  charge-by PaymentProvider.woovi o p now db e = rw (charge, e) (pix-charge-Reaches o p now db)

  charge-Reaches :
      (o : NewOrder) (p now : ℕ) (db : Db) → Reaches db (charge label fee g o p now db).1
  unfolding charge
  charge-Reaches o p now db = charge-by o.provider o p now db refl

  after-Reaches :
      (a : Db) (order_id now : ℕ) (r : Bool × Db)
      → Reaches a r.1
      → Reaches a (after_charge label fee g order_id now r).1
  unfolding after_charge
  after-Reaches a order_id now (true, db) h = h
  after-Reaches a order_id now (false, db) h =
      elim (Result-cases (compensate_failed_checkout order_id now db)) [
        | inr (e, z) ↦ rw (after_charge, z) h
        | inl ((w, db'), z) ↦
            rw (after_charge, z) (Reaches-then a db db' h (cancel-Reaches order_id now db w db' z))
      ]

  place-Reaches :
      (o : NewOrder) (now : ℕ) (db : Db) → Reaches db (place_order label fee g o now db).1
  unfolding place_order run
  place-Reaches o now db = elim (Result-cases (create_pending_order now o db)) [
    | inr (e, z) ↦ rw (place_order, z) ([], refl)
    | inl ((row, made), z) ↦
        rw (place_order, z)
          (after-Reaches db row.id now (charge label fee g o (suc row.id) now made) (
            Reaches-then db made (charge label fee g o (suc row.id) now made).1
              (create-Reaches o now db row made z) (charge-Reaches o (suc row.id) now made)))
  ]

  checkout-Reaches :
      (now : ℕ) (cart : Cart) (db : Db) → Reaches db (checkout label fee g now cart db).1
  unfolding checkout run
  checkout-Reaches now cart db = elim (Result-cases (prepare_order label fee g now cart db)) [
    | inr (e, z) ↦ rw (checkout, z) ([], refl)
    | inl (o, z) ↦ rw (checkout, z) (place-Reaches o now db)
  ]

  -- Whatever the cart and whatever the gateways answer, the database that a checkout leaves is reached by
  -- operations of the orders; so what is left of a target and what is held of it together are as
  -- before, also when the charge fails and the order is given up.
  pub checkout-total :
      (now : ℕ) (cart : Cart) (t : Target) (db : Db)
      → IsConsistent db
      → ((ops : List (ℕ × OrderOp)) × (run ops db ≡ (checkout label fee g now cart db).1))
        × (total t (checkout label fee g now cart db).1 ≡ total t db)
  checkout-total now cart t db c =
      let (ops, reached) = checkout-Reaches now cart db in
      ((ops, reached), subst (λ db'. total t db' ≡ total t db) reached (run-total ops t db c))
