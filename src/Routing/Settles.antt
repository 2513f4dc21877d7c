-- ===== src/Routing/Settles.antt =====
-- Repeated calls of the payment routing (src/workers/payment-routing.ts).
use udv_shop_api.Prelude.{ℕ, ◌≡◌, refl, ap, Option, none, some, List, arith, inl, inr, Option-cases}
use mathlib.Core.Path.{subst}
use udv_shop_api.Errors.{Result, ok, err, Effects, done, commit}
use udv_shop_api.Schema.{Payment, Db}
use udv_shop_api.Table.Keys.{update_key, count_at, count_at-update_key}
use udv_shop_api.Orders.{mark_paid, is_payable, settle}
use udv_shop_api.Orders.Repeats.{payment_id_of, payments-mark_paid, mark_paid-none}
use udv_shop_api.Donations.{mark_donation_paid}
use udv_shop_api.Donations.Repeats.{payments-mark_donation_paid, mark_donation_paid-none}
use udv_shop_api.Routing.{
  AggregateKind, order_kind, donation_kind, aggregate_of, mark_kind_paid, mark_payment_paid,
}

-- With no payable payment, nothing is done, whatever the payment is of.
mark_kind_paid-none :
    (kind : Option AggregateKind) (k : ℕ) (x : Option ℕ) (now : ℕ) (db : Db)
    → count_at payment_id_of k is_payable db.payments ≡ 0
    → mark_kind_paid kind k x now db ≡ done db
unfolding mark_kind_paid
mark_kind_paid-none none k x now db h = refl
mark_kind_paid-none (some order_kind) k x now db h = rw (mark_paid-none k x now db h) refl
mark_kind_paid-none (some donation_kind) k x now db h =
    rw (mark_donation_paid-none k x now db h) refl

commit-ok :
    {A : Type 0} (db : Db) (m : Result (A × Db)) (db' : Db)
    → commit db m ≡ done db'
    → (a : A) × (m ≡ ok (a, db'))
commit-ok db (ok (a, s)) db' h = (a, ground arith)
commit-ok db (err e) db' h = ground arith

count-settled :
    (k : ℕ) (x : Option ℕ) (now : ℕ) (ps : List Payment)
    → count_at payment_id_of k is_payable (update_key payment_id_of k is_payable (settle x now) ps)
      ≡ 0
count-settled k x now ps =
    count_at-update_key payment_id_of k is_payable (settle x now) ps (λ p e. refl)

-- A payment that was handled is payable no more.
settled :
    (kind : AggregateKind) (k : ℕ) (x : Option ℕ) (now : ℕ) (db db' : Db)
    → mark_kind_paid (some kind) k x now db ≡ done db'
    → count_at payment_id_of k is_payable db'.payments ≡ 0
unfolding mark_kind_paid
settled order_kind k x now db db' h =
    let (r, e) = commit-ok db (mark_paid k x now db) db' h in
    rw (payments-mark_paid k x now db r db' e) (count-settled k x now db.payments)
settled donation_kind k x now db db' h =
    let (r, e) = commit-ok db (mark_donation_paid k x now db) db' h in
    rw (payments-mark_donation_paid k x now db r db' e) (count-settled k x now db.payments)

-- A payment that is of nothing, and stays so.
unrouted :
    (k : ℕ) (x y : Option ℕ) (now later : ℕ) (db db' : Db)
    → aggregate_of k db ≡ none
    → mark_payment_paid k x now db ≡ done db'
    → mark_payment_paid k y later db' ≡ done db'
unfolding mark_payment_paid mark_kind_paid
unrouted k x y now later db db' z h =
    subst (λ s. mark_payment_paid k y later s ≡ done s)
      (ap (λ (r : Effects Db). r.1) (subst (λ a. mark_kind_paid a k x now db ≡ done db') z h))
      (rw (mark_payment_paid, z) refl)

-- The payment of an order or of a donation, told twice: after a first delivery that threw nothing, a
-- second one, whatever it carries, changes nothing and throws nothing.
pub mark_payment_paid-mark_payment_paid :
    (k : ℕ) (x y : Option ℕ) (now later : ℕ) (db db' : Db)
    → mark_payment_paid k x now db ≡ done db'
    → mark_payment_paid k y later db' ≡ done db'
unfolding mark_payment_paid
mark_payment_paid-mark_payment_paid k x y now later db db' h =
    elim (Option-cases (aggregate_of k db)) [
      | inl z ↦ unrouted k x y now later db db' z h
      | inr (kind, z) ↦
          mark_kind_paid-none (aggregate_of k db') k y later db'
            (settled kind k x now db db' (subst (λ a. mark_kind_paid a k x now db ≡ done db') z h))
    ]
