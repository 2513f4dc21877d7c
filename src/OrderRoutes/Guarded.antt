-- ===== src/OrderRoutes/Guarded.antt =====
-- Who may do what to an order (the routes of src/http/api/orders, with the roles of a store).
use mathlib.Core.Path.{subst}
use udv_shop_api.Prelude.{
  sym, ap, ◌∙◌, ℕ, ◌≤◌, ◌≡◌, Bool, true, false, ◌&&◌, ◌||◌, Option, none, some, List, inl, inr,
  arith, ◌==◌, Option-cases,
}
use udv_shop_api.Errors.{ok, Result-cases}
use udv_shop_api.Schema.{Store, Order, Db}
use udv_shop_api.Table.{find_first}
use udv_shop_api.Table.Laws.{find_first_sound}
use udv_shop_api.Table.Keys.{count_key, find_key}
use udv_shop_api.Table.Selected.{find_key-found}
use udv_shop_api.Permissions.{
  Claims, Persona, RoleName, permissions_hook, require_store_role, require_writable_store, has_role,
  role_in,
}
use udv_shop_api.Orders.Moves.{order_id_of}
use udv_shop_api.OrderRoutes.{
  resolve_store_for_role, find_by_id_for_store, managed_order, or_not_found, store_order,
  guarded_by,
}

-- The role that lets a caller act for a store.
abbrev pub may_act : Option Claims → ℕ → RoleName → Bool
may_act none store_id min = false
may_act (some c) store_id min = c.is_platform_admin || has_role (role_in store_id c.roles) min

require_store_role-may_act :
    (user : Option Claims) (store_id : ℕ) (min : RoleName) (c : Claims)
    → require_store_role user store_id min ≡ ok c
    → may_act user store_id min ≡ true
unfolding require_store_role
require_store_role-may_act none store_id min c h = cc
require_store_role-may_act (some u) store_id min c h = ground arith

resolve_store_for_role-may_act :
    (user : Option Claims) (slug : ℕ) (min : RoleName) (db : Db) (s : Store)
    → resolve_store_for_role user slug min db ≡ ok s
    → may_act user s.id min ≡ true
unfolding resolve_store_for_role
resolve_store_for_role-may_act user slug min db s h =
    elim (Option-cases (find_first (λ s. s.slug == slug) db.stores)) [
      | inl z ↦ ground arith
      | inr (t, z) ↦ elim (Result-cases (require_store_role user t.id min)) [
        | inr (e, y) ↦ ground arith
        | inl (c, y) ↦ ground (arith, require_store_role-may_act user t.id min c y)
      ]
    ]

found-may_act :
    (min : RoleName) (user : Option Claims) (slug id : ℕ) (db : Db) (o : Order) (s : Store)
    → ((k : ℕ) → count_key order_id_of k db.orders ≤ 1)
    → resolve_store_for_role user slug min db ≡ ok s
    → or_not_found (find_by_id_for_store id s.id db) ≡ ok o
    → (find_key order_id_of id db.orders ≡ some o) × (may_act user o.store_id min ≡ true)
unfolding find_by_id_for_store
found-may_act min user slug id db o s u e h =
    elim (Option-cases (find_first (λ o. o.id == id && o.store_id == s.id) db.orders)) [
      | inl z ↦ ground arith
      | inr (o', z) ↦
          let t : (o'.id == id && o'.store_id == s.id) ≡ true =
            find_first_sound (λ o. o.id == id && o.store_id == s.id) db.orders o' z in
          let same : o' ≡ o = ground arith in
          let own : (o'.id ≡ id) × (o'.store_id ≡ s.id) = ground arith in
          let found : find_key order_id_of o'.id db.orders ≡ some o' =
            find_key-found order_id_of (λ o. o.id == id && o.store_id == s.id) db.orders o' u z in
          (
            subst (λ k. find_key order_id_of k db.orders ≡ some o) own.0 (found ∙ ap some same),
            subst (λ (x : Order). may_act user x.store_id min ≡ true) same
                (subst (λ k. may_act user k min ≡ true) (sym own.1)
                  (resolve_store_for_role-may_act user slug min db s e)),
          )
    ]

-- The order that a route goes on with has the identifier that was asked for, and the caller may act
-- for its store.
pub managed_order-may_act :
    (personas : List Persona) (min : RoleName) (user : Option Claims) (slug id : ℕ) (db : Db)
    (o : Order)
    → ((k : ℕ) → count_key order_id_of k db.orders ≤ 1)
    → managed_order personas min user slug id db ≡ ok o
    → (find_key order_id_of id db.orders ≡ some o) × (may_act user o.store_id min ≡ true)
unfolding managed_order store_order
managed_order-may_act personas min user slug id db o u h =
    elim (Result-cases (permissions_hook (guarded_by personas) user)) [
      | inr (e, z) ↦ ground arith
      | inl (a, z) ↦ elim (Result-cases (resolve_store_for_role user slug min db)) [
        | inr (e, y) ↦ ground arith
        | inl (s, y) ↦ elim (Result-cases (require_writable_store user s)) [
          | inr (e, x) ↦ ground arith
          | inl (c, x) ↦ found-may_act min user slug id db o s u y (ground arith)
        ]
      ]
    ]
