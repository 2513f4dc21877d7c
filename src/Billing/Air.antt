-- ===== src/Billing/Air.antt =====
-- The events of a subscription and the state of a store (billing.repository.ts).
use udv_shop_api.Prelude.{
  ℕ, ◌≡◌, refl, ap, ◌∙◌, Bool, true, false, ◌&&◌, Option, none, some, List, [], ◌∷◌, ◌==◌, inl, inr,
  arith, Bool-cases, sym, &&-right,
}
use udv_shop_api.Payouts.{is_given}
use udv_shop_api.Schema.{
  Store, StoreStatus, StoreSuspensionReason, StoreSubscription, StoreSubscriptionStatus, Db,
}
use udv_shop_api.Table.{update_many, find_many}
use udv_shop_api.Table.Keys.{find_key, count_key}
use udv_shop_api.Billing.{
  air, is_current, is_canceled, liftable, is_liftable, on_air, is_on_air, put_on_air, take_off_air,
  keeps_current, apply_subscription_state, apply_subscription_event, BillingObject, state_of,
  find_store_id_by_subscription_id, upsert_subscription, with_both, with_store, or_option,
  subscription_key,
}

-- Suspended by the platform itself.
abbrev pub banned : StoreStatus → Option StoreSuspensionReason → Bool
banned StoreStatus.suspended (some StoreSuspensionReason.platform) = true
banned _ _ = false

abbrev pub is_banned : Store → Bool
is_banned s = banned s.status s.suspension_reason

liftable-banned :
    (status : StoreStatus) (reason : Option StoreSuspensionReason)
    → liftable status reason ≡ true
    → banned status reason ≡ false
liftable-banned StoreStatus.pending reason h = refl
liftable-banned StoreStatus.suspended (some StoreSuspensionReason.billing) h = refl
liftable-banned StoreStatus.suspended (some StoreSuspensionReason.platform) h = sym h
liftable-banned StoreStatus.suspended none h = refl
liftable-banned StoreStatus.active reason h = refl

on_air-banned :
    (status : StoreStatus) (reason : Option StoreSuspensionReason)
    → on_air status ≡ true
    → banned status reason ≡ false
on_air-banned StoreStatus.active reason h = refl
on_air-banned StoreStatus.pending reason h = refl
on_air-banned StoreStatus.suspended reason h = ground arith

banned-update :
    (p : Store → Bool) (f : Store → Store) (stores : List Store)
    → ((s : Store) → p s ≡ true → is_banned s ≡ false)
    → ((s : Store) → is_banned (f s) ≡ false)
    → find_many is_banned (update_many p f stores) ≡ find_many is_banned stores
unfolding update_many find_many
banned-update p f [] h k = refl
banned-update p f (s ∷ ss) h k = elim (Bool-cases (p s)) [
  | inl e ↦ rw (e, k s, h s e) (banned-update p f ss h k)
  | inr e ↦ rw (e, banned-update p f ss h k) refl
]

banned-air :
    (k : ℕ) (status : StoreSubscriptionStatus) (stores : List Store)
    → find_many is_banned (air k status stores) ≡ find_many is_banned stores
unfolding air
banned-air k status stores = elim (Bool-cases (is_current status)) [
  | inl e ↦ rw e (
      banned-update _ put_on_air stores
        (λ s h.
          liftable-banned s.status s.suspension_reason (&&-right (s.id == k) (is_liftable s) h))
        (λ s. refl))
  | inr e ↦ elim (Bool-cases (is_canceled status)) [
    | inl c ↦
        rw (e, c)
          (banned-update _ take_off_air stores
            (λ s h.
              on_air-banned s.status s.suspension_reason (&&-right (s.id == k) (is_on_air s) h))
            (λ s. refl))
    | inr c ↦ rw (e, c) refl
  ]
]

stores-upsert :
    (s : StoreSubscription) (f : StoreSubscription → StoreSubscription) (db : Db)
    → (upsert_subscription s f db).stores ≡ db.stores
unfolding upsert_subscription
stores-upsert s f db =
    elim (Bool-cases (count_key subscription_key s.store_id db.subscriptions == 0)) [
      | inl e ↦ rw e refl
      | inr e ↦ rw e refl
    ]

banned-state :
    (s : StoreSubscription) (db : Db)
    → find_many is_banned (apply_subscription_state s db).stores ≡ find_many is_banned db.stores
unfolding apply_subscription_state
banned-state s db =
    elim (Bool-cases (keeps_current (find_key subscription_key s.store_id db.subscriptions) s)) [
      | inl e ↦ rw e refl
      | inr e ↦ rw e (
          banned-air s.store_id s.status (upsert_subscription s (λ r. s) db).stores
          ∙ ap (find_many is_banned) (stores-upsert s (λ r. s) db))
    ]

-- What a guarded call keeps.
with_both-keeps :
    (P : Db → Type 0) (a b : Option ℕ) (f : ℕ → ℕ → Db → Db) (db : Db)
    → P db
    → ((x y : ℕ) → P (f x y db))
    → P (with_both a b f db)
with_both-keeps P none b f db p h = p
with_both-keeps P (some x) none f db p h = p
with_both-keeps P (some x) (some y) f db p h =
    elim (Bool-cases (is_given (some x) && is_given (some y))) [
      | inl e ↦ rw e (h x y)
      | inr e ↦ rw e p
    ]

with_store-keeps :
    (P : Db → Type 0) (a : Option ℕ) (f : ℕ → Db → Db) (db : Db)
    → P db
    → ((x : ℕ) → P (f x db))
    → P (with_store a f db)
with_store-keeps P none f db p h = p
with_store-keeps P (some x) f db p h = elim (Bool-cases (is_given (some x))) [
  | inl e ↦ rw e (h x)
  | inr e ↦ rw e p
]

-- Whatever a store's subscription does, the stores that the platform suspended stay as they are: a
-- payment never lifts a decision of the platform, and a cancellation never turns it into one of
-- billing.
pub apply_subscription_event-banned :
    (object : BillingObject) (deleted : Bool) (db : Db)
    → find_many is_banned (apply_subscription_event object deleted db).stores
      ≡ find_many is_banned db.stores
unfolding apply_subscription_event
apply_subscription_event-banned object deleted db =
    let same = λ (r : Db). find_many is_banned r.stores ≡ find_many is_banned db.stores in
    with_both-keeps same object.id object.customer _ db refl (λ x y.
      with_store-keeps same (or_option object.store_id (find_store_id_by_subscription_id x db)) _ db
        refl (λ s. banned-state (state_of object deleted x y s) db))
