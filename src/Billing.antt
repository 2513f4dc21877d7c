-- ===== src/Billing.antt =====
-- src/http/api/billing/billing.repository.ts and src/workers/billing-webhook.ts: the subscription
-- that a store pays to the platform, and how it takes the store on and off the air; with
-- `setStripeCapabilities` of src/http/api/stores/stores.repository.ts.
use udv_shop_api.Prelude.{
  ℕ, suc, ◌+◌, ◌*◌, Bool, true, false, not, ◌&&◌, ◌||◌, Option, none, some, List, [], ◌∷◌, ◌++◌,
  ltb, ◌==◌, if◌then◌else◌, is_none, is_some_of, or_else,
}
pub mod Air
use udv_shop_api.Schema.{
  Store, StoreStatus, StoreSuspensionReason, StoreSubscription, StoreSubscriptionStatus, Db,
}
use udv_shop_api.Table.{update_many, count_where, find_first, update_first}
use udv_shop_api.Table.Keys.{find_key, count_key}
use udv_shop_api.Payouts.{is_given}

abbrev pub subscription_key : StoreSubscription → ℕ
subscription_key s = s.store_id

-- `findStoreIdBySubscriptionId`
unfoldable pub find_store_id_by_subscription_id : ℕ → Db → Option ℕ
find_store_id_by_subscription_id id db =
    elim (find_first (λ s. is_some_of id s.stripe_subscription_id) db.subscriptions) [
      | none ↦ none
      | some s ↦ some s.store_id
    ]

-- `upsert` by the store.
unfoldable pub upsert_subscription :
    StoreSubscription → (StoreSubscription → StoreSubscription) → Db → Db
upsert_subscription created f db =
    if count_key subscription_key created.store_id db.subscriptions == 0
    then record db { subscriptions = db.subscriptions ++ created ∷ [] }
    else record db {
      subscriptions = update_first (λ s. s.store_id == created.store_id) f db.subscriptions;
    }

abbrev new_customer : ℕ → ℕ → StoreSubscription
new_customer store_id customer = record {
  store_id = store_id;
  stripe_customer_id = customer;
  stripe_subscription_id = none;
  status = StoreSubscriptionStatus.incomplete;
  price_id = none;
  current_period_end = none;
  cancel_at_period_end = false;
}

-- `attachCustomer`
unfoldable pub attach_customer : ℕ → ℕ → Db → Db
unfolding upsert_subscription
attach_customer store_id customer db =
    upsert_subscription (new_customer store_id customer)
      (λ s. record s { stripe_customer_id = customer }) db

-- `status === "active" || status === "trialing"`
abbrev pub is_current : StoreSubscriptionStatus → Bool
is_current StoreSubscriptionStatus.active = true
is_current StoreSubscriptionStatus.trialing = true
is_current _ = false

abbrev pub is_canceled : StoreSubscriptionStatus → Bool
is_canceled StoreSubscriptionStatus.canceled = true
is_canceled _ = false

-- The registered subscription is another one, and stays: the new one is not current, or both are and
-- the new one does not last longer.
abbrev yields : StoreSubscription → StoreSubscription → Bool
yields current state = elim current.stripe_subscription_id [
  | none ↦ false
  | some id ↦
      is_given (some id)
      && (not (is_some_of id state.stripe_subscription_id)
          && (not (is_current state.status)
              || (is_current current.status
                  && not (
                      ltb (or_else current.current_period_end 0)
                        (or_else state.current_period_end 0)))))
]

unfoldable pub keeps_current : Option StoreSubscription → StoreSubscription → Bool
keeps_current none state = false
keeps_current (some current) state = yields current state

-- Pending, or suspended by the billing.
abbrev pub liftable : StoreStatus → Option StoreSuspensionReason → Bool
liftable StoreStatus.pending reason = true
liftable StoreStatus.suspended (some StoreSuspensionReason.billing) = true
liftable StoreStatus.suspended (some StoreSuspensionReason.platform) = false
liftable StoreStatus.suspended none = false
liftable StoreStatus.active reason = false

abbrev pub is_liftable : Store → Bool
is_liftable s = liftable s.status s.suspension_reason

abbrev pub on_air : StoreStatus → Bool
on_air StoreStatus.active = true
on_air _ = false

abbrev pub is_on_air : Store → Bool
is_on_air s = on_air s.status

abbrev pub put_on_air : Store → Store
put_on_air s = record s { status = StoreStatus.active; suspension_reason = none }

abbrev pub take_off_air : Store → Store
take_off_air s = record s {
  status = StoreStatus.suspended;
  suspension_reason = some StoreSuspensionReason.billing;
}

-- What a state of the subscription does to its store.
unfoldable pub air : ℕ → StoreSubscriptionStatus → List Store → List Store
air store_id status stores =
    if is_current status
    then update_many (λ s. s.id == store_id && is_liftable s) put_on_air stores
    else (if is_canceled status
        then update_many (λ s. s.id == store_id && is_on_air s) take_off_air stores
        else stores)

-- `applySubscriptionState`
unfoldable pub apply_subscription_state : StoreSubscription → Db → Db
unfolding air keeps_current upsert_subscription
apply_subscription_state state db =
    let written = upsert_subscription state (λ s. state) db in
    if keeps_current (find_key subscription_key state.store_id db.subscriptions) state
    then db
    else record written { stores = air state.store_id state.status written.stores }

-- The statuses of Stripe; a text that is none of them is `other_status`.
pub data StripeStatus : Type 0 where
  incomplete incomplete_expired trialing active past_due paused unpaid canceled other_status :
      StripeStatus

-- STATUS_MAP, and "incomplete" for what it does not have.
abbrev pub status_map : StripeStatus → StoreSubscriptionStatus
status_map incomplete = StoreSubscriptionStatus.incomplete
status_map incomplete_expired = StoreSubscriptionStatus.canceled
status_map trialing = StoreSubscriptionStatus.trialing
status_map active = StoreSubscriptionStatus.active
status_map past_due = StoreSubscriptionStatus.past_due
status_map paused = StoreSubscriptionStatus.past_due
status_map unpaid = StoreSubscriptionStatus.canceled
status_map canceled = StoreSubscriptionStatus.canceled
status_map other_status = StoreSubscriptionStatus.incomplete

-- A reference comes as an identifier or as an object that has it; either way it is a number here.
pub record BillingObject : Type 0 where
  pub id : Option ℕ
  pub is_subscription_mode : Bool
  pub store_id : Option ℕ
  pub client_reference_id : Option ℕ
  pub customer : Option ℕ
  pub status : StripeStatus
  pub item_price_id : Option ℕ
  pub item_period_end : Option ℕ
  pub period_end : Option ℕ
  pub cancel_at_period_end : Bool
  pub transfers_active : Bool
  pub charges_enabled : Bool
  pub payouts_enabled : Bool
  pub details_submitted : Bool

abbrev pub or_option : Option ℕ → Option ℕ → Option ℕ
or_option none d = d
or_option (some x) d = some x

-- Two identifiers that are there and not empty.
abbrev pub with_both : Option ℕ → Option ℕ → (ℕ → ℕ → Db → Db) → Db → Db
with_both none b f db = db
with_both (some x) none f db = db
with_both (some x) (some y) f db = if is_given (some x) && is_given (some y) then f x y db else db

-- `applyCheckoutCompleted`
unfoldable pub apply_checkout_completed : BillingObject → Db → Db
apply_checkout_completed object db =
    if object.is_subscription_mode
    then with_both (or_option object.store_id object.client_reference_id) object.customer
        attach_customer db
    else db

abbrev in_ms : Option ℕ → Option ℕ
in_ms none = none
in_ms (some seconds) = some (seconds * 1000)

-- The state that an event of a subscription tells.
abbrev pub state_of : BillingObject → Bool → ℕ → ℕ → ℕ → StoreSubscription
state_of object deleted subscription customer store_id = record {
  store_id = store_id;
  stripe_customer_id = customer;
  stripe_subscription_id = some subscription;
  status = status_map (if deleted then canceled else object.status);
  price_id = object.item_price_id;
  current_period_end = in_ms (or_option object.item_period_end object.period_end);
  cancel_at_period_end = object.cancel_at_period_end;
}

abbrev pub with_store : Option ℕ → (ℕ → Db → Db) → Db → Db
with_store none f db = db
with_store (some s) f db = if is_given (some s) then f s db else db

-- `applySubscriptionEvent`, of an event that is a deletion or not.
unfoldable pub apply_subscription_event : BillingObject → Bool → Db → Db
apply_subscription_event object deleted db =
    with_both object.id object.customer
      (λ subscription customer db.
        with_store (or_option object.store_id (find_store_id_by_subscription_id subscription db))
          (λ store_id db.
            apply_subscription_state (state_of object deleted subscription customer store_id) db)
          db)
      db

abbrev set_capabilities : BillingObject → Store → Store
set_capabilities object s = record s {
  stripe_transfers_enabled = object.transfers_active;
  stripe_charges_enabled = object.charges_enabled;
  stripe_payouts_enabled = object.payouts_enabled;
  stripe_details_submitted = object.details_submitted;
}

abbrev has_account : ℕ → Store → Bool
has_account id s = is_some_of id s.stripe_account_id

-- `setStripeCapabilities` and `applyAccountUpdated`: how many stores have the account.
unfoldable pub apply_account_updated : BillingObject → Db → ℕ × Db
apply_account_updated object db = elim object.id [
  | none ↦ (0, db)
  | some id ↦
      if is_given (some id)
      then (
        count_where (has_account id) db.stores,
        record db { stores = update_many (has_account id) (set_capabilities object) db.stores },
      )
      else (0, db)
]
