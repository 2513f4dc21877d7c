-- ===== src/Interests.antt =====
-- src/http/api/interests/interests.repository.ts: who waits for a product or for a seat.
use udv_shop_api.Prelude.{
  ℕ, suc, ◌+◌, Bool, true, false, ◌&&◌, ◌||◌, Option, none, some, List, [], ◌∷◌, ◌++◌, ◌==◌,
  if◌then◌else◌, is_some_of, any, take, map,
}
pub mod Once
use udv_shop_api.Schema.{InterestStatus, interest_in, Interest, Db, enqueue, interest_notified}
use udv_shop_api.Table.{update_many, count_where, find_first, find_many, update_first}

-- What a person waits for.
pub data InterestTarget : Type 0 where
  product event : ℕ → InterestTarget

abbrev pub is_of_target : InterestTarget → Interest → Bool
is_of_target (product p) i = is_some_of p i.product_id
is_of_target (event e) i = is_some_of e i.event_id

abbrev product_id_of : InterestTarget → Option ℕ
product_id_of (product p) = some p
product_id_of (event e) = none

abbrev event_id_of : InterestTarget → Option ℕ
event_id_of (product p) = none
event_id_of (event e) = some e

abbrev new_interest : ℕ → InterestTarget → ℕ → ℕ → Option ℕ → Interest
new_interest id target user_id qty note = record {
  id = id;
  product_id = product_id_of target;
  event_id = event_id_of target;
  user_id = user_id;
  qty = qty;
  note = note;
  status = InterestStatus.is_open;
  notified_at = none;
}

abbrev reopened : ℕ → Option ℕ → Interest → Interest
reopened qty note i = record i {
  qty = qty;
  note = note;
  status = InterestStatus.is_open;
  notified_at = none;
}

abbrev pub is_mine : InterestTarget → ℕ → Interest → Bool
is_mine target user_id i = is_of_target target i && i.user_id == user_id

-- `upsertOpen`: one row for a person and a target, reopened if it is there.
unfoldable pub upsert_open : InterestTarget → ℕ → ℕ → Option ℕ → Db → Db
upsert_open target user_id qty note db =
    if count_where (is_mine target user_id) db.interests == 0
    then record db {
      next_id = suc db.next_id;
      interests = db.interests ++ new_interest db.next_id target user_id qty note ∷ [];
    }
    else record db {
      interests = update_first (is_mine target user_id) (reopened qty note) db.interests;
    }

abbrev pub is_waiting : Interest → Bool
is_waiting i = interest_in (InterestStatus.is_open ∷ InterestStatus.notified ∷ []) i.status

abbrev set_interest : InterestStatus → Interest → Interest
set_interest to i = record i { status = to }

abbrev is_my_interest : ℕ → ℕ → Interest → Bool
is_my_interest id user_id i = i.id == id && (i.user_id == user_id && is_waiting i)

-- `cancelMine`
unfoldable pub cancel_mine : ℕ → ℕ → Db → Bool × Db
cancel_mine id user_id db = (
  count_where (is_my_interest id user_id) db.interests == 1,
  record db {
    interests =
        update_many (is_my_interest id user_id) (set_interest InterestStatus.cancelled)
          db.interests;
  },
)

abbrev pub is_open_for : InterestTarget → Interest → Bool
is_open_for target i = is_of_target target i && interest_in (InterestStatus.is_open ∷ []) i.status

-- The rows that a call notifies: the first 500 that are open.
unfoldable pub to_notify : InterestTarget → Db → List ℕ
to_notify target db = map (λ i. i.id) (take 500 (find_many (is_open_for target) db.interests))

abbrev pub is_chosen : List ℕ → Interest → Bool
is_chosen ids i = any (λ id. i.id == id) ids && interest_in (InterestStatus.is_open ∷ []) i.status

abbrev pub set_notified : ℕ → Interest → Interest
set_notified now i = record i { status = InterestStatus.notified; notified_at = some now }

abbrev pub is_just_notified : List ℕ → ℕ → Interest → Bool
is_just_notified ids now i =
    any (λ id. i.id == id) ids
    && (interest_in (InterestStatus.notified ∷ []) i.status && is_some_of now i.notified_at)

-- `outboxEvent.createMany`, one notice for each row.
unfoldable pub notify_all : List Interest → Db → Db
notify_all [] db = db
notify_all (i ∷ is) db = notify_all is (enqueue (interest_notified i.id) db)

unfoldable pub notify_rows : List ℕ → ℕ → Db → ℕ × Db
unfolding notify_all
notify_rows [] now db = (0, db)
notify_rows (id ∷ rest) now db =
    let ids = id ∷ rest in
    let notified = record db {
      interests = update_many (is_chosen ids) (set_notified now) db.interests;
    } in
    (
      count_where (is_chosen ids) db.interests,
      notify_all (find_many (is_just_notified ids now) notified.interests) notified,
    )

-- `notifyArrival`: how many were notified.
unfoldable pub notify_arrival : InterestTarget → ℕ → Db → ℕ × Db
unfolding to_notify notify_rows
notify_arrival target now db = notify_rows (to_notify target db) now db

abbrev pub is_bought : ℕ → List ℕ → List ℕ → Interest → Bool
is_bought user_id product_ids event_ids i =
    i.user_id == user_id
    && (is_waiting i
        && (any (λ p. is_some_of p i.product_id) product_ids
            || any (λ e. is_some_of e i.event_id) event_ids))

-- `convertForOrder`: with no products and no events nothing is bought.
unfoldable pub convert_for_order : ℕ → List ℕ → List ℕ → Db → ℕ × Db
convert_for_order user_id product_ids event_ids db = (
  count_where (is_bought user_id product_ids event_ids) db.interests,
  record db {
    interests =
        update_many (is_bought user_id product_ids event_ids)
          (set_interest InterestStatus.converted) db.interests;
  },
)
