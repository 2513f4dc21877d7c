-- ===== src/Table.antt =====
-- The calls of the Prisma client that the repositories make, over a table kept as a list of rows
-- in creation order. `where` is a test on a row and `data` a function on a row.
pub mod Laws
pub mod Keys
pub mod Every
pub mod Selected
use udv_shop_api.Prelude.{
  ℕ, zero, suc, Bool, true, false, not, Option, none, some, List, [], ◌∷◌, ◌++◌, sum_of,
  if◌then◌else◌,
}

module _ {ℓ} {A : Type ℓ} where
  -- the rows that `updateMany({ where, data })` leaves
  unfoldable pub update_many : (A → Bool) → (A → A) → List A → List A
  update_many p f [] = []
  update_many p f (r ∷ rs) = (if p r then f r else r) ∷ update_many p f rs

  -- the `count` that `updateMany` and `deleteMany` return
  abbrev pub count_where : (A → Bool) → List A → ℕ
  count_where p rs = sum_of (λ r. if p r then 1 else 0) rs

  -- `findFirst` and `findUnique`
  unfoldable pub find_first : (A → Bool) → List A → Option A
  find_first p [] = none
  find_first p (r ∷ rs) = if p r then some r else find_first p rs

  -- `findMany`
  unfoldable pub find_many : (A → Bool) → List A → List A
  find_many p [] = []
  find_many p (r ∷ rs) = if p r then r ∷ find_many p rs else find_many p rs

  -- `update({ where: { id } })`: the one row of a unique key; the caller faults if there is none
  unfoldable pub update_first : (A → Bool) → (A → A) → List A → List A
  update_first p f [] = []
  update_first p f (r ∷ rs) = if p r then f r ∷ rs else r ∷ update_first p f rs

  unfoldable pub delete_many : (A → Bool) → List A → List A
  delete_many p rs = find_many (λ r. not (p r)) rs

  -- `delete({ where })` by a unique key; the caller faults if there is no row
  unfoldable pub delete_first : (A → Bool) → List A → List A
  delete_first p [] = []
  delete_first p (r ∷ rs) = if p r then rs else r ∷ delete_first p rs

  -- Rows inserted in an order: `orderBy`, stable, first by the test `before`.
  unfoldable pub insert_by : (A → A → Bool) → A → List A → List A
  insert_by before r [] = r ∷ []
  insert_by before r (s ∷ ss) = if before s r then s ∷ insert_by before r ss else r ∷ s ∷ ss

  -- `before s r`: `s`, which stood later, goes strictly before `r`
  unfoldable pub sort_by : (A → A → Bool) → List A → List A
  unfolding insert_by
  sort_by before [] = []
  sort_by before (r ∷ rs) = insert_by before r (sort_by before rs)
