-- ===== src/Table/Laws.antt =====
-- Sums, counts and look-ups over a table after an update.
use mathlib.Core.Option
use udv_shop_api.Prelude.{
  ℕ, ◌+◌, ◌≤◌, ◌≡◌, refl, Bool, true, false, none, some, List, [], ◌∷◌, ◌++◌, arith, sum_of,
  if◌then◌else◌,
}
use udv_shop_api.Table.{update_many, count_where, find_first, update_first, sort_by, insert_by}

module _ {ℓ} {A : Type ℓ} where
  pub sum_of-update_many :
      (w : A → ℕ) (p : A → Bool) (f : A → A) (rs : List A)
      → ((r : A) → p r ≡ true → w (f r) ≡ w r)
      → sum_of w (update_many p f rs) ≡ sum_of w rs
  unfolding update_many
  sum_of-update_many w p f [] h = refl
  sum_of-update_many w p f (r ∷ rs) h = ground (arith, h r, sum_of-update_many w p f rs h)

  pub sum_of-update_many-le :
      (w : A → ℕ) (p : A → Bool) (f : A → A) (rs : List A)
      → ((r : A) → p r ≡ true → w (f r) ≤ w r)
      → sum_of w (update_many p f rs) ≤ sum_of w rs
  unfolding update_many
  sum_of-update_many-le w p f [] h = omega arith
  sum_of-update_many-le w p f (r ∷ rs) h = ground (arith, h r, sum_of-update_many-le w p f rs h)

  pub sum_of-same : (w v : A → ℕ) (rs : List A) → ((r : A) → w r ≡ v r) → sum_of w rs ≡ sum_of v rs
  sum_of-same w v [] h = refl
  sum_of-same w v (r ∷ rs) h = omega (arith, h r, sum_of-same w v rs h)

  pub sum_of-add :
      (w v : A → ℕ) (rs : List A) → sum_of (λ r. w r + v r) rs ≡ sum_of w rs + sum_of v rs
  sum_of-add w v [] = omega arith
  sum_of-add w v (r ∷ rs) = omega (arith, sum_of-add w v rs)

  -- An update that moves `d` from each row that it writes moves `d` times the count in all.
  pub sum_of-update_shift :
      (w v : A → ℕ) (p : A → Bool) (f : A → A) (rs : List A)
      → ((r : A) → p r ≡ true → w (f r) + v r ≡ w r)
      → ((r : A) → p r ≡ false → v r ≡ 0)
      → sum_of w (update_many p f rs) + sum_of v rs ≡ sum_of w rs
  unfolding update_many
  sum_of-update_shift w v p f [] h k = omega arith
  sum_of-update_shift w v p f (r ∷ rs) h k =
      ground (arith, h r, k r, sum_of-update_shift w v p f rs h k)

  -- An update that marks what it writes, on a table with no mark, leaves as many marks as it counts.
  pub count_where-mark :
      (m p : A → Bool) (f : A → A) (rs : List A)
      → ((r : A) → m (f r) ≡ true)
      → count_where m rs ≡ 0
      → count_where m (update_many p f rs) ≡ count_where p rs
  unfolding update_many
  count_where-mark m p f [] h z = refl
  count_where-mark m p f (r ∷ rs) h z = ground (arith, h r, count_where-mark m p f rs h)

  -- What an update has written no longer passes a test that the update falsifies.
  pub count_where-update_many :
      (p : A → Bool) (f : A → A) (rs : List A)
      → ((r : A) → p r ≡ true → p (f r) ≡ false)
      → count_where p (update_many p f rs) ≡ 0
  unfolding update_many
  count_where-update_many p f [] h = refl
  count_where-update_many p f (r ∷ rs) h = ground (arith, h r, count_where-update_many p f rs h)

  -- Ordering the rows keeps every sum.
  pub sum_of-insert_by :
      (w : A → ℕ) (before : A → A → Bool) (r : A) (rs : List A)
      → sum_of w (insert_by before r rs) ≡ w r + sum_of w rs
  unfolding insert_by
  sum_of-insert_by w before r [] = refl
  sum_of-insert_by w before r (s ∷ rs) = ground (arith, sum_of-insert_by w before r rs)

  pub sum_of-sort_by :
      (w : A → ℕ) (before : A → A → Bool) (rs : List A) → sum_of w (sort_by before rs) ≡ sum_of w rs
  unfolding sort_by
  sum_of-sort_by w before [] = refl
  sum_of-sort_by w before (r ∷ rs) =
      omega (arith, sum_of-insert_by w before r (sort_by before rs), sum_of-sort_by w before rs)

  -- An update that matches no row changes nothing.
  pub update_many-none :
      (p : A → Bool) (f : A → A) (rs : List A) → count_where p rs ≡ 0 → update_many p f rs ≡ rs
  unfolding update_many
  update_many-none p f [] h = refl
  update_many-none p f (r ∷ rs) h = ground (arith, update_many-none p f rs)

  -- A row found meets the test.
  pub find_first_sound :
      (p : A → Bool) (rs : List A) (r : A) → find_first p rs ≡ some r → p r ≡ true
  unfolding find_first
  find_first_sound p [] r h = ground arith
  find_first_sound p (x ∷ rs) r h = ground (arith, find_first_sound p rs r)

  pub find_first-none : (p : A → Bool) (rs : List A) → find_first p rs ≡ none → count_where p rs ≡ 0
  unfolding find_first
  find_first-none p [] h = refl
  find_first-none p (x ∷ rs) h = ground (arith, find_first-none p rs)

  pub find_first-append :
      (p : A → Bool) (rs : List A) (r : A)
      → count_where p rs ≡ 0
      → find_first p (rs ++ r ∷ []) ≡ (if p r then some r else none)
  unfolding find_first
  find_first-append p [] r h = refl
  find_first-append p (x ∷ rs) r h = ground (arith, find_first-append p rs r)

  -- A test that the update keeps finds the same row, updated.
  pub find_first-update_many :
      (q p : A → Bool) (f : A → A) (rs : List A)
      → ((r : A) → q (f r) ≡ q r)
      → find_first q (update_many p f rs)
        ≡ Option.map (λ r. if p r then f r else r) (find_first q rs)
  unfolding find_first update_many
  find_first-update_many q p f [] h = refl
  find_first-update_many q p f (x ∷ rs) h = ground (arith, h x, find_first-update_many q p f rs h)

  -- `update` by a key adds what it adds to the one row that it finds.
  pub sum_of-update_first :
      (w : A → ℕ) (p : A → Bool) (f : A → A) (rs : List A) (r : A)
      → find_first p rs ≡ some r
      → sum_of w (update_first p f rs) + w r ≡ sum_of w rs + w (f r)
  unfolding find_first update_first
  sum_of-update_first w p f [] r h = ground arith
  sum_of-update_first w p f (x ∷ rs) r h = ground (arith, sum_of-update_first w p f rs r)
