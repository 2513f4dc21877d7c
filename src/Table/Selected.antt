-- ===== src/Table/Selected.antt =====
-- The rows of a selection, and where they stand in the table that they were read from.
use udv_shop_api.Prelude.{
  ℕ, zero, suc, ◌≤◌, ◌≡◌, refl, Bool, true, false, none, any, all, ◌&&◌, not, List, [], ◌∷◌, ◌++◌,
  some, inl, inr, arith, sum_of, length, take, if◌then◌else◌, ◌==◌, ==_refl, All, Bool-cases,
}
use udv_shop_api.Table.{
  find_many, count_where, find_first, update_first, update_many, delete_many, delete_first,
}
use udv_shop_api.Table.Keys.{count_key, count_at, update_key, find_key}
use udv_shop_api.Table.Every.{All-map}

module _ {ℓ} {A : Type ℓ} where
  pub length-find_many : (p : A → Bool) (rs : List A) → length (find_many p rs) ≡ count_where p rs
  unfolding find_many
  length-find_many p [] = refl
  length-find_many p (r ∷ rs) = ground (arith, length-find_many p rs)

  pub sum_of-find_many-le :
      (w : A → ℕ) (p : A → Bool) (rs : List A) → sum_of w (find_many p rs) ≤ sum_of w rs
  unfolding find_many
  sum_of-find_many-le w p [] = omega arith
  sum_of-find_many-le w p (r ∷ rs) = ground (arith, sum_of-find_many-le w p rs)

  pub sum_of-take-le : (w : A → ℕ) (n : ℕ) (rs : List A) → sum_of w (take n rs) ≤ sum_of w rs
  sum_of-take-le w zero rs = omega arith
  sum_of-take-le w (suc n) [] = omega arith
  sum_of-take-le w (suc n) (r ∷ rs) = omega (arith, sum_of-take-le w n rs)

  pub sum_of-found :
      (w : A → ℕ) (p : A → Bool) (rs : List A) (r : A)
      → find_first p rs ≡ some r
      → sum_of w rs ≡ 0
      → w r ≡ 0
  unfolding find_first
  sum_of-found w p [] r h z = ground arith
  sum_of-found w p (x ∷ rs) r h z = ground (arith, sum_of-found w p rs r)

  pub count_where-found :
      (p : A → Bool) (rs : List A) (r : A) → find_first p rs ≡ some r → 1 ≤ count_where p rs
  unfolding find_first
  count_where-found p [] r h = ground arith
  count_where-found p (x ∷ rs) r h = ground (arith, count_where-found p rs r)

module _ {ℓ κ} {A : Type ℓ} (P : A → Type κ) where
  pub All-take : (n : ℕ) (rs : List A) → All P rs → All P (take n rs)
  All-take zero rs a = tt
  All-take (suc n) [] a = tt
  All-take (suc n) (r ∷ rs) (b, a) = (b, All-take n rs a)

module _ {ℓ} {A : Type ℓ} (key : A → ℕ) where
  -- With a unique key each row is the one that its key finds.
  pub All-found :
      (rs : List A)
      → ((k : ℕ) → count_key key k rs ≤ 1)
      → All (λ r. find_key key (key r) rs ≡ some r) rs
  unfolding find_first
  All-found [] u = tt
  All-found (x ∷ rs) u = (
    rw (==_refl (key x)) refl,
    All-map (λ r. find_key key (key r) rs ≡ some r) (λ r. find_key key (key r) (x ∷ rs) ≡ some r) rs
        (λ r h. ground (arith, u (key r), count_where-found (λ s. key s == key r) rs r h))
        (All-found rs (λ k. omega (arith, u k))),
  )

  -- A row that any selection by a test finds first is the one that its key finds.
  pub find_key-found :
      (q : A → Bool) (rs : List A) (r : A)
      → ((k : ℕ) → count_key key k rs ≤ 1)
      → find_first q rs ≡ some r
      → find_key key (key r) rs ≡ some r
  unfolding find_first
  find_key-found q [] r u h = ground arith
  find_key-found q (x ∷ rs) r u h = elim (Bool-cases (q x)) [
    | inl t ↦ ground (arith, ==_refl (key x))
    | inr t ↦
        let later : find_first q rs ≡ some r = ground arith in
        let again : find_key key (key r) rs ≡ some r =
          find_key-found q rs r (λ k. omega (arith, u k)) later in
        ground (arith, u (key r), again, count_where-found (λ s. key s == key r) rs r again)
  ]

  -- An update by a key under which no row is selected, and that selects none, keeps a selection.
  pub find_many-update_key :
      (k : ℕ) (q t : A → Bool) (f : A → A) (rs : List A)
      → ((r : A) → q (f r) ≡ q r)
      → count_at key k q rs ≡ 0
      → find_many q (update_key key k t f rs) ≡ find_many q rs
  unfolding find_many update_many
  find_many-update_key k q t f [] h z = refl
  find_many-update_key k q t f (r ∷ rs) h z = ground (arith, h r, find_many-update_key k q t f rs h)

module _ {ℓ} {A : Type ℓ} where
  -- An update of one row that keeps its weight keeps the sum.
  pub sum_of-update_first-same :
      (w : A → ℕ) (p : A → Bool) (f : A → A) (rs : List A)
      → ((r : A) → w (f r) ≡ w r)
      → sum_of w (update_first p f rs) ≡ sum_of w rs
  unfolding update_first
  sum_of-update_first-same w p f [] h = refl
  sum_of-update_first-same w p f (r ∷ rs) h =
      ground (arith, h r, sum_of-update_first-same w p f rs h)

  pub count_where-update_first-same :
      (q p : A → Bool) (f : A → A) (rs : List A)
      → ((r : A) → q (f r) ≡ q r)
      → count_where q (update_first p f rs) ≡ count_where q rs
  count_where-update_first-same q p f rs h =
      sum_of-update_first-same (λ r. if q r then 1 else 0) p f rs (λ r. rw (h r) refl)

  -- A selection of a selection counts no more than the whole.
  pub count_where-delete_many-le :
      (q p : A → Bool) (rs : List A) → count_where q (delete_many p rs) ≤ count_where q rs
  unfolding delete_many
  count_where-delete_many-le q p rs =
      sum_of-find_many-le (λ r. if q r then 1 else 0) (λ r. not (p r)) rs

module _ {ℓ} {A : Type ℓ} (key : A → ℕ) where
  -- An update by the unique key of the row that a test finds writes that row.
  pub find_first-update_found :
      (q : A → Bool) (f : A → A) (rs : List A) (r : A)
      → ((x : A) → q (f x) ≡ q x)
      → ((k : ℕ) → count_key key k rs ≤ 1)
      → find_first q rs ≡ some r
      → find_first q (update_first (λ x. key x == key r) f rs) ≡ some (f r)
  unfolding find_first update_first
  find_first-update_found q f [] r h u found = ground arith
  find_first-update_found q f (x ∷ rs) r h u found = elim (Bool-cases (q x)) [
    | inl t ↦ ground (arith, h x, ==_refl (key r))
    | inr t ↦
        let later : find_first q rs ≡ some r = ground arith in
        let own : find_key key (key r) rs ≡ some r =
          find_key-found key q rs r (λ k. omega (arith, u k)) later in
        ground (
          arith,
          h x,
          u (key r),
          count_where-found (λ s. key s == key r) rs r own,
          find_first-update_found q f rs r h (λ k. omega (arith, u k)) later,
        )
  ]

module _ {ℓ} {A : Type ℓ} where
  -- A write to a row outside of a selection, which stays outside, keeps the selection.
  pub find_many-update_first :
      (q p : A → Bool) (f : A → A) (rs : List A) (r : A)
      → find_first p rs ≡ some r
      → q r ≡ false
      → q (f r) ≡ false
      → find_many q (update_first p f rs) ≡ find_many q rs
  unfolding find_many find_first update_first
  find_many-update_first q p f [] r h a b = refl
  find_many-update_first q p f (x ∷ rs) r h a b = ground (arith, find_many-update_first q p f rs r)

  pub find_many-delete_first :
      (q p : A → Bool) (rs : List A) (r : A)
      → find_first p rs ≡ some r
      → q r ≡ false
      → find_many q (delete_first p rs) ≡ find_many q rs
  unfolding find_many find_first delete_first
  find_many-delete_first q p [] r h a = refl
  find_many-delete_first q p (x ∷ rs) r h a = ground (arith, find_many-delete_first q p rs r)

  pub find_many-append_other :
      (q : A → Bool) (xs : List A) (y : A)
      → q y ≡ false
      → find_many q (xs ++ y ∷ []) ≡ find_many q xs
  unfolding find_many
  find_many-append_other q [] y h = ground (arith, h)
  find_many-append_other q (x ∷ xs) y h = ground (arith, find_many-append_other q xs y h)

  -- A test of every row holds of the row that is found, and after a write that keeps it.
  pub all-found :
      (q p : A → Bool) (rs : List A) (r : A)
      → find_first p rs ≡ some r
      → all q rs ≡ true
      → q r ≡ true
  unfolding find_first
  all-found q p [] r h a = ground arith
  all-found q p (x ∷ rs) r h a = ground (arith, all-found q p rs r)

  pub all-append : (q : A → Bool) (xs ys : List A) → all q (xs ++ ys) ≡ (all q xs && all q ys)
  all-append q [] ys = refl
  all-append q (x ∷ xs) ys = ground (arith, all-append q xs ys)

  pub all-update_first :
      (q p : A → Bool) (f : A → A) (rs : List A)
      → ((r : A) → q r ≡ true → q (f r) ≡ true)
      → all q rs ≡ true
      → all q (update_first p f rs) ≡ true
  unfolding update_first
  all-update_first q p f [] h a = refl
  all-update_first q p f (x ∷ rs) h a = ground (arith, h x, all-update_first q p f rs h)

  pub any-none : (p : A → Bool) (rs : List A) → find_first p rs ≡ none → any p rs ≡ false
  unfolding find_first
  any-none p [] h = refl
  any-none p (x ∷ rs) h = ground (arith, any-none p rs)

  pub any-found :
      (q p : A → Bool) (rs : List A) (r : A)
      → find_first p rs ≡ some r
      → q r ≡ true
      → any q rs ≡ true
  unfolding find_first
  any-found q p [] r h a = ground arith
  any-found q p (x ∷ rs) r h a = ground (arith, any-found q p rs r)

  -- A selection has no row that the table has not.
  pub any-find_many :
      (q p : A → Bool) (rs : List A) → any q rs ≡ false → any q (find_many p rs) ≡ false
  unfolding find_many
  any-find_many q p [] h = refl
  any-find_many q p (x ∷ rs) h = ground (arith, any-find_many q p rs)

  pub any-selected :
      (q p t : A → Bool) (rs : List A) (r : A)
      → find_first t rs ≡ some r
      → p r ≡ true
      → q r ≡ true
      → any q (find_many p rs) ≡ true
  unfolding find_many find_first
  any-selected q p t [] r h a b = ground arith
  any-selected q p t (x ∷ rs) r h a b = ground (arith, any-selected q p t rs r)
