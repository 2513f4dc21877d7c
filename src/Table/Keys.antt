-- ===== src/Table/Keys.antt =====
-- Tables with a unique key: at most one row has it, so an update by the key is an update of one
-- row.
use mathlib.Core.Option
use udv_shop_api.Prelude.{
  ℕ, ◌+◌, ◌≤◌, ◌≡◌, ◌≢◌, refl, Bool, true, false, ◌&&◌, ◌⊎◌, inl, inr, Option, some, List, [], ◌∷◌,
  arith, sum_of, if◌then◌else◌, ◌==◌, Bool-cases,
}
use udv_shop_api.Table.{update_many, count_where, find_first}
use udv_shop_api.Table.Laws.{update_many-none, find_first-update_many}

module _ {ℓ} {A : Type ℓ} (key : A → ℕ) where
  -- how many rows have the key
  abbrev pub count_key : ℕ → List A → ℕ
  count_key k rs = count_where (λ r. key r == k) rs

  abbrev pub find_key : ℕ → List A → Option A
  find_key k rs = find_first (λ r. key r == k) rs

  -- `updateMany({ where: { id: k, … } })`
  abbrev pub update_key : ℕ → (A → Bool) → (A → A) → List A → List A
  update_key k q f rs = update_many (λ r. key r == k && q r) f rs

  abbrev pub count_at : ℕ → (A → Bool) → List A → ℕ
  count_at k q rs = count_where (λ r. key r == k && q r) rs

  pub count_at-le : (k : ℕ) (q : A → Bool) (rs : List A) → count_at k q rs ≤ count_key k rs
  count_at-le k q [] = omega arith
  count_at-le k q (r ∷ rs) = ground (arith, count_at-le k q rs)

  -- An update by a unique key writes no row, or exactly the row that has the key.
  abbrev pub Point : ℕ → (A → Bool) → (A → A) → List A → Type ℓ
  Point k q f rs =
      ((count_at k q rs ≡ 0) × (update_key k q f rs ≡ rs))
      ⊎ ((r : A) × (find_key k rs ≡ some r)
          × (q r ≡ true)
          × (count_at k q rs ≡ 1)
          × ((w : A → ℕ) → sum_of w (update_key k q f rs) + w r ≡ sum_of w rs + w (f r)))

  here :
      (k : ℕ) (q : A → Bool) (f : A → A) (x : A) (rs : List A)
      → count_key k rs ≡ 0
      → (key x == k) ≡ true
      → Point k q f (x ∷ rs)
  unfolding update_many find_first
  here k q f x rs h e = elim (Bool-cases (q x)) [
    | inl t ↦ inr (
      x,
      ground arith,
      t,
      ground (arith, count_at-le k q rs),
      λ w. ground (arith, update_many-none (λ r. key r == k && q r) f rs, count_at-le k q rs),
    )
    | inr t ↦ inl (
      ground (arith, count_at-le k q rs),
      ground (arith, update_many-none (λ r. key r == k && q r) f rs, count_at-le k q rs),
    )
  ]

  there :
      (k : ℕ) (q : A → Bool) (f : A → A) (x : A) (rs : List A)
      → (key x == k) ≡ false
      → Point k q f rs
      → Point k q f (x ∷ rs)
  unfolding update_many find_first
  there k q f x rs e (inl (c, same)) = inl (ground arith, ground arith)
  there k q f x rs e (inr (r, found, t, c, sums)) =
      inr (r, ground arith, t, ground arith, λ w. ground (arith, sums w))

  pub update_key-Point :
      (k : ℕ) (q : A → Bool) (f : A → A) (rs : List A) → count_key k rs ≤ 1 → Point k q f rs
  unfolding update_many
  update_key-Point k q f [] h = inl (refl, refl)
  update_key-Point k q f (x ∷ rs) h = elim (Bool-cases (key x == k)) [
    | inl e ↦ here k q f x rs (ground arith) e
    | inr e ↦ there k q f x rs e (update_key-Point k q f rs (ground arith))
  ]

  -- A row that is found, and that the rest of the `where` accepts, is counted.
  pub count_at-found :
      (k : ℕ) (q : A → Bool) (rs : List A) (r : A)
      → find_key k rs ≡ some r
      → q r ≡ true
      → count_at k q rs ≢ 0
  unfolding find_first
  count_at-found k q [] r found t = ground arith
  count_at-found k q (x ∷ rs) r found t = ground (arith, count_at-found k q rs r)

  -- With a unique key, counting is asking the row that is found.
  pub count_at-eq :
      (k : ℕ) (q : A → Bool) (rs : List A) (r : A)
      → count_key k rs ≤ 1
      → find_key k rs ≡ some r
      → count_at k q rs ≡ (if q r then 1 else 0)
  unfolding find_first
  count_at-eq k q [] r unique found = ground arith
  count_at-eq k q (x ∷ rs) r unique found = ground (arith, count_at-eq k q rs r, count_at-le k q rs)

  -- What an update has written no longer passes a test that the update falsifies.
  pub count_at-update_key :
      (k : ℕ) (q : A → Bool) (f : A → A) (rs : List A)
      → ((r : A) → q r ≡ true → q (f r) ≡ false)
      → count_at k q (update_key k q f rs) ≡ 0
  unfolding update_many
  count_at-update_key k q f [] h = refl
  count_at-update_key k q f (x ∷ rs) h = ground (arith, h x, count_at-update_key k q f rs h)

  -- An update that keeps the key finds the same row, updated.
  pub find_key-update_key :
      (k j : ℕ) (q : A → Bool) (f : A → A) (rs : List A)
      → ((r : A) → key (f r) ≡ key r)
      → find_key j (update_key k q f rs)
        ≡ Option.map (λ r. if key r == k && q r then f r else r) (find_key j rs)
  find_key-update_key k j q f rs h =
      find_first-update_many (λ r. key r == j) (λ r. key r == k && q r) f rs (λ r. rw (h r))
