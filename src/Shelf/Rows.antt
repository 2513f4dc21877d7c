-- ===== src/Shelf/Rows.antt =====
-- One table of stock: the sum of the levels of a key under the guarded decrement and the
-- increment.
use udv_shop_api.Prelude.{
  ℕ, ◌+◌, ◌-◌, ◌≤◌, ◌≡◌, ◌≢◌, refl, Bool, ◌&&◌, List, [], ◌∷◌, sum_of, leb, ◌==◌, if◌then◌else◌,
  arith,
}
use udv_shop_api.Table.{update_many, update_first, count_where}
use udv_shop_api.Table.Laws.{update_many-none}

module _ {A : Type 0} (key level : A → ℕ) where
  abbrev pub left : ℕ → List A → ℕ
  left j rs = sum_of (λ r. if key r == j then level r else 0) rs

  abbrev pub fits : ℕ → ℕ → A → Bool
  fits k q r = key r == k && leb q (level r)

  module _ (f : A → A) (same : (r : A) → key (f r) ≡ key r) where
    pub left-take :
        (k j q : ℕ) (rs : List A)
        → ((r : A) → level (f r) ≡ level r - q)
        → count_where (fits k q) rs ≡ 1
        → left j (update_many (fits k q) f rs) + (if k == j then q else 0) ≡ left j rs
    unfolding update_many
    left-take k j q [] lower one = absurd (omega arith)
    left-take k j q (r ∷ rs) lower one =
        ground (arith, same r, lower r, left-take k j q rs lower, update_many-none (fits k q) f rs)

    pub left-give :
        (k j q : ℕ) (rs : List A)
        → ((r : A) → level (f r) ≡ level r + q)
        → count_where (λ r. key r == k) rs ≢ 0
        → left j (update_first (λ r. key r == k) f rs) ≡ left j rs + (if k == j then q else 0)
    unfolding update_first
    left-give k j q [] raise some_row = absurd (some_row refl)
    left-give k j q (r ∷ rs) raise some_row =
        ground (arith, same r, raise r, left-give k j q rs raise)

    pub keys-take :
        (p : A → Bool) (j : ℕ) (rs : List A)
        → count_where (λ r. key r == j) (update_many p f rs) ≡ count_where (λ r. key r == j) rs
    unfolding update_many
    keys-take p j [] = refl
    keys-take p j (r ∷ rs) = ground (arith, same r, keys-take p j rs)

    pub keys-give :
        (p : A → Bool) (j : ℕ) (rs : List A)
        → count_where (λ r. key r == j) (update_first p f rs) ≡ count_where (λ r. key r == j) rs
    unfolding update_first
    keys-give p j [] = refl
    keys-give p j (r ∷ rs) = ground (arith, same r, keys-give p j rs)

  -- A guarded decrement writes a row only if the key has one.
  pub count-fits-le :
      (k q : ℕ) (rs : List A) → count_where (fits k q) rs ≤ count_where (λ r. key r == k) rs
  count-fits-le k q [] = omega arith
  count-fits-le k q (r ∷ rs) = ground (arith, count-fits-le k q rs)
