-- ===== src/Draw/Winners.antt =====
-- The winners that src/http/api/raffles/draw.ts gives.
use udv_shop_api.Prelude.{
  ℕ, zero, suc, ◌+◌, ◌%◌, ◌≤◌, ◌<◌, ◌≡◌, refl, min, some, List, [], ◌∷◌, ◌==◌, ltb, length,
  get_elem?, sum_of, arith, if◌then◌else◌, Option-cases, inl, inr,
}
use native.Mathlib.Nat.{mod-lt}
use udv_shop_api.Table.{sort_by}
use udv_shop_api.Table.Laws.{sum_of-sort_by}
use udv_shop_api.Draw.{remove_at, sort_numbers, draw_from, draw_winners}

-- How often a number stands in a list.
abbrev pub occurs : ℕ → List ℕ → ℕ
occurs n xs = sum_of (λ x. if x == n then 1 else 0) xs

get_elem?-in : (xs : List ℕ) (i : ℕ) → i < length xs → (x : ℕ) × (get_elem? xs i ≡ some x)
get_elem?-in [] i h = ground arith
get_elem?-in (x ∷ xs) zero h = (x, refl)
get_elem?-in (x ∷ xs) (suc i) h = get_elem?-in xs i (omega arith)

-- Taking an element out takes it out once.
sum_of-remove_at :
    (w : ℕ → ℕ) (xs : List ℕ) (i x : ℕ)
    → get_elem? xs i ≡ some x
    → sum_of w (remove_at i xs) + w x ≡ sum_of w xs
unfolding remove_at
sum_of-remove_at w [] i x h = ground arith
sum_of-remove_at w (y ∷ xs) zero x h = ground arith
sum_of-remove_at w (y ∷ xs) (suc i) x h = omega (arith, sum_of-remove_at w xs i x h)

length-sum_of : (xs : List ℕ) → length xs ≡ sum_of (λ x. 1) xs
length-sum_of [] = refl
length-sum_of (x ∷ xs) = omega (arith, length-sum_of xs)

module _ (digest : ℕ → ℕ → ℕ) where
  sum_of-draw_from :
      (w : ℕ → ℕ) (seed p n : ℕ) (pool : List ℕ)
      → sum_of w (draw_from digest seed p n pool) ≤ sum_of w pool
  unfolding draw_from
  sum_of-draw_from w seed p zero pool = omega arith
  sum_of-draw_from w seed p (suc n) [] = omega arith
  sum_of-draw_from w seed p (suc n) (x ∷ xs) =
      let i = digest seed p % length (x ∷ xs) in
      elim (Option-cases (get_elem? (x ∷ xs) i)) [
        | inl e ↦ rw (e, draw_from) (omega arith)
        | inr (y, e) ↦
            rw (e, draw_from)
              (omega (
                arith,
                sum_of-draw_from w seed (suc p) n (remove_at i (x ∷ xs)),
                sum_of-remove_at w (x ∷ xs) i y e,
              ))
      ]

  length-draw_from :
      (seed p n : ℕ) (pool : List ℕ) → length (draw_from digest seed p n pool) ≡ min n (length pool)
  unfolding draw_from
  length-draw_from seed p zero pool = omega arith
  length-draw_from seed p (suc n) [] = omega arith
  length-draw_from seed p (suc n) (x ∷ xs) =
      let i = digest seed p % length (x ∷ xs) in
      let (y, e) = get_elem?-in (x ∷ xs) i (mod-lt (digest seed p) (omega arith)) in
      rw (e, draw_from)
        (omega (
          arith,
          length-draw_from seed (suc p) n (remove_at i (x ∷ xs)),
          sum_of-remove_at (λ x. 1) (x ∷ xs) i y e,
          length-sum_of (x ∷ xs),
          length-sum_of (remove_at i (x ∷ xs)),
        ))

  -- The draw gives one winner for each prize, or all the numbers when there are fewer; and a number
  -- wins at most as often as it was entered: with distinct numbers none wins twice, and nobody wins
  -- who did not take part.
  pub draw_winners-fair :
      (seed count : ℕ) (numbers : List ℕ)
      → (length (draw_winners digest seed numbers count) ≡ min count (length numbers))
        × ((n : ℕ) → occurs n (draw_winners digest seed numbers count) ≤ occurs n numbers)
  unfolding draw_winners sort_numbers
  draw_winners-fair seed count numbers = (
    omega (
      arith,
      length-draw_from seed 1 count (sort_by ltb numbers),
      length-sum_of (sort_by ltb numbers),
      length-sum_of numbers,
      sum_of-sort_by (λ x. 1) ltb numbers,
    ),
    λ n. omega (
      arith,
      sum_of-draw_from (λ x. if x == n then 1 else 0) seed 1 count (sort_by ltb numbers),
      sum_of-sort_by (λ x. if x == n then 1 else 0) ltb numbers,
    ),
  )
