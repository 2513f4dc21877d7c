-- ===== src/Draw/Sorted.antt =====
-- Sorted entry numbers and how often each of them stands there (src/http/api/raffles/draw.ts).
use udv_shop_api.Prelude.{
  ℕ, ◌≤◌, ◌≡◌, ◌≢◌, refl, ap, List, [], ◌∷◌, ◌==◌, ltb, arith, if◌then◌else◌, All, Bool-cases, inl,
  inr,
}
use udv_shop_api.Table.{sort_by, insert_by}
use udv_shop_api.Table.Laws.{sum_of-sort_by}
use udv_shop_api.Draw.{sort_numbers, draw_winners, draw_from}
use udv_shop_api.Draw.Winners.{occurs}

abbrev IsSorted : List ℕ → Type 0
IsSorted [] = Unit
IsSorted (x ∷ xs) = All (λ y. x ≤ y) xs × IsSorted xs

All-insert :
    (k r : ℕ) (xs : List ℕ) → k ≤ r → All (λ y. k ≤ y) xs → All (λ y. k ≤ y) (insert_by ltb r xs)
unfolding insert_by
All-insert k r [] h a = (h, tt)
All-insert k r (x ∷ xs) h (b, a) = elim (Bool-cases (ltb x r)) [
  | inl e ↦ rw e (b, All-insert k r xs h a)
  | inr e ↦ rw e (h, (b, a))
]

All-≤ : (k j : ℕ) (xs : List ℕ) → k ≤ j → All (λ y. j ≤ y) xs → All (λ y. k ≤ y) xs
All-≤ k j [] h a = tt
All-≤ k j (x ∷ xs) h (b, a) = (omega arith, All-≤ k j xs h a)

insert-IsSorted : (r : ℕ) (xs : List ℕ) → IsSorted xs → IsSorted (insert_by ltb r xs)
unfolding insert_by
insert-IsSorted r [] s = (tt, tt)
insert-IsSorted r (x ∷ xs) (a, s) = elim (Bool-cases (ltb x r)) [
  | inl e ↦ rw e (All-insert x r xs (ground arith) a, insert-IsSorted r xs s)
  | inr e ↦ rw e ((ground arith, All-≤ r x xs (ground arith) a), (a, s))
]

sort-IsSorted : (xs : List ℕ) → IsSorted (sort_by ltb xs)
unfolding sort_by
sort-IsSorted [] = tt
sort-IsSorted (x ∷ xs) = insert-IsSorted x (sort_by ltb xs) (sort-IsSorted xs)

-- What stands in a list is not below a bound of it.
bound : (k n : ℕ) (xs : List ℕ) → All (λ y. k ≤ y) xs → occurs n xs ≢ 0 → k ≤ n
bound k n [] a h = ground arith
bound k n (x ∷ xs) (b, a) h = ground (arith, bound k n xs a)

IsSorted-unique :
    (xs ys : List ℕ) → IsSorted xs → IsSorted ys → ((n : ℕ) → occurs n xs ≡ occurs n ys) → xs ≡ ys
IsSorted-unique [] [] s t h = refl
IsSorted-unique [] (y ∷ ys) s t h = ground (arith, h y)
IsSorted-unique (x ∷ xs) [] s t h = ground (arith, h x)
IsSorted-unique (x ∷ xs) (y ∷ ys) (a, s) (b, t) h =
    let e : x ≡ y = ground (arith, h x, h y, bound y x ys b, bound x y xs a) in
    rw e (ap (◌∷◌ y) (IsSorted-unique xs ys s t (λ n. ground (arith, h n, e))))

-- Entries with the same numbers, in any order, give the same winners: who checks the draw needs the
-- seed and the public numbers, and not the order in which the database kept them.
pub draw_winners-order :
    (digest : ℕ → ℕ → ℕ) (seed count : ℕ) (numbers others : List ℕ)
    → ((n : ℕ) → occurs n numbers ≡ occurs n others)
    → draw_winners digest seed numbers count ≡ draw_winners digest seed others count
unfolding draw_winners sort_numbers
draw_winners-order digest seed count numbers others h =
    ap (λ pool. draw_from digest seed 1 count pool)
      (IsSorted-unique (sort_by ltb numbers) (sort_by ltb others) (sort-IsSorted numbers)
        (sort-IsSorted others)
        (λ n. omega (
          arith,
          h n,
          sum_of-sort_by (λ x. if x == n then 1 else 0) ltb numbers,
          sum_of-sort_by (λ x. if x == n then 1 else 0) ltb others,
        )))
