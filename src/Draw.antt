-- ===== src/Draw.antt =====
-- src/http/api/raffles/draw.ts: the draw of the winners. `digest seed position` is what the code
-- reads from a SHA-256 hash, a parameter.
use udv_shop_api.Prelude.{
  ℕ, zero, suc, ◌+◌, ◌%◌, Option, none, some, List, [], ◌∷◌, ltb, length, get_elem?,
}
pub mod Winners
pub mod Sorted
use udv_shop_api.Table.{sort_by}

-- `pool.splice(index, 1)`
unfoldable pub remove_at {ℓ} : {A : Type ℓ} → ℕ → List A → List A
remove_at i [] = []
remove_at zero (x ∷ xs) = xs
remove_at (suc i) (x ∷ xs) = x ∷ remove_at i xs

-- `[...entryNumbers].sort((a, b) => a - b)`
unfoldable pub sort_numbers : List ℕ → List ℕ
sort_numbers ns = sort_by ltb ns

module _ (digest : ℕ → ℕ → ℕ) where
  -- The loop of `drawWinners`, from a position on, with the number of rounds that are left.
  unfoldable pub draw_from : ℕ → ℕ → ℕ → List ℕ → List ℕ
  draw_from seed position zero pool = []
  draw_from seed position (suc n) [] = []
  draw_from seed position (suc n) (x ∷ xs) =
      let index = digest seed position % length (x ∷ xs) in
      elim (get_elem? (x ∷ xs) index) [
        | none ↦ []
        | some winner ↦ winner ∷ draw_from seed (suc position) n (remove_at index (x ∷ xs))
      ]

  -- `drawWinners`
  unfoldable pub draw_winners : ℕ → List ℕ → ℕ → List ℕ
  unfolding draw_from sort_numbers
  draw_winners seed entry_numbers prize_count =
      draw_from seed 1 prize_count (sort_numbers entry_numbers)
