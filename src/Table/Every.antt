-- ===== src/Table/Every.antt =====
-- A predicate of every row of a table, after a write or in a selection.
use udv_shop_api.Prelude.{Bool, true, List, [], ◌∷◌, ◌≡◌, inl, inr, Bool-cases, All}
use udv_shop_api.Table.{update_many, find_many, update_first}

module _ {ℓ κ} {A : Type ℓ} (P : A → Type κ) where
  pub All-update_many :
      (p : A → Bool) (f : A → A) (rs : List A)
      → ((r : A) → p r ≡ true → P r → P (f r))
      → All P rs
      → All P (update_many p f rs)
  unfolding update_many
  All-update_many p f [] h a = tt
  All-update_many p f (r ∷ rs) h (b, a) = elim (Bool-cases (p r)) [
    | inl e ↦ rw e (h r e b, All-update_many p f rs h a)
    | inr e ↦ rw e (b, All-update_many p f rs h a)
  ]

  pub All-update_first :
      (p : A → Bool) (f : A → A) (rs : List A)
      → ((r : A) → P r → P (f r))
      → All P rs
      → All P (update_first p f rs)
  unfolding update_first
  All-update_first p f [] h a = tt
  All-update_first p f (r ∷ rs) h (b, a) = elim (Bool-cases (p r)) [
    | inl e ↦ rw e (h r b, a)
    | inr e ↦ rw e (b, All-update_first p f rs h a)
  ]

  pub All-find_many :
      (Q : A → Type κ) (p : A → Bool) (rs : List A)
      → ((r : A) → p r ≡ true → P r → Q r)
      → All P rs
      → All Q (find_many p rs)
  unfolding find_many
  All-find_many Q p [] h a = tt
  All-find_many Q p (r ∷ rs) h (b, a) = elim (Bool-cases (p r)) [
    | inl e ↦ rw e (h r e b, All-find_many Q p rs h a)
    | inr e ↦ rw e (All-find_many Q p rs h a)
  ]

  pub All-intro : (rs : List A) → ((r : A) → P r) → All P rs
  All-intro [] h = tt
  All-intro (r ∷ rs) h = (h r, All-intro rs h)

  pub All-map : (Q : A → Type κ) (rs : List A) → ((r : A) → P r → Q r) → All P rs → All Q rs
  All-map Q [] h a = tt
  All-map Q (r ∷ rs) h (b, a) = (h r b, All-map Q rs h a)
