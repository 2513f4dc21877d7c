-- ===== src/Paging/Complete.antt =====
-- The walk through the pages of src/lib/cursor.ts.
use udv_shop_api.Prelude.{
  ℕ, zero, suc, ◌≤◌, ◌≡◌, ◌≢◌, refl, Bool, true, false, Option, none, some, List, [], ◌∷◌, arith,
  if◌then◌else◌, length, take, drop, All, ltb, inl, inr, Bool-cases, some-injective, sym, ◌∙◌, ap,
  map, length-take,
}
use mathlib.Core.Path.{subst}
use udv_shop_api.Errors.{ok}
use udv_shop_api.Table.{find_many}
use udv_shop_api.Paging.{
  Cursor, after_cursor, last_of, page_rows, cursor_of_last, to_page, CursorPage,
}

-- No cursor is after itself, and of two only one is after the other.
after_cursor_self : (c : Cursor) → after_cursor c c ≡ false
unfolding after_cursor
after_cursor_self c = ground arith

after_cursor-asym : (c d : Cursor) → after_cursor c d ≡ true → after_cursor d c ≡ false
unfolding after_cursor
after_cursor-asym c d h = ground arith

after_cursor_trans :
    (c d e : Cursor) → after_cursor c d ≡ true → after_cursor d e ≡ true → after_cursor c e ≡ true
unfolding after_cursor
after_cursor_trans c d e h k = ground arith

take-take {ℓ} : {A : Type ℓ} (n : ℕ) (xs : List A) → take n (take (suc n) xs) ≡ take n xs
take-take zero xs = refl
take-take (suc n) [] = refl
take-take (suc n) (x ∷ xs) = ap (◌∷◌ x) (take-take n xs)

module _ {ℓ} {Row : Type ℓ} (key : Row → Cursor) where
  -- Rows as `KEYSET_ORDER_BY` orders them: each is after the ones before it.
  abbrev pub IsOrdered : List Row → Type 0
  IsOrdered [] = Unit
  IsOrdered (x ∷ xs) = All (λ y. after_cursor (key x) (key y) ≡ true) xs × IsOrdered xs

  abbrev following : Cursor → List Row → List Row
  following c rows = find_many (λ r. after_cursor c (key r)) rows

  following-All :
      (c : Cursor) (xs : List Row)
      → All (λ y. after_cursor c (key y) ≡ true) xs
      → following c xs ≡ xs
  unfolding find_many
  following-All c [] h = refl
  following-All c (x ∷ xs) (e, h) = rw (e, following-All c xs h) refl

  -- The last row of a page that is not the first row is after it.
  last-after :
      (c : Cursor) (n : ℕ) (xs : List Row) (r : Row)
      → All (λ y. after_cursor c (key y) ≡ true) xs
      → last_of (take n xs) ≡ some r
      → after_cursor c (key r) ≡ true
  last-after c zero xs r a h = ground arith
  last-after c (suc n) [] r a h = ground arith
  last-after c (suc zero) (x ∷ xs) r (e, a) h = rw⁻¹ (some-injective h) e
  last-after c (suc (suc n)) (x ∷ []) r (e, a) h = rw⁻¹ (some-injective h) e
  last-after c (suc (suc n)) (x ∷ y ∷ ys) r (e, a) h = last-after c (suc n) (y ∷ ys) r a h

  -- What follows the last row of a page, by its cursor, is exactly what the page left.
  following-last :
      (n : ℕ) (rows : List Row) (r : Row)
      → IsOrdered rows
      → last_of (take n rows) ≡ some r
      → find_many (λ x. after_cursor (key r) (key x)) rows ≡ drop n rows
  unfolding find_many
  following-last zero rows r o h = ground arith
  following-last (suc n) [] r o h = ground arith
  following-last (suc zero) (x ∷ xs) r (a, o) h =
      subst (λ z. find_many (λ q. after_cursor (key z) (key q)) (x ∷ xs) ≡ xs) (some-injective h)
        (rw (after_cursor_self (key x)) (following-All (key x) xs a))
  following-last (suc (suc n)) (x ∷ []) r (a, o) h =
      subst (λ z. find_many (λ q. after_cursor (key z) (key q)) (x ∷ []) ≡ []) (some-injective h)
        (rw (after_cursor_self (key x)) refl)
  following-last (suc (suc n)) (x ∷ y ∷ ys) r (a, o) h =
      rw (after_cursor-asym (key x) (key r) (last-after (key x) (suc n) (y ∷ ys) r a h))
        (following-last (suc n) (y ∷ ys) r o h)

  All-following :
      (P : Row → Bool) (c : Cursor) (xs : List Row)
      → All (λ y. P y ≡ true) xs
      → All (λ y. P y ≡ true) (following c xs)
  unfolding find_many
  All-following P c [] a = tt
  All-following P c (x ∷ xs) (e, a) = elim (Bool-cases (after_cursor c (key x))) [
    | inl t ↦ rw t (e, All-following P c xs a)
    | inr t ↦ rw t (All-following P c xs a)
  ]

  following-IsOrdered : (c : Cursor) (xs : List Row) → IsOrdered xs → IsOrdered (following c xs)
  unfolding find_many
  following-IsOrdered c [] o = tt
  following-IsOrdered c (x ∷ xs) (a, o) = elim (Bool-cases (after_cursor c (key x))) [
    | inl t ↦
        rw t (All-following (λ y. after_cursor (key x) (key y)) c xs a, following-IsOrdered c xs o)
    | inr t ↦ rw t (following-IsOrdered c xs o)
  ]

  -- Of two cursors the later one decides.
  following-following :
      (c d : Cursor) (xs : List Row)
      → after_cursor c d ≡ true
      → following d (following c xs) ≡ following d xs
  unfolding find_many
  following-following c d [] h = refl
  following-following c d (x ∷ xs) h = elim (Bool-cases (after_cursor d (key x))) [
    | inl t ↦ rw (after_cursor_trans c d (key x) h t, t, following-following c d xs h) refl
    | inr t ↦ elim (Bool-cases (after_cursor c (key x))) [
      | inl u ↦ rw (u, t, following-following c d xs h) refl
      | inr u ↦ rw (u, t, following-following c d xs h) refl
    ]
  ]

  following-after :
      (c : Cursor) (xs : List Row) → All (λ y. after_cursor c (key y) ≡ true) (following c xs)
  unfolding find_many
  following-after c [] = tt
  following-after c (x ∷ xs) = elim (Bool-cases (after_cursor c (key x))) [
    | inl t ↦ rw t (t, following-after c xs)
    | inr t ↦ rw t (following-after c xs)
  ]

  -- What is still to be shown after a cursor, all at first.
  abbrev pub rest_of : Option Cursor → List Row → List Row
  rest_of none rows = rows
  rest_of (some c) rows = find_many (λ r. after_cursor c (key r)) rows

  rest_of-next :
      (c : Option Cursor) (n : ℕ) (rows : List Row) (r : Row)
      → IsOrdered rows
      → last_of (take n (rest_of c rows)) ≡ some r
      → rest_of (some (key r)) rows ≡ drop n (rest_of c rows)
  rest_of-next none n rows r o h = following-last n rows r o h
  rest_of-next (some c) n rows r o h =
      sym (
        following-following c (key r) rows
          (last-after c n (following c rows) r (following-after c rows) h))
      ∙ following-last n (following c rows) r (following-IsOrdered c rows o) h

  page_rows-rest :
      (c : Option Cursor) (limit : ℕ) (rows : List Row)
      → page_rows key c limit rows ≡ take (suc limit) (rest_of c rows)
  unfolding page_rows
  page_rows-rest none limit rows = refl
  page_rows-rest (some c) limit rows = refl

  next-cursor :
      (o : Option Row) (d : Cursor)
      → cursor_of_last key o ≡ some d
      → (r : Row) × (o ≡ some r) × (key r ≡ d)
  next-cursor none d h = ground arith
  next-cursor (some r) d h = (r, refl, some-injective h)

  last-some : (n : ℕ) (xs : List Row) → suc n ≤ length xs → last_of (take (suc n) xs) ≢ none
  last-some n [] h = ground arith
  last-some zero (x ∷ xs) h = λ e. ground arith
  last-some (suc n) (x ∷ []) h = ground arith
  last-some (suc n) (x ∷ y ∷ ys) h = last-some n (y ∷ ys) (omega arith)

module _ {ℓ κ} {Row : Type ℓ} {T : Type κ} (key : Row → Cursor) (f : Row → T) where
  -- The page of rows that were asked for, one more than its limit.
  abbrev page_of : ℕ → List Row → CursorPage T
  page_of limit rows = record {
    items = map f (take limit rows);
    next_cursor =
        if ltb limit (length rows) then cursor_of_last key (last_of (take limit rows)) else none;
  }

  to_page-ok :
      (rows : List Row) (limit : ℕ) (page : CursorPage T)
      → to_page rows limit key f ≡ ok page
      → (1 ≤ limit) × (page_of limit rows ≡ page)
  unfolding to_page
  to_page-ok rows limit page h = elim (Bool-cases (ltb limit 1)) [
    | inl e ↦ ground arith
    | inr e ↦ (ground arith, ground arith)
  ]

  -- A cursor that is given is the key of the last row of the page.
  page_of-some :
      (limit : ℕ) (rest : List Row) (d : Cursor)
      → (page_of limit (take (suc limit) rest)).next_cursor ≡ some d
      → (r : Row) × (last_of (take limit rest) ≡ some r) × (key r ≡ d)
  page_of-some limit rest d h =
      next-cursor key (last_of (take limit rest)) d (
        subst (λ xs. cursor_of_last key (last_of xs) ≡ some d) (take-take limit rest)
          (ground arith))

  cursor-none : (o : Option Row) → cursor_of_last key o ≡ none → o ≡ none
  cursor-none none h = refl
  cursor-none (some r) h = ground arith

  page_of-none :
      (limit : ℕ) (rest : List Row)
      → 1 ≤ limit
      → (page_of limit (take (suc limit) rest)).next_cursor ≡ none
      → length rest ≤ limit
  page_of-none zero rest pos h = ground arith
  page_of-none (suc n) rest pos h =
      let xs = take (suc (suc n)) rest in
      elim (Bool-cases (ltb (suc n) (length xs))) [
        | inr e ↦ ground (arith, length-take (suc (suc n)) rest)
        | inl e ↦ absurd (
            last-some key n xs (ground arith)
              (cursor-none (last_of (take (suc n) xs)) (ground arith)))
      ]

  -- A page of a list in its order, from any cursor: it shows the next rows, as many as the limit; the
  -- cursor that it gives leaves exactly what it did not show, so no row is shown twice or lost; and it
  -- gives no cursor only when nothing is left.
  pub to_page-next :
      (c : Option Cursor) (limit : ℕ) (rows : List Row) (page : CursorPage T)
      → IsOrdered key rows
      → to_page (page_rows key c limit rows) limit key f ≡ ok page
      → (page.items ≡ map f (take limit (rest_of key c rows)))
        × ((d : Cursor)
            → page.next_cursor ≡ some d
            → rest_of key (some d) rows ≡ drop limit (rest_of key c rows))
        × (page.next_cursor ≡ none → length (rest_of key c rows) ≤ limit)
  to_page-next c limit rows page o h =
      let rest = rest_of key c rows in
      let (pos, made) = to_page-ok (page_rows key c limit rows) limit page h in
      let same = subst (λ xs. page_of limit xs ≡ page) (page_rows-rest key c limit rows) made in
      subst
        (λ (p : CursorPage T).
          (p.items ≡ map f (take limit rest))
          × ((d : Cursor) → p.next_cursor ≡ some d → rest_of key (some d) rows ≡ drop limit rest)
          × (p.next_cursor ≡ none → length rest ≤ limit))
        same
        (
          ap (map f) (take-take limit rest),
          λ d g.
              let (r, last, at) = page_of-some limit rest d g in
              subst (λ k. rest_of key (some k) rows ≡ drop limit rest) at
                (rest_of-next key c limit rows r o last),
          page_of-none limit rest pos,
        )
