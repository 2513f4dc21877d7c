-- ===== src/Paging.antt =====
-- src/lib/cursor.ts: the pages of a list that is ordered by creation, newest first. A cursor is
-- the key of the last row of a page; its text form, base64 of a date and an identifier, is left
-- out.
use udv_shop_api.Prelude.{
  ℕ, zero, suc, ◌+◌, Bool, true, false, ◌&&◌, ◌||◌, Option, none, some, List, [], ◌∷◌, ltb, ◌==◌,
  if◌then◌else◌, length, take, map,
}
pub mod Complete
use udv_shop_api.Errors.{Result, ok, err, validation}
use udv_shop_api.Table.{find_many}

pub record Cursor : Type 0 where
  pub created_at : ℕ
  pub id : ℕ

-- `afterCursorWhere`
unfoldable pub after_cursor : Cursor → Cursor → Bool
after_cursor c r = ltb r.created_at c.created_at || r.created_at == c.created_at && ltb r.id c.id

pub record CursorPage {ℓ} (T : Type ℓ) : Type ℓ where
  pub items : List T
  pub next_cursor : Option Cursor

abbrev pub last_of {ℓ} : {A : Type ℓ} → List A → Option A
last_of [] = none
last_of (x ∷ []) = some x
last_of (x ∷ y ∷ ys) = last_of (y ∷ ys)

abbrev pub cursor_of_last {ℓ} : {A : Type ℓ} → (A → Cursor) → Option A → Option Cursor
cursor_of_last key none = none
cursor_of_last key (some r) = some (key r)

-- `toPage`, which is `toPageBy` with the key of a row.
unfoldable pub to_page {ℓ κ} :
    {Row : Type ℓ} {T : Type κ} → List Row → ℕ → (Row → Cursor) → (Row → T) → Result (CursorPage T)
to_page rows limit cursor_of f =
    if ltb limit 1
    then err (validation "invalid_limit")
    else ok (record {
      items = map f (take limit rows);
      next_cursor =
          if ltb limit (length rows)
          then cursor_of_last cursor_of (last_of (take limit rows))
          else none;
    })

-- The rows that a list asks the database for: those after the cursor, and one more than the page.
unfoldable pub page_rows {ℓ} :
    {Row : Type ℓ} → (Row → Cursor) → Option Cursor → ℕ → List Row → List Row
page_rows key none limit rows = take (suc limit) rows
page_rows key (some c) limit rows = take (suc limit) (find_many (λ r. after_cursor c (key r)) rows)
