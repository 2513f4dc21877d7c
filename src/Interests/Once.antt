-- ===== src/Interests/Once.antt =====
-- Repeated conversion of the interests of an order (interests.repository.ts).
use udv_shop_api.Prelude.{ℕ, ◌≡◌, refl, List, arith}
use udv_shop_api.Schema.{Interest, Db}
use udv_shop_api.Table.{count_where}
use udv_shop_api.Table.Laws.{count_where-update_many, update_many-none}
use udv_shop_api.Interests.{convert_for_order, is_bought}

bought-once :
    (u : ℕ) (ps es : List ℕ) (db : Db)
    → count_where (is_bought u ps es) (convert_for_order u ps es db).1.interests ≡ 0
unfolding convert_for_order
bought-once u ps es db =
    count_where-update_many (is_bought u ps es) _ db.interests (λ i h. ground arith)

same_interests :
    (db : Db) (is : List Interest) → is ≡ db.interests → record db { interests = is } ≡ db
same_interests db is h = rw h

nothing-bought :
    (u : ℕ) (ps es : List ℕ) (db : Db)
    → count_where (is_bought u ps es) db.interests ≡ 0
    → convert_for_order u ps es db ≡ (0, db)
unfolding convert_for_order
nothing-bought u ps es db h = rw (h, update_many-none (is_bought u ps es) _ db.interests h) refl

-- The interests that an order satisfies are converted once: a second delivery of the same event finds
-- none, and the database stays as it is.
pub convert_for_order-convert_for_order :
    (u : ℕ) (ps es : List ℕ) (db : Db)
    → convert_for_order u ps es (convert_for_order u ps es db).1
      ≡ (0, (convert_for_order u ps es db).1)
convert_for_order-convert_for_order u ps es db =
    nothing-bought u ps es (convert_for_order u ps es db).1 (bought-once u ps es db)
