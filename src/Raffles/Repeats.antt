-- ===== src/Raffles/Repeats.antt =====
-- Repeated draws of a raffle (raffles.repository.ts).
use udv_shop_api.Prelude.{ℕ, ◌≡◌, refl, arith, is_none, List}
use udv_shop_api.Errors.{ok, err, conflict}
use udv_shop_api.Schema.{Raffle, Db, enqueue}
use udv_shop_api.Table.Laws.{sum_of-update_many}
use udv_shop_api.Table.Keys.{update_key, count_at, count_at-update_key}
use udv_shop_api.Grants.{is_open}
use udv_shop_api.Raffles.Drawing.{draw, claim_draw, set_drawn, close_window}
use udv_shop_api.Raffles.Narrowing.{raffle_id_of}

-- The claim leaves no open row under its key.
count_at-claim_draw :
    (k seed now : ℕ) (rs : List Raffle)
    → count_at raffle_id_of k is_open (claim_draw k seed now rs) ≡ 0
unfolding claim_draw
count_at-claim_draw k seed now rs =
    let drawn = update_key raffle_id_of k is_open (set_drawn seed now) rs in
    let closed : count_at raffle_id_of k is_open
          (update_key raffle_id_of k (λ r. is_none r.ends_at) (close_window now) drawn)
        ≡ count_at raffle_id_of k is_open drawn =
      sum_of-update_many _ _ _ drawn (λ r h. refl) in
    omega (
      arith,
      closed,
      count_at-update_key raffle_id_of k is_open (set_drawn seed now) rs (λ r h. refl),
    )

-- A raffle that is not open is not drawn.
draw-closed :
    (digest : ℕ → ℕ → ℕ) (k seed now : ℕ) (db : Db)
    → count_at raffle_id_of k is_open db.raffles ≡ 0
    → draw digest k seed now db ≡ err (conflict "raffle_not_open")
unfolding draw
draw-closed digest k seed now db h = rw h refl

raffles-draw :
    (digest : ℕ → ℕ → ℕ) (k seed now : ℕ) (db : Db) (r : ℕ) (db' : Db)
    → draw digest k seed now db ≡ ok (r, db')
    → db'.raffles ≡ claim_draw k seed now db.raffles
unfolding draw enqueue
raffles-draw digest k seed now db r db' h = ground arith

-- A raffle that was drawn is not drawn again, with any hash, seed and time: the second call throws,
-- so the winners stay.
pub draw-draw :
    (digest other : ℕ → ℕ → ℕ) (k seed again now later : ℕ) (db : Db) (r : ℕ) (db' : Db)
    → draw digest k seed now db ≡ ok (r, db')
    → draw other k again later db' ≡ err (conflict "raffle_not_open")
draw-draw digest other k seed again now later db r db' h =
    draw-closed other k again later db'
      (rw (raffles-draw digest k seed now db r db' h) (count_at-claim_draw k seed now db.raffles))
