-- ===== src/Raffles/Drawing.antt =====
-- src/http/api/raffles/raffles.repository.ts: the draw of a raffle.
use udv_shop_api.Prelude.{
  ℕ, Option, none, some, List, [], ◌∷◌, ltb, ◌==◌, if◌then◌else◌, is_none, length, map,
}
use udv_shop_api.Errors.{Result, ok, err, conflict}
use udv_shop_api.Schema.{RaffleStatus, Raffle, RafflePrize, RaffleEntry, Db, enqueue, raffle_drawn}
use udv_shop_api.Table.{find_many, update_first, sort_by}
use udv_shop_api.Table.Keys.{update_key, count_at}
use udv_shop_api.Draw.{draw_winners}
use udv_shop_api.Grants.{is_open}

-- The claim of a draw, and the end of its window.
abbrev pub set_drawn : ℕ → ℕ → Raffle → Raffle
set_drawn seed now r = record r {
  status = RaffleStatus.drawn;
  seed = some seed;
  drawn_at = some now;
}

abbrev pub close_window : ℕ → Raffle → Raffle
close_window now r = record r { ends_at = some now }

unfoldable pub claim_draw : ℕ → ℕ → ℕ → List Raffle → List Raffle
claim_draw raffle_id seed now raffles =
    update_key (λ (r : Raffle). r.id) raffle_id (λ r. is_none r.ends_at) (close_window now)
      (update_key (λ (r : Raffle). r.id) raffle_id is_open (set_drawn seed now) raffles)

-- `new Map(entries.map((e) => [e.number, e.id]))`, asked for a number: the last entry has it.
unfoldable pub id_by_number : ℕ → List RaffleEntry → Option ℕ
id_by_number number [] = none
id_by_number number (e ∷ es) = elim (id_by_number number es) [
  | some id ↦ some id
  | none ↦ if e.number == number then some e.id else none
]

-- The prizes in their order, each with the winner of its turn, until the winners run out.
unfoldable pub award :
    List RafflePrize → List ℕ → List RaffleEntry → List RafflePrize → List RafflePrize
award [] winners entries prizes = prizes
award (p ∷ ps) [] entries prizes = prizes
award (p ∷ ps) (n ∷ ns) entries prizes = award ps ns entries (
    update_first (λ q. q.id == p.id) (λ q. record q { winner_entry_id = id_by_number n entries })
      prizes)

-- `draw`: of a raffle that is open and has entries.
unfoldable pub draw : (ℕ → ℕ → ℕ) → ℕ → ℕ → ℕ → Db → Result (ℕ × Db)
draw digest raffle_id seed now db =
    let entries = find_many (λ e. e.raffle_id == raffle_id) db.entries in
    let prizes =
      sort_by (λ s r. ltb s.position r.position)
        (find_many (λ p. p.raffle_id == raffle_id) db.prizes) in
    let winners = draw_winners digest seed (map (λ e. e.number) entries) (length prizes) in
    if count_at (λ (r : Raffle). r.id) raffle_id is_open db.raffles == 1
    then (if length entries == 0
        then err (conflict "raffle_has_no_entries")
        else ok (
          raffle_id,
          enqueue (raffle_drawn raffle_id) (record db {
            raffles = claim_draw raffle_id seed now db.raffles;
            prizes = award prizes winners entries db.prizes;
          }),
        ))
    else err (conflict "raffle_not_open")
