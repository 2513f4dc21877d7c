-- ===== src/RaffleWindow.antt =====
-- src/http/api/raffles/raffle-window.ts, with `assertWindowFree` of raffles.repository.ts: the
-- windows of the raffles of a campaign, and the raffle that a donation takes part in.
use udv_shop_api.Prelude.{
  ℕ, Bool, true, not, ◌&&◌, Option, none, some, ltb, leb, ◌==◌, if◌then◌else◌, is_none,
}
use udv_shop_api.Errors.{Result, ok, err, conflict}
use udv_shop_api.Schema.{RaffleStatus, raffle_is, Raffle, Db}
use udv_shop_api.Table.{find_first, sort_by}

-- `OR: [{ endsAt: null }, { endsAt: { gt: t } }]`
abbrev pub ends_after : ℕ → Raffle → Bool
ends_after t r = elim r.ends_at [ none ↦ true | some e ↦ ltb t e ]

-- The raffles of a campaign that are not cancelled.
abbrev pub is_live : ℕ → Raffle → Bool
is_live campaign_id r =
    r.campaign_id == campaign_id && not (raffle_is RaffleStatus.cancelled r.status)

-- A live raffle whose window contains a time.
abbrev pub covers : ℕ → ℕ → Raffle → Bool
covers campaign_id t r = is_live campaign_id r && (leb r.starts_at t && ends_after t r)

abbrev is_upcoming : ℕ → ℕ → Raffle → Bool
is_upcoming campaign_id t r =
    r.campaign_id == campaign_id
    && (raffle_is RaffleStatus.open_entries r.status && ltb t r.starts_at)

-- `resolveRaffleForDonation`
unfoldable pub resolve_raffle : ℕ → ℕ → Db → Option Raffle
resolve_raffle campaign_id paid_at db = elim (find_first (covers campaign_id paid_at) db.raffles) [
  | some r ↦ some r
  | none ↦
      find_first (is_upcoming campaign_id paid_at)
        (sort_by (λ s r. ltb s.starts_at r.starts_at) db.raffles)
]

-- A window that is asked for, and the raffle that it is for, if there is one already.
pub record Window : Type 0 where
  pub campaign_id : ℕ
  pub starts_at : ℕ
  pub ends_at : Option ℕ
  pub except_raffle_id : Option ℕ

abbrev pub is_other : Option ℕ → Raffle → Bool
is_other none r = true
is_other (some k) r = not (r.id == k)

abbrev pub starts_before : Option ℕ → Raffle → Bool
starts_before none r = true
starts_before (some e) r = ltb r.starts_at e

-- The `where` of `findWindowConflict`.
abbrev pub conflicts : Window → Raffle → Bool
conflicts w r =
    is_live w.campaign_id r
    && (is_other w.except_raffle_id r && (starts_before w.ends_at r && ends_after w.starts_at r))

-- `findWindowConflict`: the sequence of the earliest raffle in the way, and whether it has no end.
unfoldable pub find_window_conflict : Window → Db → Option (ℕ × Bool)
find_window_conflict w db =
    elim (find_first (conflicts w) (sort_by (λ s r. ltb s.starts_at r.starts_at) db.raffles)) [
      | none ↦ none
      | some r ↦ some (r.sequence, is_none r.ends_at)
    ]

-- `assertWindowFree`
unfoldable pub assert_window_free : Window → Db → Result Db
assert_window_free w db = elim (find_window_conflict w db) [
  | none ↦ ok db
  | some (sequence, open_ended) ↦
      if open_ended && is_none w.ends_at
      then err (conflict "raffle_open_ended_conflict")
      else err (conflict "raffle_window_overlap")
]
