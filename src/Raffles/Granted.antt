-- ===== src/Raffles/Granted.antt =====
-- A donation that was given numbers is given none again (raffles.repository.ts).
use udv_shop_api.Prelude.{ℕ, ◌≡◌, true, some, List}
use udv_shop_api.Schema.{Donation}
use udv_shop_api.Table.Keys.{find_key}

abbrev pub donation_id_of : Donation → ℕ
donation_id_of d = d.id

-- The row of the donation has numbers.
abbrev Granted : ℕ → List Donation → Type 0
Granted k ds = (d : Donation) × (find_key donation_id_of k ds ≡ some d) × (d.raffle_granted ≡ true)
