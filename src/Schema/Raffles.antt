-- ===== src/Schema/Raffles.antt =====
-- The models Campaign, Raffle, RafflePrize and RaffleEntry. An image is the number of its key.
use udv_shop_api.Prelude.{ℕ, Option, List}
use udv_shop_api.Schema.Enums.{CampaignStatus, CampaignAcceptedTypes, RaffleStatus}

pub record Campaign : Type 0 where
  pub id : ℕ
  pub store_id : ℕ
  pub slug : ℕ
  pub title : ℕ
  pub story : Option ℕ
  pub images : List ℕ
  pub cover_image : Option ℕ
  pub goal_cents : Option ℕ
  pub accepted_types : CampaignAcceptedTypes
  pub status : CampaignStatus
  pub ends_at : Option ℕ
  pub archived_at : Option ℕ
  pub created_at : ℕ

pub record Raffle : Type 0 where
  pub id : ℕ
  pub campaign_id : ℕ
  pub sequence : ℕ
  pub title : ℕ
  pub cents_per_number : ℕ
  pub starts_at : ℕ
  pub ends_at : Option ℕ
  pub draw_at : Option ℕ
  pub status : RaffleStatus
  pub seed : Option ℕ
  pub drawn_at : Option ℕ
  pub next_number : ℕ

pub record RafflePrize : Type 0 where
  pub id : ℕ
  pub raffle_id : ℕ
  pub position : ℕ
  pub title : ℕ
  pub winner_entry_id : Option ℕ

pub record RaffleEntry : Type 0 where
  pub id : ℕ
  pub raffle_id : ℕ
  pub donation_id : ℕ
  pub user_id : ℕ
  pub number : ℕ
