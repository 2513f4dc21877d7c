-- ===== src/Campaigns/Ops.antt =====
-- Requests to the routes of src/http/api/campaigns that write, in any order.
use udv_shop_api.Prelude.{ℕ, Bool, List, [], ◌∷◌}
use udv_shop_api.Errors.{Result, ok, err}
use udv_shop_api.Schema.{CampaignStatus, Db}
use udv_shop_api.Campaigns.{
  NewCampaign, CampaignPatch, create_campaign, update_campaign, update_campaign_status,
  archive_campaign, delete_campaign,
}

pub data CampaignOp : Type 0 where
  create : NewCampaign → CampaignOp
  update : (slug : ℕ) → CampaignPatch → CampaignOp
  change : (slug : ℕ) → CampaignStatus → CampaignOp
  archive : (slug : ℕ) → (archived : Bool) → CampaignOp
  delete : (slug : ℕ) → CampaignOp

unfoldable pub perform : ℕ → ℕ → CampaignOp → Db → Result Db
perform now store_id (create input) db = create_campaign now store_id input db
perform now store_id (update slug patch) db = update_campaign store_id slug patch db
perform now store_id (change slug to) db = update_campaign_status store_id slug to db
perform now store_id (archive slug archived) db = archive_campaign now store_id slug archived db
perform now store_id (delete slug) db = delete_campaign store_id slug db

-- A request that throws has written nothing.
abbrev pub or_same : Db → Result Db → Db
or_same db (ok db') = db'
or_same db (err e) = db

-- A request at a time, for a store.
unfoldable pub step : ℕ × ℕ × CampaignOp → Db → Db
unfolding perform
step (now, store_id, op) db = or_same db (perform now store_id op db)

unfoldable pub run : List (ℕ × ℕ × CampaignOp) → Db → Db
run [] db = db
run (r ∷ rs) db = run rs (step r db)
