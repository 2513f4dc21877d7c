-- ===== src/Campaigns.antt =====
-- src/http/api/campaigns/campaigns.repository.ts, manage.helpers.ts and the routes that write.
use udv_shop_api.Prelude.{
  ℕ, suc, Bool, true, false, not, ◌&&◌, ◌||◌, Option, none, some, List, [], ◌∷◌, ◌++◌, ltb, ◌==◌,
  if◌then◌else◌, or_else, is_some_of, is_none, any, sum_of, map, length,
}
pub mod Ops
pub mod Gallery
pub mod Rows
pub mod Curated
use udv_shop_api.Errors.{Result, ok, err, failure, conflict, not_found, validation, ◌>>=◌}
use udv_shop_api.Schema.{
  Campaign, CampaignStatus, CampaignAcceptedTypes, campaign_in, Donation, DonationStatus,
  donation_in, Db,
}
use udv_shop_api.Table.{find_first, find_many, update_first, delete_many, count_where}
use udv_shop_api.Table.Keys.{count_key}
use udv_shop_api.Raffles.{RaffleConfig, new_raffle, insert_raffle}

-- `isCampaignOpenForDonation`
unfoldable pub is_campaign_open_for_donation : ℕ → Campaign → Bool
is_campaign_open_for_donation now c =
    campaign_in (CampaignStatus.active ∷ []) c.status
    && (elim c.ends_at [ none ↦ true | some t ↦ ltb now t ])

unfoldable pub find_campaign : ℕ → ℕ → Db → Option Campaign
find_campaign store_id slug db =
    find_first (λ c. c.store_id == store_id && c.slug == slug) db.campaigns

-- The body of a creation. The start of its raffle is the time of the call where it names none.
pub record NewCampaign : Type 0 where
  pub slug : ℕ
  pub title : ℕ
  pub story : Option ℕ
  pub images : List ℕ
  pub cover_image : Option ℕ
  pub goal_cents : Option ℕ
  pub accepted_types : CampaignAcceptedTypes
  pub ends_at : Option ℕ
  pub raffle : Option RaffleConfig

abbrev pub first_of : List ℕ → Option ℕ
first_of [] = none
first_of (i ∷ is) = some i

abbrev pub or_first : Option ℕ → List ℕ → Option ℕ
or_first none images = first_of images
or_first (some i) images = some i

abbrev pub new_campaign : ℕ → ℕ → ℕ → NewCampaign → Campaign
new_campaign id now store_id input = record {
  id = id;
  store_id = store_id;
  slug = input.slug;
  title = input.title;
  story = input.story;
  images = input.images;
  cover_image = or_first input.cover_image input.images;
  goal_cents = input.goal_cents;
  accepted_types = input.accepted_types;
  status = CampaignStatus.draft;
  ends_at = input.ends_at;
  archived_at = none;
  created_at = now;
}

-- The first raffle of a campaign has the sequence 1, and no donation to give numbers to.
unfoldable pub with_raffle : ℕ → Option RaffleConfig → Db → Db
with_raffle campaign_id none db = db
with_raffle campaign_id (some r) db =
    insert_raffle (new_raffle db.next_id campaign_id 1 r) r.prizes db

-- `create`
unfoldable pub insert_campaign : ℕ → ℕ → NewCampaign → Db → ℕ × Db
insert_campaign now store_id input db = (
  db.next_id,
  with_raffle db.next_id input.raffle (record db {
    next_id = suc db.next_id;
    campaigns = db.campaigns ++ new_campaign db.next_id now store_id input ∷ [];
  }),
)

-- What an update may change: `none` leaves the field, and a field that may be empty has an option.
pub record CampaignPatch : Type 0 where
  pub title : Option ℕ
  pub story : Option (Option ℕ)
  pub images : Option (List ℕ)
  pub cover_image : Option (Option ℕ)
  pub goal_cents : Option (Option ℕ)
  pub accepted_types : Option CampaignAcceptedTypes
  pub ends_at : Option (Option ℕ)

-- A gallery that changes without a word on the cover takes its first image for it.
abbrev pub new_cover : CampaignPatch → Campaign → Option ℕ
new_cover patch c = elim patch.cover_image [
  | some cover ↦ cover
  | none ↦ elim patch.images [ none ↦ c.cover_image | some images ↦ first_of images ]
]

abbrev pub patch_campaign : CampaignPatch → Campaign → Campaign
patch_campaign patch c = record c {
  title = or_else patch.title c.title;
  story = or_else patch.story c.story;
  images = or_else patch.images c.images;
  cover_image = new_cover patch c;
  goal_cents = or_else patch.goal_cents c.goal_cents;
  accepted_types = or_else patch.accepted_types c.accepted_types;
  ends_at = or_else patch.ends_at c.ends_at;
}

-- `update` of a row that is not there throws.
unfoldable pub write_campaign : ℕ → (Campaign → Campaign) → Db → Result Db
write_campaign id f db =
    if count_key (λ (c : Campaign). c.id) id db.campaigns == 0
    then err (failure "record_not_found")
    else ok (record db { campaigns = update_first (λ c. c.id == id) f db.campaigns })

abbrev pub set_campaign_status : CampaignStatus → Campaign → Campaign
set_campaign_status to c = record c { status = to }

abbrev pub set_archived : Option ℕ → Campaign → Campaign
set_archived at_time c = record c { archived_at = at_time }

unfoldable pub count_donations : ℕ → Db → ℕ
count_donations id db = count_where (λ (d : Donation). is_some_of id d.campaign_id) db.donations

-- `deleteById`: a donation of the campaign forbids it, and its raffles go with it.
unfoldable pub delete_campaign_row : ℕ → Db → Result Db
unfolding count_donations
delete_campaign_row id db =
    let of_campaign =
      λ (raffle_id : ℕ). any (λ r. r.campaign_id == id && r.id == raffle_id) db.raffles in
    if not (count_donations id db == 0)
    then err (failure "foreign_key_constraint")
    else (if count_key (λ (c : Campaign). c.id) id db.campaigns == 0
        then err (failure "record_not_found")
        else ok (record db {
          campaigns = delete_many (λ c. c.id == id) db.campaigns;
          raffles = delete_many (λ r. r.campaign_id == id) db.raffles;
          prizes = delete_many (λ p. of_campaign p.raffle_id) db.prizes;
          entries = delete_many (λ e. of_campaign e.raffle_id) db.entries;
        }))

-- `progressFor`, of one campaign: what was raised, and by how many donations.
unfoldable pub progress_for : ℕ → Db → ℕ × ℕ
progress_for id db =
    let paid =
      find_many
        (λ (d : Donation).
          is_some_of id d.campaign_id && donation_in (DonationStatus.paid ∷ []) d.status)
        db.donations in
    (sum_of (λ (d : Donation). d.amount_cents) paid, length paid)

-- `assertCoverInGallery`
unfoldable pub assert_cover_in_gallery : Option ℕ → List ℕ → Result (Unit {0})
assert_cover_in_gallery none gallery = ok tt
assert_cover_in_gallery (some cover) [] = ok tt
assert_cover_in_gallery (some cover) (i ∷ is) =
    if any (λ j. j == cover) (i ∷ is) then ok tt else err (conflict "cover_not_in_gallery")

abbrev pub or_null : Option (Option ℕ) → Option ℕ
or_null none = none
or_null (some cover) = cover

-- `assertUniquePrizePositions`
unfoldable pub has_repeats : List ℕ → Bool
has_repeats [] = false
has_repeats (p ∷ ps) = any (λ q. q == p) ps || has_repeats ps

abbrev pub positions_of : Option RaffleConfig → List ℕ
positions_of none = []
positions_of (some r) = map (λ p. p.0) r.prizes

-- `ALLOWED` of update-campaign-status.controller.ts
abbrev pub allowed_from : CampaignStatus → List CampaignStatus
allowed_from CampaignStatus.draft = CampaignStatus.active ∷ []
allowed_from CampaignStatus.active = CampaignStatus.paused ∷ CampaignStatus.finished ∷ []
allowed_from CampaignStatus.paused = CampaignStatus.active ∷ CampaignStatus.finished ∷ []
allowed_from CampaignStatus.finished = []

abbrev pub or_no_campaign : Option Campaign → Result Campaign
or_no_campaign none = err (not_found "campaign_not_found")
or_no_campaign (some c) = ok c

-- The routes, after the caller was admitted to the store `store_id`.
unfoldable pub create_campaign : ℕ → ℕ → NewCampaign → Db → Result Db
unfolding insert_campaign
create_campaign now store_id input db =
    if has_repeats (positions_of input.raffle)
    then err (validation "duplicate_prize_position")
    else (assert_cover_in_gallery input.cover_image input.images >>= λ u.
        (if is_none (find_campaign store_id input.slug db)
          then ok (insert_campaign now store_id input db).1
          else err (conflict "campaign_slug_taken")))

unfoldable pub update_campaign : ℕ → ℕ → CampaignPatch → Db → Result Db
update_campaign store_id slug patch db = do
  current ← or_no_campaign (find_campaign store_id slug db)
  u ← assert_cover_in_gallery (or_null patch.cover_image) (or_else patch.images current.images)
  write_campaign current.id (patch_campaign patch) db

unfoldable pub change_status : CampaignStatus → Db → Campaign → Result Db
change_status to db current =
    if campaign_in (to ∷ []) current.status
    then ok db
    else (if campaign_in (allowed_from current.status) to
        then write_campaign current.id (set_campaign_status to) db
        else err (conflict "invalid_campaign_transition"))

unfoldable pub update_campaign_status : ℕ → ℕ → CampaignStatus → Db → Result Db
update_campaign_status store_id slug to db =
    or_no_campaign (find_campaign store_id slug db) >>= change_status to db

unfoldable pub archive_row : ℕ → Bool → Db → Campaign → Result Db
archive_row now archived db current =
    if archived && not (campaign_in (CampaignStatus.finished ∷ []) current.status)
    then err (conflict "campaign_not_finished")
    else write_campaign current.id (set_archived (if archived then some now else none)) db

unfoldable pub archive_campaign : ℕ → ℕ → ℕ → Bool → Db → Result Db
archive_campaign now store_id slug archived db =
    or_no_campaign (find_campaign store_id slug db) >>= archive_row now archived db

unfoldable pub delete_draft : Db → Campaign → Result Db
delete_draft db c =
    if not (campaign_in (CampaignStatus.draft ∷ []) c.status)
    then err (conflict "campaign_not_draft")
    else (if ltb 0 (count_donations c.id db)
        then err (conflict "campaign_has_donations")
        else delete_campaign_row c.id db)

unfoldable pub delete_campaign : ℕ → ℕ → Db → Result Db
delete_campaign store_id slug db =
    or_no_campaign (find_campaign store_id slug db) >>= delete_draft db
