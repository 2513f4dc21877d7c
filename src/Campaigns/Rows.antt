-- ===== src/Campaigns/Rows.antt =====
-- Campaigns that are made and deleted (campaigns.repository.ts).
use udv_shop_api.Prelude.{
  ℕ, suc, ◌≤◌, ◌≡◌, refl, Bool, true, not, ◌==◌, Option, none, some, List, [], ◌∷◌, ◌++◌, inl, inr,
  arith, sum_of-append, if◌then◌else◌, Bool-cases,
}
use udv_shop_api.Errors.{ok}
use udv_shop_api.Schema.{Campaign, Db}
use udv_shop_api.Table.{delete_many}
use udv_shop_api.Table.Laws.{find_first-none}
use udv_shop_api.Table.Keys.{count_key}
use udv_shop_api.Table.Selected.{sum_of-find_many-le, count_where-delete_many-le}
use udv_shop_api.Raffles.{RaffleConfig, insert_raffle}
use udv_shop_api.Campaigns.{
  NewCampaign, new_campaign, with_raffle, insert_campaign, find_campaign, delete_campaign_row,
  count_donations, assert_cover_in_gallery, or_first,
}
use udv_shop_api.Campaigns.Gallery.{
  campaign_id_of, is_named, in_gallery, spoilt, IsCurated, assert_cover_in_gallery-in, first-in,
}

insert-cover :
    (cover : Option ℕ) (images : List ℕ)
    → assert_cover_in_gallery cover images ≡ ok tt
    → in_gallery (or_first cover images) images ≡ true
insert-cover none images h = first-in images
insert-cover (some cover) images h = assert_cover_in_gallery-in (some cover) images h

with_raffle-same :
    (id : ℕ) (r : Option RaffleConfig) (db : Db)
    → ((with_raffle id r db).campaigns ≡ db.campaigns)
      × (db.next_id ≤ (with_raffle id r db).next_id)
unfolding with_raffle insert_raffle
with_raffle-same id none db = (refl, omega arith)
with_raffle-same id (some r) db = (refl, omega arith)

pub insert_campaign-IsCurated :
    (now store_id : ℕ) (input : NewCampaign) (db : Db)
    → find_campaign store_id input.slug db ≡ none
    → assert_cover_in_gallery input.cover_image input.images ≡ ok tt
    → IsCurated db
    → IsCurated (insert_campaign now store_id input db).1
unfolding insert_campaign find_campaign
insert_campaign-IsCurated now store_id input db vacant shown a =
    let x = new_campaign db.next_id now store_id input in
    let added = record db { next_id = suc db.next_id; campaigns = db.campaigns ++ x ∷ [] } in
    let (same, later) = with_raffle-same db.next_id input.raffle added in
    let count =
      λ (q : Campaign → Bool). sum_of-append (λ c. if q c then 1 else 0) db.campaigns (x ∷ []) in
    record {
      unique = λ k. rw same (ground (arith, count (λ c. c.id == k), a.unique k, a.fresh k));
      fresh = λ k g. rw same (ground (arith, later, count (λ c. c.id == k), a.fresh k));
      slugs = λ s k. rw same (
          ground (
            arith,
            count (is_named s k),
            a.slugs s k,
            find_first-none (is_named store_id input.slug) db.campaigns vacant,
          ));
      curated = rw same (
          ground (
            arith,
            sum_of-append spoilt db.campaigns (x ∷ []),
            a.curated,
            insert-cover input.cover_image input.images shown,
          ));
    }

delete_campaign_row-rows :
    (id : ℕ) (db db' : Db)
    → delete_campaign_row id db ≡ ok db'
    → (db'.campaigns ≡ delete_many (λ c. c.id == id) db.campaigns) × (db'.next_id ≡ db.next_id)
unfolding delete_campaign_row
delete_campaign_row-rows id db db' h = elim (Bool-cases (count_donations id db == 0)) [
  | inr t ↦ ground arith
  | inl t ↦ elim (Bool-cases (count_key campaign_id_of id db.campaigns == 0)) [
    | inl y ↦ ground arith
    | inr y ↦ ground arith
  ]
]

pub delete_campaign_row-IsCurated :
    (id : ℕ) (db db' : Db) → delete_campaign_row id db ≡ ok db' → IsCurated db → IsCurated db'
unfolding delete_campaign_row delete_many
delete_campaign_row-IsCurated id db db' h a =
    let (rows, same) = delete_campaign_row-rows id db db' h in
    record {
      unique = λ k. rw rows (
          omega (
            arith,
            a.unique k,
            count_where-delete_many-le (λ c. c.id == k) (λ c. c.id == id) db.campaigns,
          ));
      fresh = λ k g. rw rows (
          omega (
            arith,
            same,
            a.fresh k,
            count_where-delete_many-le (λ c. c.id == k) (λ c. c.id == id) db.campaigns,
          ));
      slugs = λ s k. rw rows (
          omega (
            arith,
            a.slugs s k,
            count_where-delete_many-le (is_named s k) (λ c. c.id == id) db.campaigns,
          ));
      curated =
          rw (rows, delete_many)
            (omega
              (arith, a.curated, sum_of-find_many-le spoilt (λ c. not (c.id == id)) db.campaigns));
    }
