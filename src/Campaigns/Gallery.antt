-- ===== src/Campaigns/Gallery.antt =====
-- What a campaign shows, and an update of one (src/http/api/campaigns).
use udv_shop_api.Prelude.{
  ℕ, ◌≤◌, ◌≡◌, refl, Bool, true, false, not, ◌&&◌, ◌||◌, ◌==◌, Option, none, some, List, [], ◌∷◌,
  inl, inr, arith, any, is_none, sum_of, if◌then◌else◌, Bool-cases, Option-cases, or_else, ==_refl,
}
use udv_shop_api.Errors.{ok, unless-ok}
use udv_shop_api.Schema.{Campaign, CampaignStatus, campaign_in, Db}
use udv_shop_api.Table.{count_where}
use udv_shop_api.Table.Laws.{sum_of-update_first}
use udv_shop_api.Table.Keys.{count_key, find_key}
use udv_shop_api.Table.Selected.{sum_of-found, find_key-found, count_where-update_first-same}
use udv_shop_api.Campaigns.{
  CampaignPatch, patch_campaign, write_campaign, find_campaign, set_archived, set_campaign_status,
  assert_cover_in_gallery, or_null, new_cover, first_of, allowed_from,
}

abbrev pub campaign_id_of : Campaign → ℕ
campaign_id_of c = c.id

-- The campaign has the slug in the store.
abbrev pub is_named : ℕ → ℕ → Campaign → Bool
is_named store_id slug c = c.store_id == store_id && c.slug == slug

-- The cover is one of the images, where there are any.
abbrev pub in_gallery : Option ℕ → List ℕ → Bool
in_gallery none images = true
in_gallery (some cover) [] = true
in_gallery (some cover) (i ∷ is) = any (λ j. j == cover) (i ∷ is)

abbrev pub is_finished : Campaign → Bool
is_finished c = campaign_in (CampaignStatus.finished ∷ []) c.status

-- The cover stands in the gallery, and what is archived is finished.
abbrev pub is_curated : Campaign → Bool
is_curated c = in_gallery c.cover_image c.images && (is_none c.archived_at || is_finished c)

abbrev pub spoilt : Campaign → ℕ
spoilt c = if is_curated c then 0 else 1

pub record IsCurated (db : Db) : Type 0 where
  pub unique : (k : ℕ) → count_key campaign_id_of k db.campaigns ≤ 1
  pub fresh : (k : ℕ) → db.next_id ≤ k → count_key campaign_id_of k db.campaigns ≡ 0
  pub slugs : (store_id slug : ℕ) → count_where (is_named store_id slug) db.campaigns ≤ 1
  pub curated : sum_of spoilt db.campaigns ≡ 0

-- An update of the campaign that was found, which keeps its names.
pub write_campaign-IsCurated :
    (c : Campaign) (f : Campaign → Campaign) (store_id slug : ℕ) (db db' : Db)
    → find_campaign store_id slug db ≡ some c
    → ((r : Campaign) → (f r).id ≡ r.id)
    → ((r : Campaign) → (f r).store_id ≡ r.store_id)
    → ((r : Campaign) → (f r).slug ≡ r.slug)
    → (is_curated c ≡ true → is_curated (f c) ≡ true)
    → write_campaign c.id f db ≡ ok db'
    → IsCurated db
    → IsCurated db'
unfolding write_campaign find_campaign
write_campaign-IsCurated c f store_id slug db db' found i s n keep h a =
    rw (← unless-ok _ _ _ db' h) (record {
      unique = λ k. omega (
        arith,
        a.unique k,
        count_where-update_first-same (λ r. r.id == k) (λ r. r.id == c.id) f db.campaigns
            (λ r. rw (i r) refl),
      );
      fresh = λ k g. omega (
        arith,
        a.fresh k g,
        count_where-update_first-same (λ r. r.id == k) (λ r. r.id == c.id) f db.campaigns
            (λ r. rw (i r) refl),
      );
      slugs = λ k m. omega (
        arith,
        a.slugs k m,
        count_where-update_first-same (is_named k m) (λ r. r.id == c.id) f db.campaigns
            (λ r. rw (s r, n r) refl),
      );
      curated =
          let own : find_key campaign_id_of c.id db.campaigns ≡ some c =
            find_key-found campaign_id_of (is_named store_id slug) db.campaigns c a.unique found in
          ground (
            arith,
            sum_of-found spoilt (λ r. r.id == c.id) db.campaigns c own a.curated,
            a.curated,
            sum_of-update_first spoilt (λ r. r.id == c.id) f db.campaigns c own,
          );
    })

pub assert_cover_in_gallery-in :
    (cover : Option ℕ) (images : List ℕ)
    → assert_cover_in_gallery cover images ≡ ok tt
    → in_gallery cover images ≡ true
unfolding assert_cover_in_gallery
assert_cover_in_gallery-in none images h = refl
assert_cover_in_gallery-in (some cover) [] h = refl
assert_cover_in_gallery-in (some cover) (i ∷ is) h = ground arith

pub first-in : (images : List ℕ) → in_gallery (first_of images) images ≡ true
first-in [] = refl
first-in (i ∷ is) = ground (arith, ==_refl i)

-- A campaign that may change its status is not finished.
allowed-open :
    (from to : CampaignStatus)
    → campaign_in (allowed_from from) to ≡ true
    → campaign_in (CampaignStatus.finished ∷ []) from ≡ false
allowed-open CampaignStatus.draft to h = refl
allowed-open CampaignStatus.active to h = refl
allowed-open CampaignStatus.paused to h = refl
allowed-open CampaignStatus.finished to h = ground arith

patch-gallery :
    (patch : CampaignPatch) (c : Campaign)
    → assert_cover_in_gallery (or_null patch.cover_image) (or_else patch.images c.images) ≡ ok tt
    → in_gallery c.cover_image c.images ≡ true
    → in_gallery (new_cover patch c) (or_else patch.images c.images) ≡ true
patch-gallery patch c h k = elim (Option-cases patch.cover_image) [
  | inr (cover, e) ↦
      let stands =
        assert_cover_in_gallery-in (or_null patch.cover_image) (or_else patch.images c.images) h in
      rw e (rw e at stands)
  | inl e ↦ elim (Option-cases patch.images) [
    | inr (images, m) ↦ rw (e, m) (first-in images)
    | inl m ↦ rw (e, m) k
  ]
]

pub patch-curated :
    (patch : CampaignPatch) (c : Campaign)
    → assert_cover_in_gallery (or_null patch.cover_image) (or_else patch.images c.images) ≡ ok tt
    → is_curated c ≡ true
    → is_curated (patch_campaign patch c) ≡ true
patch-curated patch c h k = ground (arith, patch-gallery patch c h)

pub archived-curated :
    (now : ℕ) (archived : Bool) (c : Campaign)
    → (archived && not (is_finished c)) ≡ false
    → is_curated c ≡ true
    → is_curated (set_archived (if archived then some now else none) c) ≡ true
archived-curated now archived c h k = elim (Bool-cases archived) [
  | inl t ↦ rw t (ground arith)
  | inr t ↦ rw t (ground arith)
]

pub moved-curated :
    (to : CampaignStatus) (c : Campaign)
    → campaign_in (allowed_from c.status) to ≡ true
    → is_curated c ≡ true
    → is_curated (set_campaign_status to c) ≡ true
moved-curated to c h k = ground (arith, allowed-open c.status to h)
