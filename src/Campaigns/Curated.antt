-- ===== src/Campaigns/Curated.antt =====
-- The campaigns over a history of requests (src/http/api/campaigns).
use mathlib.Core.Path.{subst}
use udv_shop_api.Prelude.{
  ℕ, ◌≡◌, refl, Bool, true, not, ◌&&◌, none, some, List, [], ◌∷◌, inl, inr, arith, if◌then◌else◌,
  Bool-cases, Option-cases, or_else, ltb,
}
use udv_shop_api.Errors.{Result, ok, err, Result-cases, ◌>>=◌}
use udv_shop_api.Schema.{Campaign, CampaignStatus, campaign_in, Db}
use udv_shop_api.Table.Selected.{sum_of-found}
use udv_shop_api.Campaigns.{
  NewCampaign, insert_campaign, patch_campaign, find_campaign, create_campaign, update_campaign,
  update_campaign_status, archive_campaign, delete_campaign, count_donations, delete_draft,
  archive_row, change_status, set_archived, set_campaign_status, assert_cover_in_gallery,
  or_no_campaign, has_repeats, positions_of, or_null, allowed_from,
}
use udv_shop_api.Campaigns.Ops.{
  CampaignOp, create, update, change, archive, delete, perform, step, run,
}
use udv_shop_api.Campaigns.Gallery.{
  is_named, is_finished, is_curated, spoilt, IsCurated, write_campaign-IsCurated, patch-curated,
  archived-curated, moved-curated,
}
use udv_shop_api.Campaigns.Rows.{delete_campaign_row-IsCurated, insert_campaign-IsCurated}

-- A campaign that a request names.
named :
    (store_id slug : ℕ) (db db' : Db) (next : Campaign → Result Db)
    → (or_no_campaign (find_campaign store_id slug db) >>= next) ≡ ok db'
    → (c : Campaign) × (find_campaign store_id slug db ≡ some c) × (next c ≡ ok db')
named store_id slug db db' next h = elim (Option-cases (find_campaign store_id slug db)) [
  | inl e ↦ absurd (cc (rw e at h))
  | inr (c, e) ↦ (c, e, rw e at h)
]

-- The campaign that is found is in order.
found-curated :
    (store_id slug : ℕ) (db : Db) (c : Campaign)
    → find_campaign store_id slug db ≡ some c
    → IsCurated db
    → is_curated c ≡ true
unfolding find_campaign
found-curated store_id slug db c e a =
    ground (arith, sum_of-found spoilt (is_named store_id slug) db.campaigns c e a.curated)

-- A check that let a request go on has passed.
checked :
    (r : Result (Unit {0})) (db' : Db) (next : Result Db)
    → (r >>= λ u. next) ≡ ok db'
    → (r ≡ ok tt) × (next ≡ ok db')
checked (ok u) db' next h = (refl, h)
checked (err e) db' next h = ground arith

create_campaign-IsCurated :
    (now store_id : ℕ) (input : NewCampaign) (db db' : Db)
    → create_campaign now store_id input db ≡ ok db'
    → IsCurated db
    → IsCurated db'
unfolding create_campaign
create_campaign-IsCurated now store_id input db db' h a =
    elim (Bool-cases (has_repeats (positions_of input.raffle))) [
      | inl t ↦ ground arith
      | inr t ↦
          let (shown, h1) =
            checked (assert_cover_in_gallery input.cover_image input.images) db' _ (rw t at h) in
          elim (Option-cases (find_campaign store_id input.slug db)) [
            | inr (c, e) ↦ ground arith
            | inl e ↦
                let same : (insert_campaign now store_id input db).1 ≡ db' = ground arith in
                subst IsCurated same (insert_campaign-IsCurated now store_id input db e shown a)
          ]
    ]

change_status-IsCurated :
    (store_id slug : ℕ) (to : CampaignStatus) (c : Campaign) (db db' : Db)
    → find_campaign store_id slug db ≡ some c
    → change_status to db c ≡ ok db'
    → IsCurated db
    → IsCurated db'
unfolding change_status
change_status-IsCurated store_id slug to c db db' found h a =
    elim (Bool-cases (campaign_in (to ∷ []) c.status)) [
      | inl t ↦ let same : db ≡ db' = ground arith in subst IsCurated same a
      | inr t ↦ elim (Bool-cases (campaign_in (allowed_from c.status) to)) [
        | inr y ↦ ground arith
        | inl y ↦
            write_campaign-IsCurated c (set_campaign_status to) store_id slug db db' found
              (λ r. refl) (λ r. refl) (λ r. refl) (moved-curated to c y) (ground arith) a
      ]
    ]

archive_row-IsCurated :
    (now store_id slug : ℕ) (archived : Bool) (c : Campaign) (db db' : Db)
    → find_campaign store_id slug db ≡ some c
    → archive_row now archived db c ≡ ok db'
    → IsCurated db
    → IsCurated db'
unfolding archive_row
archive_row-IsCurated now store_id slug archived c db db' found h a =
    elim (Bool-cases (archived && not (is_finished c))) [
      | inl t ↦ ground arith
      | inr t ↦
          write_campaign-IsCurated c (set_archived (if archived then some now else none)) store_id
            slug db db' found (λ r. refl) (λ r. refl) (λ r. refl)
            (archived-curated now archived c t) (ground arith) a
    ]

delete_draft-IsCurated :
    (c : Campaign) (db db' : Db) → delete_draft db c ≡ ok db' → IsCurated db → IsCurated db'
unfolding delete_draft
delete_draft-IsCurated c db db' h a =
    elim (Bool-cases (not (campaign_in (CampaignStatus.draft ∷ []) c.status))) [
      | inl t ↦ ground arith
      | inr t ↦ elim (Bool-cases (ltb 0 (count_donations c.id db))) [
        | inl y ↦ ground arith
        | inr y ↦ delete_campaign_row-IsCurated c.id db db' (ground arith) a
      ]
    ]

perform-IsCurated :
    (now store_id : ℕ) (op : CampaignOp) (db db' : Db)
    → perform now store_id op db ≡ ok db'
    → IsCurated db
    → IsCurated db'
unfolding perform update_campaign update_campaign_status archive_campaign delete_campaign
perform-IsCurated now store_id (create input) db db' h a =
    create_campaign-IsCurated now store_id input db db' h a
perform-IsCurated now store_id (update slug patch) db db' h a =
    let (c, found, h1) = named store_id slug db db' _ h in
    let (shown, h2) =
      checked (assert_cover_in_gallery (or_null patch.cover_image) (or_else patch.images c.images))
        db' _ h1 in
    write_campaign-IsCurated c (patch_campaign patch) store_id slug db db' found (λ r. refl)
      (λ r. refl) (λ r. refl) (patch-curated patch c shown) h2 a
perform-IsCurated now store_id (change slug to) db db' h a =
    let (c, found, h1) = named store_id slug db db' (change_status to db) h in
    change_status-IsCurated store_id slug to c db db' found h1 a
perform-IsCurated now store_id (archive slug archived) db db' h a =
    let (c, found, h1) = named store_id slug db db' (archive_row now archived db) h in
    archive_row-IsCurated now store_id slug archived c db db' found h1 a
perform-IsCurated now store_id (delete slug) db db' h a =
    let (c, found, h1) = named store_id slug db db' (delete_draft db) h in
    delete_draft-IsCurated c db db' h1 a

step-IsCurated :
    (now store_id : ℕ) (op : CampaignOp) (db : Db)
    → IsCurated db
    → IsCurated (step (now, store_id, op) db)
unfolding step
step-IsCurated now store_id op db a = elim (Result-cases (perform now store_id op db)) [
  | inr (e, h) ↦ rw (step, h) a
  | inl (db', h) ↦ rw (step, h) (perform-IsCurated now store_id op db db' h a)
]

-- Whatever campaigns are asked to become, by whom, when and in any order: a cover is one of the
-- images of its campaign where there are any, only a finished campaign is archived, and a store has
-- at most one campaign under a slug; when that, unique identifiers and a fresh next one hold before.
pub run-IsCurated :
    (requests : List (ℕ × ℕ × CampaignOp)) (db : Db) → IsCurated db → IsCurated (run requests db)
unfolding run
run-IsCurated [] db a = a
run-IsCurated ((now, store_id, op) ∷ requests) db a =
    run-IsCurated requests (step (now, store_id, op) db) (step-IsCurated now store_id op db a)
