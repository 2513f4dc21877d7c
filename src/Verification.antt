-- ===== src/Verification.antt =====
-- src/workers/pix-key-verification.ts: the proof that a Pix key is of who declared it.
use udv_shop_api.Prelude.{
  ℕ, Bool, true, false, not, ◌&&◌, Option, none, some, List, [], ◌∷◌, ◌==◌, if◌then◌else◌,
  is_some_of,
}
pub mod Decided
use udv_shop_api.Errors.{Result, ok, err, failure}
use udv_shop_api.Schema.{
  Store, WooviPixKeyStatus, WooviPixKeyVerification, WooviPixKeyVerificationStatus, Db,
}
use udv_shop_api.Table.{update_first}
use udv_shop_api.Table.Keys.{find_key, count_key}
use udv_shop_api.TaxId.{
  TaxIdMatch, same, mismatch, not_a_document, masked_too_much, compare_tax_id, mask_tax_id,
}

-- Who paid the cent.
pub record VerificationPayer : Type 0 where
  pub name : Option (List ℕ)
  pub tax_id : Option (List ℕ)

-- A text that is there and not empty.
abbrev pub text : Option (List ℕ) → Option (List ℕ)
text none = none
text (some []) = none
text (some (c ∷ cs)) = some (c ∷ cs)

abbrev masked : Option (List ℕ) → Option (List ℕ)
masked none = none
masked (some t) = some (mask_tax_id t)

abbrev pub is_verified : WooviPixKeyVerificationStatus → Bool
is_verified WooviPixKeyVerificationStatus.verified = true
is_verified _ = false

abbrev pub is_pending_verification : WooviPixKeyVerification → Bool
is_pending_verification v = elim v.status [
  | WooviPixKeyVerificationStatus.pending ↦ true
  | _ ↦ false
]

abbrev set_key_verified : ℕ → Store → Store
set_key_verified now s = record s {
  woovi_pix_key_status = some WooviPixKeyStatus.verified;
  woovi_pix_key_verified_at = some now;
}

-- The record of a decision.
abbrev pub set_settled :
    VerificationPayer
    → WooviPixKeyVerificationStatus
    → ℕ
    → WooviPixKeyVerification
    → WooviPixKeyVerification
set_settled payer status now v = record v {
  payer_name = payer.name;
  payer_tax_id_masked = masked (text payer.tax_id);
  status = status;
  settled_at = some now;
}

-- `close`
unfoldable pub close :
    WooviPixKeyVerification → VerificationPayer → WooviPixKeyVerificationStatus → ℕ → Db → Db
close v payer status now db = record db {
  verifications = update_first (λ r. r.id == v.id) (set_settled payer status now) db.verifications;
  stores =
      if is_verified status
      then update_first (λ s. s.id == v.store_id) (set_key_verified now) db.stores
      else db.stores;
}

-- What the comparison decides; a doubt decides nothing.
unfoldable pub decide : TaxIdMatch → WooviPixKeyVerification → VerificationPayer → ℕ → Db → Db
decide same v payer now db = close v payer WooviPixKeyVerificationStatus.verified now db
decide mismatch v payer now db = close v payer WooviPixKeyVerificationStatus.rejected now db
decide not_a_document v payer now db = db
decide (masked_too_much n) v payer now db = db

abbrev pub key_of : Option Store → Option ℕ
key_of none = none
key_of (some s) = s.woovi_pix_key

unfoldable pub decide_payer :
    Option (List ℕ) → WooviPixKeyVerification → VerificationPayer → ℕ → Db → Db
decide_payer none v payer now db = db
decide_payer (some tax_id) v payer now db =
    decide (compare_tax_id v.owner_tax_id tax_id) v payer now db

-- A verification that was found: one that is decided stays as it is.
unfoldable pub settle_found : WooviPixKeyVerification → VerificationPayer → ℕ → Db → Db
settle_found v payer now db =
    if is_pending_verification v
    then (if is_some_of v.pix_key (key_of (find_key (λ s. s.id) v.store_id db.stores))
        then decide_payer (text payer.tax_id) v payer now db
        else close v payer WooviPixKeyVerificationStatus.expired now db)
    else db

-- `settleWooviPixKeyVerification`: whether the identifier was of a verification.
unfoldable pub settle_verification : ℕ → VerificationPayer → ℕ → Db → Bool × Db
settle_verification verification_id payer now db =
    elim (find_key (λ v. v.id) verification_id db.verifications) [
      | none ↦ (false, db)
      | some v ↦ (true, settle_found v payer now db)
    ]
