-- ===== src/Verification/Decided.antt =====
-- The closing of a Pix key verification (src/workers/pix-key-verification.ts).
use udv_shop_api.Prelude.{
  ℕ, ◌≡◌, refl, true, false, Option, none, some, List, ◌⊎◌, inl, inr, Bool-cases, Option-cases,
  is_some_of,
}
use udv_shop_api.Schema.{WooviPixKeyVerification, WooviPixKeyVerificationStatus, Db}
use udv_shop_api.Table.Keys.{find_key}
use udv_shop_api.TaxId.{TaxIdMatch, same, mismatch, not_a_document, masked_too_much, compare_tax_id}
use udv_shop_api.Verification.{
  VerificationPayer, settle_verification, settle_found, decide_payer, decide, close, key_of, text,
  is_pending_verification, is_verified,
}

-- What a decision needs to write on a store.
abbrev pub Proved : WooviPixKeyVerification → VerificationPayer → Db → Type 0
Proved v payer db =
    (is_pending_verification v ≡ true)
    × (is_some_of v.pix_key (key_of (find_key (λ s. s.id) v.store_id db.stores)) ≡ true)
    × ((t : List ℕ) × (text payer.tax_id ≡ some t) × (compare_tax_id v.owner_tax_id t ≡ same))

close-stores :
    (v : WooviPixKeyVerification) (payer : VerificationPayer)
    (status : WooviPixKeyVerificationStatus) (now : ℕ) (db : Db)
    → is_verified status ≡ false
    → (close v payer status now db).stores ≡ db.stores
unfolding close
close-stores v payer status now db h = rw h refl

-- A verdict other than "same" writes no store.
decide-stores :
    (m : TaxIdMatch) (v : WooviPixKeyVerification) (payer : VerificationPayer) (now : ℕ) (db : Db)
    → ((decide m v payer now db).stores ≡ db.stores) ⊎ (m ≡ same)
unfolding decide
decide-stores same v payer now db = inr refl
decide-stores mismatch v payer now db =
    inl (close-stores v payer WooviPixKeyVerificationStatus.rejected now db refl)
decide-stores not_a_document v payer now db = inl refl
decide-stores (masked_too_much n) v payer now db = inl refl

abbrev ProvedBy : Option (List ℕ) → WooviPixKeyVerification → Type 0
ProvedBy tax_id v = (t : List ℕ) × (tax_id ≡ some t) × (compare_tax_id v.owner_tax_id t ≡ same)

decide_payer-stores :
    (tax_id : Option (List ℕ)) (v : WooviPixKeyVerification) (payer : VerificationPayer) (now : ℕ)
    (db : Db)
    → ((decide_payer tax_id v payer now db).stores ≡ db.stores) ⊎ ProvedBy tax_id v
unfolding decide_payer
decide_payer-stores none v payer now db = inl refl
decide_payer-stores (some t) v payer now db =
    elim (decide-stores (compare_tax_id v.owner_tax_id t) v payer now db) [
      | inl e ↦ inl e
      | inr e ↦ inr (t, refl, e)
    ]

settle_found-Proved :
    (v : WooviPixKeyVerification) (payer : VerificationPayer) (now : ℕ) (db : Db)
    → ((settle_found v payer now db).stores ≡ db.stores) ⊎ Proved v payer db
unfolding settle_found
settle_found-Proved v payer now db = elim (Bool-cases (is_pending_verification v)) [
  | inr e ↦ inl (rw e refl)
  | inl e ↦
      elim (Bool-cases
        (is_some_of v.pix_key (key_of (find_key (λ s. s.id) v.store_id db.stores)))) [
          | inr k ↦
              inl
                (rw (e, k) (close-stores v payer WooviPixKeyVerificationStatus.expired now db refl))
          | inl k ↦ elim (decide_payer-stores (text payer.tax_id) v payer now db) [
            | inl same_stores ↦ inl (rw (e, k) same_stores)
            | inr proved ↦ inr (e, k, proved)
          ]
        ]
]

-- A payment of the proof writes no store, unless all of this holds: the verification is pending, its
-- key is still the store's, and the document of who paid matches the one of the key's owner.
pub settle_verification-Proved :
    (id : ℕ) (payer : VerificationPayer) (now : ℕ) (db : Db)
    → ((settle_verification id payer now db).1.stores ≡ db.stores)
      ⊎ ((v : WooviPixKeyVerification) × (find_key (λ r. r.id) id db.verifications ≡ some v)
          × Proved v payer db)
unfolding settle_verification
settle_verification-Proved id payer now db =
    elim (Option-cases (find_key (λ (v : WooviPixKeyVerification). v.id) id db.verifications)) [
      | inl z ↦ inl (rw (settle_verification, z) refl)
      | inr (v, z) ↦ elim (settle_found-Proved v payer now db) [
        | inl e ↦ inl (rw (settle_verification, z) e)
        | inr p ↦ inr (v, z, p)
      ]
    ]
