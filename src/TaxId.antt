-- ===== src/TaxId.antt =====
-- src/lib/pix-key-owner.ts: whose Pix key is it. Texts are lists of character codes.
use udv_shop_api.Prelude.{
  ℕ, zero, suc, ◌+◌, ◌-◌, Bool, true, false, not, ◌&&◌, ◌||◌, List, [], ◌∷◌, ◌++◌, leb, ltb, ◌==◌,
  if◌then◌else◌, length, take, drop,
}
pub mod Matching
use udv_shop_api.Table.{find_many}

abbrev pub is_digit : ℕ → Bool
is_digit c = leb 48 c && leb c 57

-- The code of `*`.
abbrev pub star : ℕ
star = 42

unfoldable pub digits : List ℕ → List ℕ
digits value = find_many is_digit value

-- The digits and the stars of a mask.
unfoldable pub pattern_of : List ℕ → List ℕ
pattern_of masked = find_many (λ c. is_digit c || c == star) masked

-- MIN_VISIBLE_DIGITS
abbrev pub min_visible_digits : ℕ
min_visible_digits = 5

-- The two reasons of an inconclusive comparison.
pub data TaxIdMatch : Type 0 where
  same mismatch not_a_document : TaxIdMatch
  masked_too_much : (visible : ℕ) → TaxIdMatch

-- The loop over the positions: a digit that the mask shows is the payer's.
unfoldable pub agrees : List ℕ → List ℕ → Bool
agrees [] payer = true
agrees (k ∷ owner) [] = k == star && agrees owner []
agrees (k ∷ owner) (p ∷ payer) = (k == star || k == p) && agrees owner payer

unfoldable pub visible : List ℕ → ℕ
visible owner = length (find_many (λ c. not (c == star)) owner)

-- `compareTaxId`, once both documents are reduced.
unfoldable pub compare_reduced : List ℕ → List ℕ → TaxIdMatch
unfolding agrees visible
compare_reduced owner payer =
    if not (length payer == 11) && not (length payer == 14)
    then not_a_document
    else (if not (length owner == length payer)
        then mismatch
        else (if ltb (visible owner) min_visible_digits
            then masked_too_much (visible owner)
            else (if agrees owner payer then same else mismatch)))

-- `compareTaxId`
unfoldable pub compare_tax_id : List ℕ → List ℕ → TaxIdMatch
unfolding compare_reduced pattern_of digits
compare_tax_id owner_tax_id payer_tax_id =
    compare_reduced (pattern_of owner_tax_id) (digits payer_tax_id)

-- The kinds of Pix key that `ownerTaxIdOf` tells apart.
pub data PixKeyType : Type 0 where
  cpf cnpj other : PixKeyType

-- `ownerTaxIdOf`: a key that is a document is the document.
unfoldable pub owner_tax_id_of : PixKeyType → List ℕ → List ℕ → List ℕ
unfolding digits
owner_tax_id_of other pix_key tax_id = tax_id
owner_tax_id_of _ pix_key tax_id =
    if length (digits pix_key) == 11 || length (digits pix_key) == 14
    then digits pix_key
    else tax_id

unfoldable pub stars : ℕ → List ℕ
stars zero = []
stars (suc n) = star ∷ stars n

abbrev mask_reduced : List ℕ → List ℕ
mask_reduced value =
    if ltb (length value) 5
    then star ∷ star ∷ star ∷ []
    else take 3 value ++ stars (length value - 5) ++ drop (length value - 2) value

-- `maskTaxId`
unfoldable pub mask_tax_id : List ℕ → List ℕ
unfolding stars digits
mask_tax_id tax_id = mask_reduced (digits tax_id)
