-- ===== src/Payouts/Bounds.antt =====
-- Sizes of fees and payouts (payouts.helpers.ts, provider-fee.ts, store-payments.ts).
use udv_shop_api.Prelude.{
  ℕ, ◌-◌, ◌*◌, ◌/◌, ◌≤◌, ◌≡◌, ◌⊎◌, refl, max, pos, ◌-ℤ◌, ◌≤ℤ◌, Option, none, some, is_none, arith,
  false, inl, inr,
}
use native.Mathlib.Nat.{div-le_of_le-mul}
use udv_shop_api.Errors.{ok}
use udv_shop_api.Schema.{PayoutKind, fixed_cents, percent_bps}
use udv_shop_api.Payouts.{
  unit_payout_cents, normalize_payout_fields, filled, percent_too_high, payout_of,
  woovi_retained_fee_cents,
}

percent-≤ : (price value : ℕ) → value ≤ 10000 → price * value / 10000 ≤ price
percent-≤ price value h = div-le_of_le-mul 10000 (grind arith)

-- The three fields are there or not together, and a percentage is at most the whole.
whole :
    (price : ℕ) (s : Option ℕ) (k : Option PayoutKind) (v : Option ℕ)
    → (filled s k v ≡ 0) ⊎ (filled s k v ≡ 3)
    → percent_too_high k v ≡ false
    → (is_none s ≡ is_none k) × (is_none k ≡ is_none v) × (payout_of price k v ≤ price)
whole price none none none (inl h) p = (refl, refl, omega arith)
whole price (some s) (some fixed_cents) (some v) (inr h) p = (refl, refl, omega arith)
whole price (some s) (some percent_bps) (some v) (inr h) p =
    (refl, refl, percent-≤ price v (ground arith))
whole price none none none (inr h) p = ground arith
whole price none none (some v) h p = ground arith
whole price none (some k) none h p = ground arith
whole price none (some k) (some v) h p = ground arith
whole price (some s) none none h p = ground arith
whole price (some s) none (some v) h p = ground arith
whole price (some s) (some k) none h p = ground arith
whole price (some s) (some k) (some v) (inl h) p = ground arith

-- An agreement that `normalizePayoutFields` accepts is kept as it is, is whole or absent, and pays at
-- most the price.
pub normalize_payout_fields-whole :
    (price : ℕ) (s s' : Option ℕ) (k k' : Option PayoutKind) (v v' : Option ℕ)
    → normalize_payout_fields s k v ≡ ok (s', k', v')
    → ((s ≡ s') × (k ≡ k') × (v ≡ v'))
      × (is_none s ≡ is_none k)
      × (is_none k ≡ is_none v)
      × (unit_payout_cents (record { price_cents = price; payout_kind = k; payout_value = v })
          ≤ price)
unfolding normalize_payout_fields unit_payout_cents
normalize_payout_fields-whole price s s' k k' v v' h =
    let (a, b, c) = whole price s k v (ground arith) (ground arith) in
    ((ground arith, ground arith, ground arith), a, b, c)

-- Of a Pix charge of two cents or more, what is retained for the provider's fee is at least one cent, at
-- least one cent less than the charge, and at most the fee, or one cent where there is none.
pub woovi_retained_fee_cents-bounds :
    (amount fee : ℕ)
    → 2 ≤ amount
    → (pos 1 ≤ℤ woovi_retained_fee_cents amount fee)
      × (woovi_retained_fee_cents amount fee ≤ℤ pos (amount - 1))
      × (woovi_retained_fee_cents amount fee ≤ℤ pos (max fee 1))
unfolding woovi_retained_fee_cents ◌-ℤ◌
woovi_retained_fee_cents-bounds amount fee h = ground arith
