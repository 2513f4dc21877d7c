-- ===== src/Payouts.antt =====
-- src/http/api/payouts/payouts.helpers.ts, src/lib/provider-fee.ts and src/lib/store-payments.ts:
-- what goes to a supplier, what the platform keeps of a Pix charge, and whether a store may charge
-- at all.
pub mod Bounds
use udv_shop_api.Prelude.{
  ℕ, suc, ◌+◌, ◌-◌, ◌*◌, ◌/◌, ◌≤◌, ◌<◌, ◌≡◌, refl, min, max, ℤ, pos, negsuc, ◌-ℤ◌, ◌≤ℤ◌, min_ℤ,
  Bool, true, false, not, ◌&&◌, ◌||◌, Option, none, some, List, [], ◌∷◌, ltb, leb, ◌==◌,
  if◌then◌else◌, is_none, arith, Option-cases, inl, inr, ==_iff,
}
use udv_shop_api.Errors.{Result, ok, err, validation}
use udv_shop_api.Schema.{
  PayoutKind, fixed_cents, percent_bps, OrderStatus, Store, WooviPixKeyStatus, PaymentProvider,
}

-- PAYOUT_ORDER_STATUSES
abbrev pub payout_order_statuses : List OrderStatus
payout_order_statuses =
    OrderStatus.paid ∷ OrderStatus.delivery_arranged ∷ OrderStatus.delivered ∷ []

pub record PayoutAgreement : Type 0 where
  pub price_cents : ℕ
  pub payout_kind : Option PayoutKind
  pub payout_value : Option ℕ

-- The rule of an agreement, when it has both a kind and a value.
abbrev pub payout_by : ℕ → PayoutKind → ℕ → ℕ
payout_by price fixed_cents value = min value price
payout_by price percent_bps value = price * value / 10000

abbrev pub payout_of : ℕ → Option PayoutKind → Option ℕ → ℕ
payout_of price none value = 0
payout_of price (some kind) none = 0
payout_of price (some kind) (some value) = payout_by price kind value

-- `unitPayoutCents`
unfoldable pub unit_payout_cents : PayoutAgreement → ℕ
unit_payout_cents p = payout_of p.price_cents p.payout_kind p.payout_value

-- `itemPayoutCents`
unfoldable pub item_payout_cents : PayoutAgreement → ℕ → ℕ
unfolding unit_payout_cents
item_payout_cents p qty = unit_payout_cents p * qty

-- `assertPayoutFits`: `payout > price - fee`, written as a sum.
unfoldable pub assert_payout_fits : PayoutAgreement → ℕ → Result {0} Unit
unfolding unit_payout_cents
assert_payout_fits p application_fee_bps =
    if unit_payout_cents p == 0
    then ok tt
    else (if ltb p.price_cents (unit_payout_cents p + p.price_cents * application_fee_bps / 10000)
        then err (validation "payout_exceeds_price")
        else ok tt)

abbrev pub filled : Option ℕ → Option PayoutKind → Option ℕ → ℕ
filled supplier kind value =
    (if is_none supplier then 0 else 1)
    + (if is_none kind then 0 else 1)
    + (if is_none value then 0 else 1)

abbrev pub percent_too_high : Option PayoutKind → Option ℕ → Bool
percent_too_high (some percent_bps) (some value) = ltb 10000 value
percent_too_high _ _ = false

-- `normalizePayoutFields`: the three fields or none of them.
unfoldable pub normalize_payout_fields :
    Option ℕ → Option PayoutKind → Option ℕ → Result (Option ℕ × Option PayoutKind × Option ℕ)
normalize_payout_fields supplier kind value =
    if not (filled supplier kind value == 0) && not (filled supplier kind value == 3)
    then err (validation "payout_incomplete")
    else (if percent_too_high kind value
        then err (validation "payout_percent_out_of_range")
        else ok (supplier, kind, value))

-- `wooviRetainedFeeCents`
unfoldable pub woovi_retained_fee_cents : ℕ → ℕ → ℤ
woovi_retained_fee_cents amount_cents fee_cents =
    min_ℤ (pos (max fee_cents 1)) (pos amount_cents -ℤ pos 1)

abbrev may_receive : Option WooviPixKeyStatus → Bool
may_receive none = false
may_receive (some WooviPixKeyStatus.pending) = false
may_receive (some WooviPixKeyStatus.legacy) = true
may_receive (some WooviPixKeyStatus.verified) = true

-- A key that is there and is not the empty text.
abbrev pub is_given : Option ℕ → Bool
is_given none = false
is_given (some k) = not (k == 0)

-- `wooviCanReceive`
unfoldable pub woovi_can_receive : Store → Bool
woovi_can_receive s = is_given s.woovi_pix_key && may_receive s.woovi_pix_key_status

abbrev configured : Store → PaymentProvider → Bool
configured s PaymentProvider.stripe = is_given s.stripe_account_id && s.stripe_transfers_enabled
configured s PaymentProvider.woovi = woovi_can_receive s

-- `assertProviderConfigured`
unfoldable pub assert_provider_configured : Store → PaymentProvider → Result {0} Unit
unfolding woovi_can_receive
assert_provider_configured s provider =
    if configured s provider then ok tt else err (validation "payments_not_configured")
