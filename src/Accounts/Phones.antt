-- ===== src/Accounts/Phones.antt =====
-- The normal form of a phone (src/lib/guest-identity.ts).
use udv_shop_api.Prelude.{
  ℕ, ◌≡◌, refl, ◌∙◌, ap, true, ◌&&◌, ◌||◌, List, [], ◌∷◌, ◌==◌, inl, inr, arith, length, drop,
  Bool-cases, all,
}
use udv_shop_api.Errors.{ok}
use udv_shop_api.Table.{find_many}
use udv_shop_api.TaxId.{digits, is_digit}
use udv_shop_api.Accounts.Guests.{
  normalize_phone, with_country, national_of, has_country, is_brazilian_national,
}

all-digits : (cs : List ℕ) → all is_digit (digits cs) ≡ true
unfolding digits find_many
all-digits [] = refl
all-digits (c ∷ cs) = ground (arith, all-digits cs)

digits-all : (cs : List ℕ) → all is_digit cs ≡ true → digits cs ≡ cs
unfolding digits find_many
digits-all [] h = refl
digits-all (c ∷ cs) h = ground (arith, digits-all cs)

all-drop : (cs : List ℕ) → all is_digit cs ≡ true → all is_digit (drop 2 cs) ≡ true
all-drop [] h = refl
all-drop (a ∷ []) h = refl
all-drop (a ∷ b ∷ cs) h = ground arith

all-national_of : (cs : List ℕ) → all is_digit cs ≡ true → all is_digit (national_of cs) ≡ true
all-national_of cs h = elim (Bool-cases ((length cs == 12 || length cs == 13) && has_country cs)) [
  | inl t ↦ rw t (all-drop cs h)
  | inr t ↦ rw t h
]

-- A number that is accepted is a national one, and gets its country.
record IsNational (ns p : List ℕ) : Type 0 where
  sized : (length ns == 10 || length ns == 11) ≡ true
  shaped : is_brazilian_national ns ≡ true
  whole : p ≡ 53 ∷ 53 ∷ ns

with_country-IsNational : (ns p : List ℕ) → with_country ns ≡ ok p → IsNational ns p
with_country-IsNational ns p h =
    elim (Bool-cases ((length ns == 10 || length ns == 11) && is_brazilian_national ns)) [
      | inr t ↦ ground arith
      | inl t ↦ record { sized = ground arith; shaped = ground arith; whole = ground arith }
    ]

national_of-same : (ns : List ℕ) → (length ns == 10 || length ns == 11) ≡ true → national_of ns ≡ ns
national_of-same ns h = ground arith

national_of-country :
    (ns : List ℕ) → (length ns == 10 || length ns == 11) ≡ true → national_of (53 ∷ 53 ∷ ns) ≡ ns
national_of-country ns h = ground arith

digits-country : (ns : List ℕ) → digits ns ≡ ns → digits (53 ∷ 53 ∷ ns) ≡ 53 ∷ 53 ∷ ns
unfolding digits find_many
digits-country ns h = ground (arith, h)

-- A phone that is accepted is in its normal form: it stays as it is when it is given again, and so
-- does what is left of it without the country. Both are the same identity.
pub normalize_phone-normalize_phone :
    (raw p : List ℕ)
    → normalize_phone raw ≡ ok p
    → (normalize_phone p ≡ ok p) × (normalize_phone (drop 2 p) ≡ ok p)
unfolding normalize_phone
normalize_phone-normalize_phone raw p h =
    let ns = national_of (digits raw) in
    let n : IsNational ns p = with_country-IsNational ns p h in
    let own : digits ns ≡ ns = digits-all ns (all-national_of (digits raw) (all-digits raw)) in
    rw n.whole (
      rw (normalize_phone, digits-country ns own, national_of-country ns n.sized)
          (h ∙ ap ok n.whole),
      rw (normalize_phone, own, national_of-same ns n.sized) (h ∙ ap ok n.whole),
    )
