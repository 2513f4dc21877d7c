-- ===== src/Accounts/Guests.antt =====
-- src/lib/guest-identity.ts: whose action is it, where nobody may be logged in. The text of a phone is
-- a list of character codes, and its normal form, which the rows keep, the number that it spells.
use udv_shop_api.Prelude.{
  ℕ, ◌+◌, ◌-◌, ◌*◌, Bool, true, false, not, ◌&&◌, ◌||◌, Option, none, some, List, [], ◌∷◌, ◌==◌,
  leb, is_none, length, drop, if◌then◌else◌,
}
use udv_shop_api.Errors.{Result, ok, err, validation, unauthorized}
use udv_shop_api.TaxId.{digits}
use udv_shop_api.Accounts.{
  Accounts, User, find_user_by_email, find_user_by_phone, create_user, guest, update_user,
  fill_phone,
}
use udv_shop_api.Accounts.Login.{is_credentialed}

pub record GuestContact : Type 0 where
  pub name : ℕ
  pub phone : List ℕ
  pub email : Option ℕ

-- The area code and the first digit after it.
unfoldable pub is_brazilian_national : List ℕ → Bool
is_brazilian_national (a ∷ b ∷ c ∷ rest) =
    let ddd = (a - 48) * 10 + (b - 48) in
    leb 11 ddd && leb ddd 99 && (if length rest == 8 then c == 57 else leb 50 c && leb c 53)
is_brazilian_national _ = false

-- The codes start with "55".
abbrev pub has_country : List ℕ → Bool
has_country (a ∷ b ∷ rest) = a == 53 && b == 53
has_country _ = false

abbrev pub national_of : List ℕ → List ℕ
national_of ds = if (length ds == 12 || length ds == 13) && has_country ds then drop 2 ds else ds

abbrev pub with_country : List ℕ → Result (List ℕ)
with_country national =
    if (length national == 10 || length national == 11) && is_brazilian_national national
    then ok (53 ∷ 53 ∷ national)
    else err (validation "invalid_phone")

-- `normalizePhone`
unfoldable pub normalize_phone : List ℕ → Result (List ℕ)
unfolding is_brazilian_national digits
normalize_phone raw = with_country (national_of (digits raw))

unfoldable pub spelt : ℕ → List ℕ → ℕ
spelt n [] = n
spelt n (c ∷ cs) = spelt (10 * n + (c - 48)) cs

abbrev pub or_else_by : Option User → Option User → Option User
or_else_by none by_phone = by_phone
or_else_by (some u) by_phone = some u

abbrev pub find_by_email : Option ℕ → Accounts → Option User
find_by_email none db = none
find_by_email (some e) db = find_user_by_email e db

-- Nobody has the phone, or the account itself.
abbrev pub is_phone_free : User → Option User → Bool
is_phone_free u none = true
is_phone_free u (some v) = v.id == u.id

-- An account that has credentials is not written by the form of a guest.
abbrev pub may_fill : User → Option User → Bool
may_fill u by_phone = not (is_credentialed u) && is_none u.phone && is_phone_free u by_phone

unfoldable pub known_guest : User → Option User → ℕ → Accounts → Result (ℕ × Bool) × Accounts
known_guest u by_phone phone db =
    if may_fill u by_phone
    then (elim (update_user u.id (fill_phone phone) db) [
      | err e ↦ (err e, db)
      | ok db' ↦ (ok (u.id, true), db')
    ])
    else (ok (u.id, true), db)

unfoldable pub guest_actor : GuestContact → ℕ → Accounts → Result (ℕ × Bool) × Accounts
unfolding known_guest
guest_actor contact phone db =
    let by_phone = find_user_by_phone phone db in
    elim (or_else_by (find_by_email contact.email db) by_phone) [
      | some u ↦ known_guest u by_phone phone db
      | none ↦
          let (u, db') = create_user (guest contact.name phone contact.email) db in
          (ok (u.id, true), db')
    ]

-- `resolveActor`: the account, and whether it is a guest's.
unfoldable pub resolve_actor :
    (session_user_id : Option ℕ) → Option GuestContact → Accounts → Result (ℕ × Bool) × Accounts
unfolding guest_actor
resolve_actor (some user_id) contact db = (ok (user_id, false), db)
resolve_actor none none db = (err (unauthorized "login_required"), db)
resolve_actor none (some contact) db = elim (normalize_phone contact.phone) [
  | err e ↦ (err e, db)
  | ok phone ↦ guest_actor contact (spelt 0 phone) db
]
