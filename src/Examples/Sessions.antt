-- ===== src/Examples/Sessions.antt =====
-- The theorems on accounts and their sessions, at concrete inputs.
use udv_shop_api.Prelude.{ℕ, ◌+◌, ◌≡◌, refl, true, false, none, some, [], ◌∷◌, arith, ◌==◌}
use udv_shop_api.Errors.{ok, err, unauthorized}
use udv_shop_api.Table.{find_many, count_where, find_first, update_many}
use udv_shop_api.Accounts.{
  Accounts, User, RefreshToken, EmailToken, password_reset, find_refresh_token_by_hash,
  find_refresh_token_by_id, find_email_token_by_hash, update_user, mark_email_token_used,
  revoke_family,
}
use udv_shop_api.Accounts.Tokens.{TokenConfig, rotate, is_reused}
use udv_shop_api.Accounts.Login.{Draws, Externals, reset_password, valid_token}
use udv_shop_api.Accounts.Guests.{GuestContact, normalize_phone}
use udv_shop_api.Accounts.Ops.{refresh, act_as_guest, sign_up, run, step}
use udv_shop_api.Accounts.Ended.{reused, run-refused}
use udv_shop_api.Accounts.Holds.{Holds}
use udv_shop_api.Accounts.Passwords.{run-Holds}
use udv_shop_api.Accounts.Phones.{normalize_phone-normalize_phone}
use udv_shop_api.Permissions.{owner}
use udv_shop_api.Team
use udv_shop_api.Team.{Team, inviting, accepting, removing, as_admin}
use udv_shop_api.Team.Kept.{Keeps}
use udv_shop_api.Team.Owners.{run-Keeps}
use udv_shop_api.Accounts.Resets.{is_open_session, reset_password-once}

abbrev config : TokenConfig
config = record { refresh_ttl_ms = 1000; reuse_grace_ms = 5; hash_token = λ raw. raw + 1 }

-- A password is its own hash, and nobody has an account with Google.
abbrev plain : Externals
plain = record {
  hash_password = λ salt password. password;
  verify_password = λ h password. h == password;
  exchange_code = λ code nonce. err (unauthorized "google_code_invalid");
}

abbrev draws : ℕ → Draws
draws n = record { refresh = n; mail = n; salt = n }

abbrev member : User
member = record {
  id = 1;
  email = some 10;
  password_hash = some 77;
  google_id = none;
  name = 11;
  phone = none;
  email_verified = true;
  platform_admin = false;
}

-- The first token of a session that was rotated once.
abbrev first_token : RefreshToken
first_token = record {
  id = 3;
  user_id = 1;
  family_id = 2;
  token_hash = 501;
  expires_at = 1000;
  revoked_at = none;
  replaced_by_id = some 4;
  created_at = 0;
}

abbrev second_token : RefreshToken
second_token = record {
  id = 4;
  user_id = 1;
  family_id = 2;
  token_hash = 601;
  expires_at = 1100;
  revoked_at = none;
  replaced_by_id = none;
  created_at = 100;
}

abbrev reset_token : EmailToken
reset_token = record {
  id = 5;
  user_id = 1;
  kind = password_reset;
  token_hash = 701;
  expires_at = 9000;
  used_at = none;
}

abbrev accounts : Accounts
accounts = record {
  next_id = 6;
  users = member ∷ [];
  refresh_tokens = first_token ∷ second_token ∷ [];
  email_tokens = reset_token ∷ [];
  store_roles = [];
}

-- The old token is presented long after it was replaced; the new one is refused afterwards.
run-refused_example :
    rotate config 600 900 260 (run config plain ((250, draws 800, refresh 500) ∷ []) accounts) ≡ (
      err (unauthorized "refresh_token_revoked"),
      run config plain ((250, draws 800, refresh 500) ∷ []) accounts,
    )
unfolding find_refresh_token_by_hash find_first is_reused find_refresh_token_by_id run step rotate
    revoke_family update_many
run-refused_example =
    run-refused config plain first_token 500 250 (refresh 500) (draws 800) accounts []
      (record second_token { revoked_at = some 250 }) 600 900 260 refl (omega arith)
      (reused refl refl) refl refl

abbrev guest_contact : GuestContact
guest_contact = record {
  name = 12;
  phone = 49 ∷ 49 ∷ 57 ∷ 56 ∷ 56 ∷ 56 ∷ 56 ∷ 55 ∷ 55 ∷ 55 ∷ 55 ∷ [];
  email = some 10;
}

run-Holds_example : Holds 1 77 (
    run config plain
      ((10, draws 20, sign_up 10 13 88) ∷ (11, draws 21, act_as_guest guest_contact) ∷ [])
      accounts)
run-Holds_example =
    run-Holds config plain 1 77
      ((10, draws 20, sign_up 10 13 88) ∷ (11, draws 21, act_as_guest guest_contact) ∷ []) accounts
      (refl, (refl, tt))
      (record { unique = λ k. ground arith; fresh = λ k h. ground arith; held = omega arith })

normalize_phone-normalize_phone_example :
    (normalize_phone (53 ∷ 53 ∷ guest_contact.phone) ≡ ok (53 ∷ 53 ∷ guest_contact.phone))
    × (normalize_phone guest_contact.phone ≡ ok (53 ∷ 53 ∷ guest_contact.phone))
unfolding normalize_phone find_many
normalize_phone-normalize_phone_example =
    normalize_phone-normalize_phone guest_contact.phone (53 ∷ 53 ∷ guest_contact.phone) refl

reset_password-once_example :
    (count_where
        (is_open_session 1)
        (reset_password config plain 700 99 (draws 30) 50 accounts).1.refresh_tokens
      ≡ 0)
    × ((again later : ℕ) (others : Draws)
        → reset_password config plain 700 again others later
            (reset_password config plain 700 99 (draws 30) 50 accounts).1
          ≡ (
            err (unauthorized "invalid_token"),
            (reset_password config plain 700 99 (draws 30) 50 accounts).1,
          ))
unfolding reset_password find_email_token_by_hash find_first update_user mark_email_token_used
    valid_token
reset_password-once_example =
    reset_password-once config plain 700 99 50 (draws 30) reset_token accounts (λ k. ground arith)
      refl refl

-- A store with its owner, and an administrator who was invited.
abbrev helper : User
helper = record member { id = 8; email = some 40 }

abbrev team : Team
team = record {
  accounts = record accounts {
    users = member ∷ helper ∷ [];
    store_roles = record { user_id = 1; store_id = 9; role = owner } ∷ [];
  };
  invites = [];
}

run-Keeps_example : Keeps team (
    udv_shop_api.Team.run
      (λ raw. raw + 1)
      ((9, 10, inviting 1 40 as_admin 300) ∷ (9, 20, accepting 300 8) ∷ (9, 30, removing 1) ∷ [])
      team)
run-Keeps_example =
    run-Keeps (λ raw. raw + 1)
      ((9, 10, inviting 1 40 as_admin 300) ∷ (9, 20, accepting 300 8) ∷ (9, 30, removing 1) ∷ [])
      team (record { safe = refl })
