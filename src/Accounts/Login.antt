-- ===== src/Accounts/Login.antt =====
-- src/http/api/auth: the services that register, log in, reset a password and verify an address. A
-- message that is not sent is only logged. The texts that are drawn at random are `Draws`.
use udv_shop_api.Prelude.{
  ℕ, ◌+◌, ◌*◌, Bool, true, false, not, ◌&&◌, ◌||◌, Option, none, some, ◌==◌, ltb, is_none,
  if◌then◌else◌,
}
use udv_shop_api.Errors.{Result, ok, err, unauthorized, conflict, ◌>>=◌}
use udv_shop_api.Accounts.{
  Accounts, User, EmailToken, EmailTokenType, verify_email, password_reset, find_user_by_email,
  find_user_by_google_id, create_user, registered, update_user, adopt_guest_user, link_google_id,
  set_password, mark_email_verified, insert_email_token, find_email_token_by_hash,
  mark_email_token_used, revoke_all_for_user,
}
use udv_shop_api.Accounts.Tokens.{Outcome, Issued, TokenConfig, issue}

pub record Draws : Type 0 where
  pub refresh : ℕ
  pub mail : ℕ
  pub salt : ℕ

-- What Google says of a caller, the address in lower case.
pub record Profile : Type 0 where
  pub sub : ℕ
  pub email : ℕ
  pub email_verified : Bool
  pub name : ℕ

-- The hashes of passwords, and the exchange of a code with Google.
pub record Externals : Type 0 where
  pub hash_password : (salt password : ℕ) → ℕ
  pub verify_password : (password_hash password : ℕ) → Bool
  pub exchange_code : (code nonce : ℕ) → Result Profile

abbrev pub is_credentialed : User → Bool
is_credentialed u = not (is_none u.password_hash) || not (is_none u.google_id)

-- A write, and what comes after it unless it throws.
abbrev pub after {ℓ} :
    {A : Type ℓ}
    → Accounts
    → Result A
    → (A → Result (Unit {0}) × Accounts)
    → Result (Unit {0}) × Accounts
after db (err e) next = (err e, db)
after db (ok a) next = next a

module _ (config : TokenConfig) (x : Externals) where
  unfoldable pub login_as : User → ℕ → ℕ → ℕ → ℕ → Accounts → Outcome Issued
  unfolding issue
  login_as u password_hash password raw now db =
      if x.verify_password password_hash password
      then issue config u.id raw now db
      else (err (unauthorized "invalid_credentials"), db)

  -- `createLoginService`
  unfoldable pub login : (email password : ℕ) → Draws → ℕ → Accounts → Outcome Issued
  unfolding login_as
  login email password draws now db = elim (find_user_by_email email db) [
    | none ↦ (err (unauthorized "invalid_credentials"), db)
    | some u ↦ elim u.password_hash [
      | none ↦ (err (unauthorized "invalid_credentials"), db)
      | some h ↦ login_as u h password draws.refresh now db
    ]
  ]

  -- A new account, or the one of a guest who comes to set a password.
  unfoldable pub adopt_or_create :
      Option User → (email name password : ℕ) → Accounts → Result (User × Accounts)
  adopt_or_create none email name password db =
      ok (create_user (registered email name (some password) none false) db)
  adopt_or_create (some u) email name password db =
      update_user u.id (adopt_guest_user name password) db >>= λ db'.
      ok (adopt_guest_user name password u, db')

  -- The message with its token, and the session.
  unfoldable pub welcome : User → Draws → ℕ → Accounts → Outcome Issued
  unfolding issue
  welcome u draws now db =
      elim (insert_email_token u.id verify_email (config.hash_token draws.mail)
        (now + 24 * 60 * 60 * 1000) db) [
          | err e ↦ (err e, db)
          | ok db' ↦ issue config u.id draws.refresh now db'
        ]

  unfoldable pub enrol :
      Option User → (email name password : ℕ) → Draws → ℕ → Accounts → Outcome Issued
  unfolding adopt_or_create welcome
  enrol existing email name password draws now db =
      elim (adopt_or_create existing email name (x.hash_password draws.salt password) db) [
        | err e ↦ (err e, db)
        | ok (u, db') ↦ welcome u draws now db'
      ]

  -- `createRegisterService`
  unfoldable pub register : (email name password : ℕ) → Draws → ℕ → Accounts → Outcome Issued
  unfolding enrol
  register email name password draws now db = elim (find_user_by_email email db) [
    | none ↦ enrol none email name password draws now db
    | some u ↦
        if is_credentialed u
        then (err (conflict "email_in_use"), db)
        else enrol (some u) email name password draws now db
  ]

  -- `createForgotPasswordService`
  unfoldable pub forgot_password : (email : ℕ) → Draws → ℕ → Accounts → Result Accounts
  forgot_password email draws now db = elim (find_user_by_email email db) [
    | none ↦ ok db
    | some u ↦
        insert_email_token u.id password_reset (config.hash_token draws.mail) (now + 60 * 60 * 1000)
          db
  ]

  abbrev pub same_kind : EmailTokenType → EmailTokenType → Bool
  same_kind verify_email verify_email = true
  same_kind password_reset password_reset = true
  same_kind _ _ = false

  -- The token of a message, if it is of that kind, not used and not too old.
  abbrev pub is_valid : EmailTokenType → ℕ → EmailToken → Bool
  is_valid kind now t = same_kind t.kind kind && is_none t.used_at && not (ltb t.expires_at now)

  unfoldable pub valid_token : EmailTokenType → (token now : ℕ) → Accounts → Result EmailToken
  valid_token kind token now db = elim (find_email_token_by_hash (config.hash_token token) db) [
    | none ↦ err (unauthorized "invalid_token")
    | some t ↦ if is_valid kind now t then ok t else err (unauthorized "invalid_token")
  ]

  -- `createResetPasswordService`
  unfoldable pub reset_password : (token password : ℕ) → Draws → ℕ → Accounts → Outcome (Unit {0})
  unfolding valid_token
  reset_password token password draws now db =
      after db (valid_token password_reset token now db) λ t.
        after db (update_user t.user_id (set_password (x.hash_password draws.salt password)) db)
          λ db1.
            after db1 (mark_email_token_used t.id now db1)
              λ db2. (ok tt, revoke_all_for_user t.user_id now db2)

  -- `createVerifyEmailService`
  unfoldable pub confirm_email : (token now : ℕ) → Accounts → Outcome (Unit {0})
  unfolding valid_token
  confirm_email token now db = after db (valid_token verify_email token now db) λ t.
      after db (update_user t.user_id mark_email_verified db)
        λ db1. after db1 (mark_email_token_used t.id now db1) λ db2. (ok tt, db2)

  -- The account of a profile that is not linked yet.
  unfoldable pub link_or_create : Profile → Accounts → Result (ℕ × Accounts)
  link_or_create profile db = elim (find_user_by_email profile.email db) [
    | some u ↦ update_user u.id (link_google_id profile.sub) db >>= λ db'. ok (u.id, db')
    | none ↦
        let (u, db') =
          create_user
            (registered profile.email profile.name none (some profile.sub) profile.email_verified)
            db in
        ok (u.id, db')
  ]

  unfoldable pub account_of : Profile → Accounts → Result (ℕ × Accounts)
  unfolding link_or_create
  account_of profile db = elim (find_user_by_google_id profile.sub db) [
    | some u ↦ ok (u.id, db)
    | none ↦
        if profile.email_verified
        then link_or_create profile db
        else err (unauthorized "google_email_not_verified")
  ]

  unfoldable pub admit : Profile → Draws → ℕ → Accounts → Outcome Issued
  unfolding account_of
  admit profile draws now db =
      if profile.email == 0
      then (err (unauthorized "google_email_missing"), db)
      else (elim (account_of profile db) [
        | err e ↦ (err e, db)
        | ok (id, db') ↦ issue config id draws.refresh now db'
      ])

  -- `createGoogleAuthService`
  unfoldable pub google_auth : (code nonce : ℕ) → Draws → ℕ → Accounts → Outcome Issued
  unfolding admit
  google_auth code nonce draws now db = elim (x.exchange_code code nonce) [
    | err e ↦ (err e, db)
    | ok profile ↦ admit profile draws now db
  ]
