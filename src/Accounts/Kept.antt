-- ===== src/Accounts/Kept.antt =====
-- A family of tokens that is dead stays dead under the services of src/http/api/auth.
use udv_shop_api.Prelude.{
  ℕ, ◌+◌, ◌*◌, ◌≡◌, refl, inl, inr, Option, none, some, ◌==◌, arith, Bool-cases, Option-cases,
}
use udv_shop_api.Errors.{Result, ok, err, Result-cases}
use udv_shop_api.Accounts.{
  Accounts, User, verify_email, password_reset, find_user_by_email, insert_email_token, update_user,
  set_password, mark_email_verified, mark_email_token_used,
}
use udv_shop_api.Accounts.Tokens.{TokenConfig}
use udv_shop_api.Accounts.Login.{
  Draws, Externals, login, login_as, welcome, enrol, register, is_credentialed, forgot_password,
  reset_password, confirm_email, valid_token, after, admit, account_of, google_auth,
  adopt_or_create,
}
use udv_shop_api.Accounts.Ops.{or_same}
use udv_shop_api.Accounts.Dead.{IsDead, IsDead-same, revoke_all_for_user-IsDead}
use udv_shop_api.Accounts.Families.{issue-IsDead}
use udv_shop_api.Accounts.Same.{
  Same, update_user-Same, insert_email_token-Same, mark_email_token_used-Same, adopt_or_create-Same,
  account_of-Same,
}

pub IsDead-Same : (k : ℕ) (db db' : Accounts) → Same db db' → IsDead k db → IsDead k db'
IsDead-Same k db db' s d = IsDead-same k db db' s.tokens s.later d

-- What comes after a write keeps a family dead where the write does.
after-IsDead :
    {A : Type 0} (k : ℕ) (db : Accounts) (r : Result A) (next : A → Result (Unit {0}) × Accounts)
    → ((a : A) → r ≡ ok a → IsDead k (next a).1)
    → IsDead k db
    → IsDead k (after db r next).1
after-IsDead k db (err e) next h d = d
after-IsDead k db (ok a) next h d = h a refl

module _ (config : TokenConfig) (x : Externals) where
  pub login-IsDead :
      (k email password : ℕ) (draws : Draws) (now : ℕ) (db : Accounts)
      → IsDead k db
      → IsDead k (login config x email password draws now db).1
  unfolding login login_as
  login-IsDead k email password draws now db d = elim (Option-cases (find_user_by_email email db)) [
    | inl e ↦ rw (login, e) d
    | inr (u, e) ↦ elim (Option-cases u.password_hash) [
      | inl p ↦ rw (login, e, p) d
      | inr (h, p) ↦ elim (Bool-cases (x.verify_password h password)) [
        | inl v ↦ rw (login, e, p, v) (issue-IsDead config k u.id draws.refresh now db d)
        | inr v ↦ rw (login, e, p, v) d
      ]
    ]
  ]

  welcome-IsDead :
      (k : ℕ) (u : User) (draws : Draws) (now : ℕ) (db : Accounts)
      → IsDead k db
      → IsDead k (welcome config x u draws now db).1
  unfolding welcome
  welcome-IsDead k u draws now db d =
      elim (Result-cases (
        insert_email_token u.id verify_email (config.hash_token draws.mail)
          (now + 24 * 60 * 60 * 1000) db)) [
            | inr (e, h) ↦ rw (welcome, h) d
            | inl (db', h) ↦
                rw (welcome, h)
                  (issue-IsDead config k u.id draws.refresh now db' (
                    IsDead-Same k db db' (insert_email_token-Same u.id verify_email _ _ db db' h)
                      d))
          ]

  enrol-IsDead :
      (k : ℕ) (existing : Option User) (email name password : ℕ) (draws : Draws) (now : ℕ)
      (db : Accounts)
      → IsDead k db
      → IsDead k (enrol config x existing email name password draws now db).1
  unfolding enrol
  enrol-IsDead k existing email name password draws now db d =
      elim (Result-cases
        (adopt_or_create config x existing email name (x.hash_password draws.salt password) db)) [
          | inr (e, h) ↦ rw (enrol, h) d
          | inl ((u, db'), h) ↦
              rw (enrol, h)
                (welcome-IsDead k u draws now db' (
                  IsDead-Same k db db'
                    (adopt_or_create-Same config x existing email name
                      (x.hash_password draws.salt password) db db' u h)
                    d))
        ]

  pub register-IsDead :
      (k email name password : ℕ) (draws : Draws) (now : ℕ) (db : Accounts)
      → IsDead k db
      → IsDead k (register config x email name password draws now db).1
  unfolding register
  register-IsDead k email name password draws now db d =
      elim (Option-cases (find_user_by_email email db)) [
        | inl e ↦ rw (register, e) (enrol-IsDead k none email name password draws now db d)
        | inr (u, e) ↦ elim (Bool-cases (is_credentialed u)) [
          | inl c ↦ rw (register, e, c) d
          | inr c ↦ rw (register, e, c) (enrol-IsDead k (some u) email name password draws now db d)
        ]
      ]

  pub forgot_password-IsDead :
      (k email : ℕ) (draws : Draws) (now : ℕ) (db : Accounts)
      → IsDead k db
      → IsDead k (or_same db (forgot_password config x email draws now db))
  unfolding forgot_password
  forgot_password-IsDead k email draws now db d =
      elim (Result-cases (forgot_password config x email draws now db)) [
        | inr (e, h) ↦ rw h d
        | inl (db', h) ↦ rw h (elim (Option-cases (find_user_by_email email db)) [
          | inl e ↦ IsDead-Same k db db' (record { tokens = ground arith; later = ground arith }) d
          | inr (u, e) ↦
              IsDead-Same k db db'
                (insert_email_token-Same u.id password_reset (config.hash_token draws.mail)
                  (now + 60 * 60 * 1000) db db' (ground arith))
                d
        ])
      ]

  pub reset_password-IsDead :
      (k token password : ℕ) (draws : Draws) (now : ℕ) (db : Accounts)
      → IsDead k db
      → IsDead k (reset_password config x token password draws now db).1
  unfolding reset_password
  reset_password-IsDead k token password draws now db d =
      after-IsDead k db (valid_token config x password_reset token now db) _
        (λ t h.
          after-IsDead k db
            (update_user t.user_id (set_password (x.hash_password draws.salt password)) db) _
            (λ db1 h1.
              let d1 = IsDead-Same k db db1 (update_user-Same t.user_id _ db db1 h1) d in
              after-IsDead k db1 (mark_email_token_used t.id now db1) _
                (λ db2 h2.
                  revoke_all_for_user-IsDead k t.user_id now db2
                    (IsDead-Same k db1 db2 (mark_email_token_used-Same t.id now db1 db2 h2) d1))
                d1)
            d)
        d

  pub confirm_email-IsDead :
      (k token now : ℕ) (db : Accounts)
      → IsDead k db
      → IsDead k (confirm_email config x token now db).1
  unfolding confirm_email
  confirm_email-IsDead k token now db d =
      after-IsDead k db (valid_token config x verify_email token now db) _
        (λ t h.
          after-IsDead k db (update_user t.user_id mark_email_verified db) _
            (λ db1 h1.
              let d1 = IsDead-Same k db db1 (update_user-Same t.user_id _ db db1 h1) d in
              after-IsDead k db1 (mark_email_token_used t.id now db1) _
                (λ db2 h2.
                  IsDead-Same k db1 db2 (mark_email_token_used-Same t.id now db1 db2 h2) d1)
                d1)
            d)
        d

  pub google_auth-IsDead :
      (k code nonce : ℕ) (draws : Draws) (now : ℕ) (db : Accounts)
      → IsDead k db
      → IsDead k (google_auth config x code nonce draws now db).1
  unfolding google_auth admit
  google_auth-IsDead k code nonce draws now db d =
      elim (Result-cases (x.exchange_code code nonce)) [
        | inr (e, h) ↦ rw (google_auth, h) d
        | inl (profile, h) ↦ elim (Bool-cases (profile.email == 0)) [
          | inl z ↦ rw (google_auth, h, z) d
          | inr z ↦ elim (Result-cases (account_of config x profile db)) [
            | inr (e, y) ↦ rw (google_auth, h, z, y) d
            | inl ((id, db'), y) ↦
                rw (google_auth, h, z, y)
                  (issue-IsDead config k id draws.refresh now db'
                    (IsDead-Same k db db' (account_of-Same config x profile id db db' y) d))
          ]
        ]
      ]
