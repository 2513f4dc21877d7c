-- ===== src/Accounts/SignUps.antt =====
-- The password of an account when others register, log in or confirm an address (src/http/api/auth).
use udv_shop_api.Prelude.{ℕ, ◌+◌, ◌*◌, refl, false, none, some, inl, inr, Bool-cases, Option-cases}
use udv_shop_api.Errors.{Result-cases}
use udv_shop_api.Accounts.{
  Accounts, User, verify_email, password_reset, find_user_by_email, insert_email_token, update_user,
  mark_email_verified, mark_email_token_used, create_user, registered, adopt_guest_user,
}
use udv_shop_api.Accounts.Tokens.{TokenConfig}
use udv_shop_api.Accounts.Login.{
  Draws, Externals, login, login_as, welcome, enrol, register, is_credentialed, forgot_password,
  confirm_email, valid_token, adopt_or_create,
}
use udv_shop_api.Accounts.Ops.{or_same}
use udv_shop_api.Accounts.SameUsers.{
  SameUsers, SameUsers-refl, SameUsers-trans, issue-SameUsers, insert_email_token-SameUsers,
  mark_email_token_used-SameUsers,
}
use udv_shop_api.Accounts.Holds.{
  Holds, Holds-SameUsers, create_user-Holds, update_user-Holds, adopt-Holds,
}

module _ (config : TokenConfig) (x : Externals) where
  pub login-SameUsers :
      (email password : ℕ) (draws : Draws) (now : ℕ) (db : Accounts)
      → SameUsers db (login config x email password draws now db).1
  unfolding login login_as
  login-SameUsers email password draws now db = elim (Option-cases (find_user_by_email email db)) [
    | inl e ↦ rw (login, e) (SameUsers-refl db)
    | inr (u, e) ↦ elim (Option-cases u.password_hash) [
      | inl p ↦ rw (login, e, p) (SameUsers-refl db)
      | inr (h, p) ↦ elim (Bool-cases (x.verify_password h password)) [
        | inl v ↦ rw (login, e, p, v) (issue-SameUsers config u.id draws.refresh now db)
        | inr v ↦ rw (login, e, p, v) (SameUsers-refl db)
      ]
    ]
  ]

  welcome-SameUsers :
      (u : User) (draws : Draws) (now : ℕ) (db : Accounts)
      → SameUsers db (welcome config x u draws now db).1
  unfolding welcome
  welcome-SameUsers u draws now db =
      elim (Result-cases (
        insert_email_token u.id verify_email (config.hash_token draws.mail)
          (now + 24 * 60 * 60 * 1000) db)) [
            | inr (e, h) ↦ rw (welcome, h) (SameUsers-refl db)
            | inl (db', h) ↦
                rw (welcome, h)
                  (SameUsers-trans db db' _
                    (insert_email_token-SameUsers u.id verify_email _ _ db db' h)
                    (issue-SameUsers config u.id draws.refresh now db'))
          ]

  -- A sign-up writes a new account, or one without credentials.
  pub register-Holds :
      (id h email name password : ℕ) (draws : Draws) (now : ℕ) (db : Accounts)
      → Holds id h db
      → Holds id h (register config x email name password draws now db).1
  unfolding register enrol adopt_or_create
  register-Holds id h email name password draws now db a =
      let hash = x.hash_password draws.salt password in
      elim (Option-cases (find_user_by_email email db)) [
        | inl e ↦
            let (u, db') = create_user (registered email name (some hash) none false) db in
            rw (register, e, enrol, adopt_or_create)
              (Holds-SameUsers id h db' _ (welcome-SameUsers u draws now db')
                (create_user-Holds id h (registered email name (some hash) none false) db refl a))
        | inr (u, e) ↦ elim (Bool-cases (is_credentialed u)) [
          | inl c ↦ rw (register, e, c) a
          | inr c ↦ elim (Result-cases (update_user u.id (adopt_guest_user name hash) db)) [
            | inr (z, y) ↦ rw (register, e, c, enrol, adopt_or_create, y) a
            | inl (db', y) ↦
                rw (register, e, c, enrol, adopt_or_create, y)
                  (Holds-SameUsers id h db' _
                    (welcome-SameUsers (adopt_guest_user name hash u) draws now db')
                    (adopt-Holds id h email name hash u db db' e c y a))
          ]
        ]
      ]

  pub forgot_password-SameUsers :
      (email : ℕ) (draws : Draws) (now : ℕ) (db : Accounts)
      → SameUsers db (or_same db (forgot_password config x email draws now db))
  unfolding forgot_password
  forgot_password-SameUsers email draws now db = elim (Option-cases (find_user_by_email email db)) [
    | inl e ↦ rw (forgot_password, e) (SameUsers-refl db)
    | inr (u, e) ↦
        elim (Result-cases (
          insert_email_token u.id password_reset (config.hash_token draws.mail)
            (now + 60 * 60 * 1000) db)) [
              | inr (z, y) ↦ rw (forgot_password, e, y) (SameUsers-refl db)
              | inl (db', y) ↦
                  rw (forgot_password, e, y)
                    (insert_email_token-SameUsers u.id password_reset _ _ db db' y)
            ]
  ]

  pub confirm_email-Holds :
      (id h token now : ℕ) (db : Accounts)
      → Holds id h db
      → Holds id h (confirm_email config x token now db).1
  unfolding confirm_email
  confirm_email-Holds id h token now db a =
      elim (Result-cases (valid_token config x verify_email token now db)) [
        | inr (e, y) ↦ rw (confirm_email, y) a
        | inl (t, y) ↦ elim (Result-cases (update_user t.user_id mark_email_verified db)) [
          | inr (e, z) ↦ rw (confirm_email, y, z) a
          | inl (db1, z) ↦
              let b =
                update_user-Holds id h t.user_id mark_email_verified db db1 (λ u. refl) (λ u. refl)
                  z a in
              elim (Result-cases (mark_email_token_used t.id now db1)) [
                | inr (e, w) ↦ rw (confirm_email, y, z, w) b
                | inl (db2, w) ↦
                    rw (confirm_email, y, z, w)
                      (Holds-SameUsers id h db1 db2
                        (mark_email_token_used-SameUsers t.id now db1 db2 w) b)
              ]
        ]
      ]
