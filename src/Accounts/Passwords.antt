-- ===== src/Accounts/Passwords.antt =====
-- The password of an account over a history of the accounts (src/http/api/auth and the guests of
-- src/lib/guest-identity.ts).
use mathlib.Core.Path.{subst}
use udv_shop_api.Prelude.{
  ℕ, ◌≡◌, refl, Bool, true, false, Option, none, some, List, [], ◌∷◌, ◌==◌, inl, inr, arith,
  Bool-cases, Option-cases, All,
}
use udv_shop_api.Errors.{ok, Result-cases}
use udv_shop_api.Accounts.{
  Accounts, User, find_user_by_email, find_user_by_google_id, find_user_by_phone, update_user,
  create_user, registered, guest, fill_phone, link_google_id,
}
use udv_shop_api.Accounts.Tokens.{TokenConfig}
use udv_shop_api.Accounts.Login.{
  Draws, Externals, Profile, admit, account_of, link_or_create, google_auth,
}
use udv_shop_api.Accounts.Guests.{
  GuestContact, resolve_actor, guest_actor, known_guest, may_fill, normalize_phone, spelt,
  or_else_by, find_by_email,
}
use udv_shop_api.Accounts.Ops.{
  AccountOp, log_in, sign_up, refresh, log_out, forget, reset, confirm, google, act_as_guest, step,
  run,
}
use udv_shop_api.Accounts.SameUsers.{issue-SameUsers, rotate-SameUsers, log_out-SameUsers}
use udv_shop_api.Accounts.Holds.{Holds, Holds-SameUsers, create_user-Holds, update_user-Holds}
use udv_shop_api.Accounts.SignUps.{
  login-SameUsers, register-Holds, forgot_password-SameUsers, confirm_email-Holds,
}

known_guest-Holds :
    (id h : ℕ) (u : User) (by_phone : Option User) (phone : ℕ) (db : Accounts)
    → Holds id h db
    → Holds id h (known_guest u by_phone phone db).1
unfolding known_guest
known_guest-Holds id h u by_phone phone db a = elim (Bool-cases (may_fill u by_phone)) [
  | inr m ↦ rw m a
  | inl m ↦ elim (Result-cases (update_user u.id (fill_phone phone) db)) [
    | inr (e, y) ↦ rw (m, y) a
    | inl (db', y) ↦
        rw (m, y)
          (update_user-Holds id h u.id (fill_phone phone) db db' (λ v. refl) (λ v. refl) y a)
  ]
]

resolve_actor-Holds :
    (id h : ℕ) (contact : GuestContact) (db : Accounts)
    → Holds id h db
    → Holds id h (resolve_actor none (some contact) db).1
unfolding resolve_actor guest_actor
resolve_actor-Holds id h contact db a = elim (Result-cases (normalize_phone contact.phone)) [
  | inr (e, y) ↦ rw (resolve_actor, y) a
  | inl (phone, y) ↦
      let by_phone = find_user_by_phone (spelt 0 phone) db in
      elim (Option-cases (or_else_by (find_by_email contact.email db) by_phone)) [
        | inl e ↦
            rw (resolve_actor, y, guest_actor, e)
              (create_user-Holds id h (guest contact.name (spelt 0 phone) contact.email) db refl a)
        | inr (u, e) ↦
            rw (resolve_actor, y, guest_actor, e)
              (known_guest-Holds id h u by_phone (spelt 0 phone) db a)
      ]
]

module _ (config : TokenConfig) (x : Externals) where
  link_or_create-Holds :
      (id h k : ℕ) (profile : Profile) (db db' : Accounts)
      → link_or_create config x profile db ≡ ok (k, db')
      → Holds id h db
      → Holds id h db'
  unfolding link_or_create
  link_or_create-Holds id h k profile db db' e a =
      elim (Option-cases (find_user_by_email profile.email db)) [
        | inl n ↦
            let row =
              registered profile.email profile.name none (some profile.sub)
                profile.email_verified in
            let same : (create_user row db).1 ≡ db' = ground arith in
            subst (Holds id h) same (create_user-Holds id h row db refl a)
        | inr (u, n) ↦ elim (Result-cases (update_user u.id (link_google_id profile.sub) db)) [
          | inr (z, y) ↦ ground arith
          | inl (db1, y) ↦
              let same : db1 ≡ db' = ground arith in
              subst (Holds id h) same (
                update_user-Holds id h u.id (link_google_id profile.sub) db db1 (λ u. refl)
                  (λ u. refl) y a)
        ]
      ]

  account_of-Holds :
      (id h k : ℕ) (profile : Profile) (db db' : Accounts)
      → account_of config x profile db ≡ ok (k, db')
      → Holds id h db
      → Holds id h db'
  unfolding account_of
  account_of-Holds id h k profile db db' e a =
      elim (Option-cases (find_user_by_google_id profile.sub db)) [
        | inr (u, n) ↦ let same : db ≡ db' = ground arith in subst (Holds id h) same a
        | inl n ↦ elim (Bool-cases profile.email_verified) [
          | inr v ↦ ground arith
          | inl v ↦ link_or_create-Holds id h k profile db db' (ground arith) a
        ]
      ]

  google_auth-Holds :
      (id h code nonce : ℕ) (draws : Draws) (now : ℕ) (db : Accounts)
      → Holds id h db
      → Holds id h (google_auth config x code nonce draws now db).1
  unfolding google_auth admit
  google_auth-Holds id h code nonce draws now db a =
      elim (Result-cases (x.exchange_code code nonce)) [
        | inr (e, y) ↦ rw (google_auth, y) a
        | inl (profile, y) ↦ elim (Bool-cases (profile.email == 0)) [
          | inl z ↦ rw (google_auth, y, z) a
          | inr z ↦ elim (Result-cases (account_of config x profile db)) [
            | inr (e, w) ↦ rw (google_auth, y, z, w) a
            | inl ((k, db'), w) ↦
                rw (google_auth, y, z, w)
                  (Holds-SameUsers id h db' _ (issue-SameUsers config k draws.refresh now db')
                    (account_of-Holds id h k profile db db' w a))
          ]
        ]
      ]

  -- Anything but resetting a password with the token of a message.
  abbrev pub resets : AccountOp → Bool
  resets (reset token password) = true
  resets _ = false

  step-Holds :
      (id h : ℕ) (op : AccountOp) (draws : Draws) (now : ℕ) (db : Accounts)
      → resets op ≡ false
      → Holds id h db
      → Holds id h (step config x op draws now db)
  unfolding step
  step-Holds id h (log_in email password) draws now db n a =
      Holds-SameUsers id h db _ (login-SameUsers config x email password draws now db) a
  step-Holds id h (sign_up email name password) draws now db n a =
      register-Holds config x id h email name password draws now db a
  step-Holds id h (refresh token) draws now db n a =
      Holds-SameUsers id h db _ (rotate-SameUsers config token draws.refresh now db) a
  step-Holds id h (log_out token) draws now db n a =
      Holds-SameUsers id h db _ (log_out-SameUsers config token now db) a
  step-Holds id h (forget email) draws now db n a =
      Holds-SameUsers id h db _ (forgot_password-SameUsers config x email draws now db) a
  step-Holds id h (reset token password) draws now db n a = ground arith
  step-Holds id h (confirm token) draws now db n a =
      confirm_email-Holds config x id h token now db a
  step-Holds id h (google code nonce) draws now db n a =
      google_auth-Holds id h code nonce draws now db a
  step-Holds id h (act_as_guest contact) draws now db n a = resolve_actor-Holds id h contact db a

  -- An account keeps its password, whatever the others do: signing up with its address, signing in
  -- with Google, filling in its address or phone as a guest, confirming addresses and opening or
  -- ending sessions, in any order. Only the token of a password reset, which is excluded here, sets
  -- another. Identifiers of accounts are unique and fresh before.
  pub run-Holds :
      (id h : ℕ) (ops : List (ℕ × Draws × AccountOp)) (db : Accounts)
      → All (λ o. resets o.2 ≡ false) ops
      → Holds id h db
      → Holds id h (run config x ops db)
  unfolding run
  run-Holds id h [] db n a = a
  run-Holds id h ((now, draws, op) ∷ ops) db (n, ns) a =
      run-Holds id h ops (step config x op draws now db) ns (step-Holds id h op draws now db n a)
