-- ===== src/Accounts/Ended.antt =====
-- Sessions that have ended, whatever the routes of src/http/api/auth are asked afterwards.
use udv_shop_api.Prelude.{
  ℕ, ◌<◌, ◌≡◌, refl, true, inl, inr, Option, none, some, List, [], ◌∷◌, arith, Bool-cases,
  Option-cases,
}
use udv_shop_api.Errors.{err, unauthorized, Result-cases}
use udv_shop_api.Accounts.{
  Accounts, User, RefreshToken, find_user_by_phone, find_refresh_token_by_hash, update_user,
  create_user, fill_phone,
}
use udv_shop_api.Accounts.Tokens.{
  TokenConfig, rotate, rotate_row, is_reused, revoke_family_by_token,
}
use udv_shop_api.Accounts.Login.{Draws, Externals}
use udv_shop_api.Accounts.Guests.{
  GuestContact, resolve_actor, guest_actor, known_guest, may_fill, normalize_phone, spelt,
  or_else_by, find_by_email,
}
use udv_shop_api.Accounts.Ops.{
  AccountOp, log_in, sign_up, refresh, log_out, forget, reset, confirm, google, act_as_guest, step,
  run,
}
use udv_shop_api.Accounts.Dead.{IsDead}
use udv_shop_api.Accounts.Families.{
  rotate-IsDead, revoke_family_by_token-IsDead, IsDead-revoke_family, rotate-refused,
}
use udv_shop_api.Accounts.Same.{Same, Same-refl, update_user-Same}
use udv_shop_api.Accounts.Kept.{
  IsDead-Same, login-IsDead, register-IsDead, forgot_password-IsDead, reset_password-IsDead,
  confirm_email-IsDead, google_auth-IsDead,
}

known_guest-Same :
    (u : User) (by_phone : Option User) (phone : ℕ) (db : Accounts)
    → Same db (known_guest u by_phone phone db).1
unfolding known_guest
known_guest-Same u by_phone phone db = elim (Bool-cases (may_fill u by_phone)) [
  | inr m ↦ rw m (Same-refl db)
  | inl m ↦ elim (Result-cases (update_user u.id (fill_phone phone) db)) [
    | inr (e, h) ↦ rw (m, h) (Same-refl db)
    | inl (db', h) ↦ rw (m, h) (update_user-Same u.id (fill_phone phone) db db' h)
  ]
]

guest_actor-Same :
    (contact : GuestContact) (phone : ℕ) (db : Accounts) → Same db (guest_actor contact phone db).1
unfolding guest_actor create_user
guest_actor-Same contact phone db =
    let by_phone = find_user_by_phone phone db in
    elim (Option-cases (or_else_by (find_by_email contact.email db) by_phone)) [
      | inl e ↦ rw (guest_actor, e) (record { tokens = refl; later = omega arith })
      | inr (u, e) ↦ rw (guest_actor, e) (known_guest-Same u by_phone phone db)
    ]

resolve_actor-Same :
    (contact : GuestContact) (db : Accounts) → Same db (resolve_actor none (some contact) db).1
unfolding resolve_actor
resolve_actor-Same contact db = elim (Result-cases (normalize_phone contact.phone)) [
  | inr (e, h) ↦ rw (resolve_actor, h) (Same-refl db)
  | inl (phone, h) ↦ rw (resolve_actor, h) (guest_actor-Same contact (spelt 0 phone) db)
]

module _ (config : TokenConfig) (x : Externals) where
  step-IsDead :
      (k : ℕ) (op : AccountOp) (draws : Draws) (now : ℕ) (db : Accounts)
      → IsDead k db
      → IsDead k (step config x op draws now db)
  unfolding step
  step-IsDead k (log_in email password) draws now db d =
      login-IsDead config x k email password draws now db d
  step-IsDead k (sign_up email name password) draws now db d =
      register-IsDead config x k email name password draws now db d
  step-IsDead k (refresh token) draws now db d = rotate-IsDead config k token draws.refresh now db d
  step-IsDead k (log_out token) draws now db d =
      revoke_family_by_token-IsDead config k token now db d
  step-IsDead k (forget email) draws now db d =
      forgot_password-IsDead config x k email draws now db d
  step-IsDead k (reset token password) draws now db d =
      reset_password-IsDead config x k token password draws now db d
  step-IsDead k (confirm token) draws now db d = confirm_email-IsDead config x k token now db d
  step-IsDead k (google code nonce) draws now db d =
      google_auth-IsDead config x k code nonce draws now db d
  step-IsDead k (act_as_guest contact) draws now db d =
      IsDead-Same k db _ (resolve_actor-Same contact db) d

  run-IsDead :
      (k : ℕ) (ops : List (ℕ × Draws × AccountOp)) (db : Accounts)
      → IsDead k db
      → IsDead k (run config x ops db)
  unfolding run
  run-IsDead k [] db d = d
  run-IsDead k ((now, draws, op) ∷ ops) db d =
      run-IsDead k ops (step config x op draws now db) (step-IsDead k op draws now db d)

  -- A call that ends the session of `t`: its token logs out, or is presented again after it was
  -- replaced, and not by a race of its own client.
  pub data Ends (t : RefreshToken) (token now : ℕ) (db : Accounts) : AccountOp → Type 0 where
    logged_out : Ends t token now db (log_out token)
    reused :
        (t.revoked_at ≡ none)
        → (is_reused config t now db ≡ true)
        → Ends t token now db (refresh token)

  IsDead-Ends :
      (t : RefreshToken) (token now : ℕ) (op : AccountOp) (draws : Draws) (db : Accounts)
      → find_refresh_token_by_hash (config.hash_token token) db ≡ some t
      → t.family_id < db.next_id
      → Ends t token now db op
      → IsDead t.family_id (step config x op draws now db)
  unfolding step revoke_family_by_token rotate rotate_row
  IsDead-Ends t token now op draws db found drawn logged_out =
      rw (step, revoke_family_by_token, found) (IsDead-revoke_family t.family_id now db drawn)
  IsDead-Ends t token now op draws db found drawn (reused fresh r) =
      rw (step, rotate, found, fresh, r) (IsDead-revoke_family t.family_id now db drawn)

  -- After a token has logged out, or was presented again once it had been replaced (unless its own
  -- client races with itself), no token of its family is accepted again, whatever the routes of the
  -- accounts are asked in the meantime, by whom and in whichever order: each is refused as revoked,
  -- and nothing is written. Calls are one after another, and identifiers of families are drawn fresh.
  pub run-refused :
      (t : RefreshToken) (token now : ℕ) (op : AccountOp) (draws : Draws) (db : Accounts)
      (ops : List (ℕ × Draws × AccountOp)) (s : RefreshToken) (other raw later : ℕ)
      → find_refresh_token_by_hash (config.hash_token token) db ≡ some t
      → t.family_id < db.next_id
      → Ends t token now db op
      → find_refresh_token_by_hash
          (config.hash_token other)
          (run config x ((now, draws, op) ∷ ops) db)
        ≡ some s
      → s.family_id ≡ t.family_id
      → rotate config other raw later (run config x ((now, draws, op) ∷ ops) db)
        ≡ (err (unauthorized "refresh_token_revoked"), run config x ((now, draws, op) ∷ ops) db)
  unfolding run
  run-refused t token now op draws db ops s other raw later found drawn ends found' own =
      rotate-refused config t.family_id other raw later s (run config x ((now, draws, op) ∷ ops) db)
        found' own
        (run-IsDead t.family_id ops (step config x op draws now db)
          (IsDead-Ends t token now op draws db found drawn ends))
