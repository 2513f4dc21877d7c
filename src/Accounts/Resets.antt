-- ===== src/Accounts/Resets.antt =====
-- The reset of a password (src/http/api/auth/reset-password/reset-password.service.ts).
use udv_shop_api.Prelude.{
  ℕ, ◌≤◌, ◌≡◌, refl, Bool, ◌&&◌, some, inl, inr, arith, ◌==◌, is_none, Bool-cases,
}
use udv_shop_api.Errors.{ok, err, unauthorized, Result-cases, unless-ok}
use udv_shop_api.Table.{count_where}
use udv_shop_api.Table.Keys.{count_key}
use udv_shop_api.Table.Laws.{count_where-update_many}
use udv_shop_api.Table.Selected.{find_first-update_found}
use udv_shop_api.Accounts.{
  Accounts, User, RefreshToken, EmailToken, password_reset, find_email_token_by_hash, update_user,
  set_password, mark_email_token_used, revoke_all_for_user, revoke,
}
use udv_shop_api.Accounts.Tokens.{TokenConfig}
use udv_shop_api.Accounts.Login.{Draws, Externals, valid_token, is_valid, reset_password}

abbrev pub email_token_id_of : EmailToken → ℕ
email_token_id_of t = t.id

-- The user has the refresh token, and it is not revoked.
abbrev pub is_open_session : ℕ → RefreshToken → Bool
is_open_session user_id t = t.user_id == user_id && is_none t.revoked_at

module _ (config : TokenConfig) (x : Externals) where
  update_user-email_tokens :
      (id : ℕ) (f : User → User) (db db' : Accounts)
      → update_user id f db ≡ ok db'
      → db'.email_tokens ≡ db.email_tokens
  unfolding update_user
  update_user-email_tokens id f db db' h =
      elim (Bool-cases (count_key (λ (u : User). u.id) id db.users == 0)) [
        | inl t ↦ ground arith
        | inr t ↦ ground arith
      ]

  -- A token that was used is found as used.
  mark_email_token_used-found :
      (hash now : ℕ) (t : EmailToken) (db db' : Accounts)
      → ((k : ℕ) → count_key email_token_id_of k db.email_tokens ≤ 1)
      → find_email_token_by_hash hash db ≡ some t
      → mark_email_token_used t.id now db ≡ ok db'
      → find_email_token_by_hash hash db' ≡ some (record t { used_at = some now })
  unfolding mark_email_token_used find_email_token_by_hash
  mark_email_token_used-found hash now t db db' u found h = rw (← unless-ok _ _ _ db' h) (
      find_first-update_found email_token_id_of (λ s. s.token_hash == hash)
        (λ s. record s { used_at = some now }) db.email_tokens t (λ s. refl) u found)

  used-refused :
      (token password now later : ℕ) (draws : Draws) (t : EmailToken) (db : Accounts)
      → find_email_token_by_hash (config.hash_token token) db
        ≡ some (record t { used_at = some now })
      → reset_password config x token password draws later db
        ≡ (err (unauthorized "invalid_token"), db)
  unfolding reset_password valid_token
  used-refused token password now later draws t db found =
      let v : valid_token config x password_reset token later db
          ≡ err (unauthorized "invalid_token") =
        ground (arith, found) in
      rw (reset_password, v) refl

  -- What a reset that succeeded has done.
  completed :
      (token password now : ℕ) (draws : Draws) (t : EmailToken) (db : Accounts)
      → ((k : ℕ) → count_key email_token_id_of k db.email_tokens ≤ 1)
      → find_email_token_by_hash (config.hash_token token) db ≡ some t
      → (reset_password config x token password draws now db).0 ≡ ok tt
      → (db' : Accounts) × (reset_password config x token password draws now db
          ≡ (ok tt, revoke_all_for_user t.user_id now db'))
        × (find_email_token_by_hash (config.hash_token token) db'
            ≡ some (record t { used_at = some now }))
  unfolding reset_password valid_token find_email_token_by_hash
  completed token password now draws t db u found done =
      let f = set_password (x.hash_password draws.salt password) in
      elim (Bool-cases (is_valid config x password_reset now t)) [
        | inr v ↦ absurd (cc (rw (reset_password, valid_token, found, v) at done))
        | inl v ↦ elim (Result-cases (update_user t.user_id f db)) [
          | inr (e, y) ↦ absurd (cc (rw (reset_password, valid_token, found, v, y) at done))
          | inl (db1, y) ↦ elim (Result-cases (mark_email_token_used t.id now db1)) [
            | inr (e, z) ↦ absurd (cc (rw (reset_password, valid_token, found, v, y, z) at done))
            | inl (db2, z) ↦
                let same = update_user-email_tokens t.user_id f db db1 y in
                (
                  db2,
                  rw (reset_password, valid_token, found, v, y, z) refl,
                  mark_email_token_used-found (config.hash_token token) now t db1 db2
                      (λ k. rw same (u k)) (rw (find_email_token_by_hash, same) found) z,
                )
          ]
        ]
      ]

  revoked-all :
      (user_id now : ℕ) (db : Accounts)
      → count_where (is_open_session user_id) (revoke_all_for_user user_id now db).refresh_tokens
        ≡ 0
  unfolding revoke_all_for_user
  revoked-all user_id now db =
      count_where-update_many (is_open_session user_id) (revoke now) db.refresh_tokens
        (λ t h. ground arith)

  -- A reset that succeeds ends every session of its user, and uses its token up: asked
  -- again on what it left, at any later time, the token is refused and nothing is written. Identifiers
  -- of the tokens of messages are unique.
  pub reset_password-once :
      (token password now : ℕ) (draws : Draws) (t : EmailToken) (db : Accounts)
      → ((k : ℕ) → count_key email_token_id_of k db.email_tokens ≤ 1)
      → find_email_token_by_hash (config.hash_token token) db ≡ some t
      → (reset_password config x token password draws now db).0 ≡ ok tt
      → (count_where
            (is_open_session t.user_id)
            (reset_password config x token password draws now db).1.refresh_tokens
          ≡ 0)
        × ((again later : ℕ) (others : Draws)
            → reset_password config x token again others later
                (reset_password config x token password draws now db).1
              ≡ (
                err (unauthorized "invalid_token"),
                (reset_password config x token password draws now db).1,
              ))
  unfolding reset_password valid_token find_email_token_by_hash revoke_all_for_user
  reset_password-once token password now draws t db u found done =
      let (db', whole, used) = completed token password now draws t db u found done in
      rw whole (
        revoked-all t.user_id now db',
        λ again later others.
            used-refused token again now later others t (revoke_all_for_user t.user_id now db')
              used,
      )
