-- ===== src/Accounts/SameUsers.antt =====
-- Writes to the tokens (auth.repository.ts and tokens.service.ts), which leave the users alone.
use udv_shop_api.Prelude.{
  ℕ, suc, ◌+◌, ◌≤◌, ◌≡◌, ◌∙◌, refl, inl, inr, arith, ◌==◌, is_none, ltb, Bool-cases, Option-cases,
}
use udv_shop_api.Errors.{ok, Result-cases, unless-ok, when-ok}
use udv_shop_api.Table.Keys.{count_key}
use udv_shop_api.Accounts.{
  Accounts, RefreshToken, EmailTokenType, insert_refresh_token, mark_replaced, revoke_family,
  insert_email_token, mark_email_token_used, find_user_by_id, find_refresh_token_by_hash,
}
use udv_shop_api.Accounts.Tokens.{
  TokenConfig, issue, mint, build_access, replace, rotate_row, rotate, is_reused,
  revoke_family_by_token,
}

pub record SameUsers (db db' : Accounts) : Type 0 where
  pub users : db'.users ≡ db.users
  pub later : db.next_id ≤ db'.next_id

pub SameUsers-refl : (db : Accounts) → SameUsers db db
SameUsers-refl db = record { users = refl; later = omega arith }

pub SameUsers-trans : (a b c : Accounts) → SameUsers a b → SameUsers b c → SameUsers a c
SameUsers-trans a b c x y = record {
  users = y.users ∙ x.users;
  later = omega (arith, x.later, y.later);
}

insert-SameUsers :
    (user_id family_id hash expires now : ℕ) (db db' : Accounts) (row : RefreshToken)
    → insert_refresh_token user_id family_id hash expires now db ≡ ok (row, db')
    → SameUsers db db'
unfolding insert_refresh_token
insert-SameUsers user_id family_id hash expires now db db' row h =
    elim (Bool-cases (count_key (λ (t : RefreshToken). t.token_hash) hash db.refresh_tokens == 0)) [
      | inr t ↦ ground arith
      | inl t ↦ record { users = ground arith; later = ground arith }
    ]

mark_replaced-SameUsers :
    (id by : ℕ) (db db' : Accounts) → mark_replaced id by db ≡ ok db' → SameUsers db db'
unfolding mark_replaced
mark_replaced-SameUsers id by db db' h =
    rw (← unless-ok _ _ _ db' h) record { users = refl; later = omega arith }

revoke_family-SameUsers : (k now : ℕ) (db : Accounts) → SameUsers db (revoke_family k now db)
unfolding revoke_family
revoke_family-SameUsers k now db = record { users = refl; later = omega arith }

pub insert_email_token-SameUsers :
    (user_id : ℕ) (kind : EmailTokenType) (hash expires : ℕ) (db db' : Accounts)
    → insert_email_token user_id kind hash expires db ≡ ok db'
    → SameUsers db db'
unfolding insert_email_token
insert_email_token-SameUsers user_id kind hash expires db db' h =
    rw (← when-ok _ _ _ db' h) record { users = refl; later = omega arith }

pub mark_email_token_used-SameUsers :
    (id now : ℕ) (db db' : Accounts) → mark_email_token_used id now db ≡ ok db' → SameUsers db db'
unfolding mark_email_token_used
mark_email_token_used-SameUsers id now db db' h =
    rw (← unless-ok _ _ _ db' h) record { users = refl; later = omega arith }

build_access-SameUsers :
    (user_id raw : ℕ) (db : Accounts) → SameUsers db (build_access user_id raw db).1
unfolding build_access
build_access-SameUsers user_id raw db = elim (Option-cases (find_user_by_id user_id db)) [
  | inl e ↦ rw (build_access, e) (SameUsers-refl db)
  | inr (u, e) ↦ rw (build_access, e) (SameUsers-refl db)
]

module _ (config : TokenConfig) where
  pub issue-SameUsers :
      (user_id raw now : ℕ) (db : Accounts) → SameUsers db (issue config user_id raw now db).1
  unfolding issue mint
  issue-SameUsers user_id raw now db =
      let start = record db { next_id = suc db.next_id } in
      elim (Result-cases (mint config user_id db.next_id raw now start)) [
        | inr (e, h) ↦ rw (issue, h) (SameUsers-refl db)
        | inl ((row, db'), h) ↦
            let s =
              insert-SameUsers user_id db.next_id (config.hash_token raw)
                (now + config.refresh_ttl_ms) now start db' row h in
            rw (issue, h)
              (SameUsers-trans db db' _ (record { users = s.users; later = omega (arith, s.later) })
                (build_access-SameUsers user_id raw db'))
      ]

  replace-SameUsers :
      (t : RefreshToken) (raw now : ℕ) (db : Accounts)
      → SameUsers db (replace config t raw now db).1
  unfolding replace mint
  replace-SameUsers t raw now db =
      elim (Result-cases (mint config t.user_id t.family_id raw now db)) [
        | inr (e, h) ↦ rw (replace, h) (SameUsers-refl db)
        | inl ((next, db'), h) ↦
            let s =
              insert-SameUsers t.user_id t.family_id (config.hash_token raw)
                (now + config.refresh_ttl_ms) now db db' next h in
            elim (Result-cases (mark_replaced t.id next.id db')) [
              | inr (e, y) ↦ rw (replace, h, y) s
              | inl (db'', y) ↦
                  rw (replace, h, y)
                    (SameUsers-trans db db' _ s (
                      SameUsers-trans db' db'' _ (mark_replaced-SameUsers t.id next.id db' db'' y)
                        (build_access-SameUsers t.user_id raw db'')))
            ]
      ]

  rotate_row-SameUsers :
      (t : RefreshToken) (raw now : ℕ) (db : Accounts)
      → SameUsers db (rotate_row config t raw now db).1
  unfolding rotate_row
  rotate_row-SameUsers t raw now db = elim (Bool-cases (is_none t.revoked_at)) [
    | inr y ↦ rw y (SameUsers-refl db)
    | inl y ↦ elim (Bool-cases (is_reused config t now db)) [
      | inl r ↦ rw (y, r) (revoke_family-SameUsers t.family_id now db)
      | inr r ↦ elim (Bool-cases (ltb t.expires_at now)) [
        | inl l ↦ rw (y, r, l) (SameUsers-refl db)
        | inr l ↦ rw (y, r, l) (replace-SameUsers t raw now db)
      ]
    ]
  ]

  pub rotate-SameUsers :
      (token raw now : ℕ) (db : Accounts) → SameUsers db (rotate config token raw now db).1
  unfolding rotate
  rotate-SameUsers token raw now db =
      elim (Option-cases (find_refresh_token_by_hash (config.hash_token token) db)) [
        | inl e ↦ rw (rotate, e) (SameUsers-refl db)
        | inr (t, e) ↦ rw (rotate, e) (rotate_row-SameUsers t raw now db)
      ]

  pub log_out-SameUsers :
      (token now : ℕ) (db : Accounts) → SameUsers db (revoke_family_by_token config token now db)
  unfolding revoke_family_by_token
  log_out-SameUsers token now db =
      elim (Option-cases (find_refresh_token_by_hash (config.hash_token token) db)) [
        | inl e ↦ rw (revoke_family_by_token, e) (SameUsers-refl db)
        | inr (t, e) ↦ rw (revoke_family_by_token, e) (revoke_family-SameUsers t.family_id now db)
      ]
