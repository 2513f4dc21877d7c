-- ===== src/Accounts/Families.antt =====
-- A family of refresh tokens that was revoked (src/http/api/auth/tokens.service.ts), over any history.
use udv_shop_api.Prelude.{
  ℕ, suc, ◌+◌, ◌<◌, ◌≡◌, refl, true, false, ◌⊎◌, inl, inr, some, ◌==◌, ==_iff, arith, is_none,
  Bool-cases, Option-cases, ltb,
}
use udv_shop_api.Errors.{err, unauthorized, Result-cases}
use udv_shop_api.Table.Laws.{count_where-update_many}
use udv_shop_api.Table.Selected.{sum_of-found}
use udv_shop_api.Accounts.{
  Accounts, RefreshToken, find_refresh_token_by_hash, mark_replaced, revoke_family, revoke,
  find_user_by_id,
}
use udv_shop_api.Accounts.Tokens.{
  TokenConfig, issue, mint, build_access, rotate, rotate_row, replace, is_reused,
  revoke_family_by_token,
}
use udv_shop_api.Accounts.Dead.{
  IsDead, insert-IsDead, is_live, live, mark_replaced-IsDead, revoke_family-IsDead,
}

build_access-same : (user_id raw : ℕ) (db : Accounts) → (build_access user_id raw db).1 ≡ db
unfolding build_access
build_access-same user_id raw db = elim (Option-cases (find_user_by_id user_id db)) [
  | inl e ↦ rw (build_access, e) refl
  | inr (u, e) ↦ rw (build_access, e) refl
]

-- A token of a family that is dead is revoked.
dead-revoked :
    (k hash : ℕ) (db : Accounts) (t : RefreshToken)
    → find_refresh_token_by_hash hash db ≡ some t
    → (t.family_id == k) ≡ true
    → IsDead k db
    → is_none t.revoked_at ≡ false
unfolding find_refresh_token_by_hash
dead-revoked k hash db t found own d =
    ground
      (arith, sum_of-found (live k) (λ r. r.token_hash == hash) db.refresh_tokens t found d.dead)

module _ (config : TokenConfig) where
  pub issue-IsDead :
      (k user_id raw now : ℕ) (db : Accounts)
      → IsDead k db
      → IsDead k (issue config user_id raw now db).1
  unfolding issue mint
  issue-IsDead k user_id raw now db d =
      let start : IsDead k (record db { next_id = suc db.next_id }) = record {
        dead = d.dead;
        drawn = omega (arith, d.drawn);
      } in
      elim (Result-cases
        (mint config user_id db.next_id raw now (record db { next_id = suc db.next_id }))) [
          | inr (e, h) ↦ rw (issue, h) d
          | inl ((row, db'), h) ↦
              rw (issue, h, build_access-same user_id raw db')
                (insert-IsDead k user_id db.next_id (config.hash_token raw)
                  (now + config.refresh_ttl_ms) now (record db { next_id = suc db.next_id }) db' row
                  (ground (arith, d.drawn)) h start)
        ]

  replace-IsDead :
      (k raw now : ℕ) (t : RefreshToken) (db : Accounts)
      → (t.family_id == k) ≡ false
      → IsDead k db
      → IsDead k (replace config t raw now db).1
  unfolding replace mint
  replace-IsDead k raw now t db other d =
      elim (Result-cases (mint config t.user_id t.family_id raw now db)) [
        | inr (e, h) ↦ rw (replace, h) d
        | inl ((next, db'), h) ↦
            let d' =
              insert-IsDead k t.user_id t.family_id (config.hash_token raw)
                (now + config.refresh_ttl_ms) now db db' next other h d in
            elim (Result-cases (mark_replaced t.id next.id db')) [
              | inr (e, y) ↦ rw (replace, h, y) d'
              | inl (db'', y) ↦
                  rw (replace, h, y, build_access-same t.user_id raw db'')
                    (mark_replaced-IsDead k t.id next.id db' db'' y d')
            ]
      ]

  -- A token of another family may be rotated, one of the dead family is refused.
  rotate_row-IsDead :
      (k raw now : ℕ) (t : RefreshToken) (db : Accounts)
      → (((t.family_id == k) ≡ false) ⊎ (is_none t.revoked_at ≡ false))
      → IsDead k db
      → IsDead k (rotate_row config t raw now db).1
  unfolding rotate_row
  rotate_row-IsDead k raw now t db c d = elim (Bool-cases (is_none t.revoked_at)) [
    | inr y ↦ rw y d
    | inl y ↦ elim (Bool-cases (is_reused config t now db)) [
      | inl r ↦ rw (y, r) (revoke_family-IsDead k t.family_id now db d)
      | inr r ↦ elim (Bool-cases (ltb t.expires_at now)) [
        | inl l ↦ rw (y, r, l) d
        | inr l ↦ rw (y, r, l) (replace-IsDead k raw now t db (ground (arith, c)) d)
      ]
    ]
  ]

  pub rotate-IsDead :
      (k token raw now : ℕ) (db : Accounts)
      → IsDead k db
      → IsDead k (rotate config token raw now db).1
  unfolding rotate
  rotate-IsDead k token raw now db d =
      elim (Option-cases (find_refresh_token_by_hash (config.hash_token token) db)) [
        | inl e ↦ rw (rotate, e) d
        | inr (t, e) ↦
            rw (rotate, e)
              (rotate_row-IsDead k raw now t db
                (elim (Bool-cases (t.family_id == k)) [
                  | inr o ↦ inl o
                  | inl o ↦ inr (dead-revoked k (config.hash_token token) db t e o d)
                ])
                d)
      ]

  pub revoke_family_by_token-IsDead :
      (k token now : ℕ) (db : Accounts)
      → IsDead k db
      → IsDead k (revoke_family_by_token config token now db)
  unfolding revoke_family_by_token
  revoke_family_by_token-IsDead k token now db d =
      elim (Option-cases (find_refresh_token_by_hash (config.hash_token token) db)) [
        | inl e ↦ rw (revoke_family_by_token, e) d
        | inr (t, e) ↦ rw (revoke_family_by_token, e) (revoke_family-IsDead k t.family_id now db d)
      ]

  -- A token of a dead family is refused, and nothing is written.
  pub rotate-refused :
      (k token raw now : ℕ) (t : RefreshToken) (db : Accounts)
      → find_refresh_token_by_hash (config.hash_token token) db ≡ some t
      → t.family_id ≡ k
      → IsDead k db
      → rotate config token raw now db ≡ (err (unauthorized "refresh_token_revoked"), db)
  unfolding rotate rotate_row
  rotate-refused k token raw now t db found own d =
      let y =
        dead-revoked k (config.hash_token token) db t found ((==_iff t.family_id k).1 own) d in
      rw (rotate, found, y) refl

-- Revoking a family that was drawn kills it.
pub IsDead-revoke_family :
    (k now : ℕ) (db : Accounts) → k < db.next_id → IsDead k (revoke_family k now db)
unfolding revoke_family
IsDead-revoke_family k now db h = record {
  dead = count_where-update_many (is_live k) (revoke now) db.refresh_tokens (λ t l. ground arith);
  drawn = h;
}
