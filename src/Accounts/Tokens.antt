-- ===== src/Accounts/Tokens.antt =====
-- src/http/api/auth/tokens.service.ts: the tokens of a session, which are rotated in families. A token
-- that a call draws at random is an argument of the call; the signature of an access token is not
-- modelled, and its claims stand for it.
use udv_shop_api.Prelude.{
  ℕ, suc, ◌+◌, ◌-◌, Bool, false, not, ◌&&◌, Option, none, some, ◌==◌, leb, ltb, is_none,
  if◌then◌else◌,
}
use udv_shop_api.Errors.{Result, ok, err, unauthorized}
use udv_shop_api.Permissions.{Claims}
use udv_shop_api.Accounts.{
  Accounts, User, RefreshToken, find_user_by_id, user_roles, insert_refresh_token,
  find_refresh_token_by_hash, find_refresh_token_by_id, mark_replaced, revoke_family,
}

-- What was written before an error stays.
abbrev pub Outcome : Type 0 → Type 0
Outcome A = Result A × Accounts

pub record Issued : Type 0 where
  pub access_token : Claims
  pub refresh_token : ℕ

pub record TokenConfig : Type 0 where
  pub refresh_ttl_ms : ℕ
  pub reuse_grace_ms : ℕ
  pub hash_token : ℕ → ℕ

abbrev pub or_gone : Option User → Result User
or_gone none = err (unauthorized "user_not_found")
or_gone (some u) = ok u

abbrev pub claims_of : Accounts → User → Claims
claims_of db u = record {
  sub = u.id;
  is_platform_admin = u.platform_admin;
  roles = user_roles u.id db;
}

-- `buildAccess`, with the refresh token that goes with it.
unfoldable pub build_access : ℕ → ℕ → Accounts → Outcome Issued
build_access user_id raw db = elim (find_user_by_id user_id db) [
  | none ↦ (err (unauthorized "user_not_found"), db)
  | some u ↦ (ok (record { access_token = claims_of db u; refresh_token = raw }), db)
]

module _ (config : TokenConfig) where
  -- `isClientRace`. A replacement of the future counts as a recent one.
  unfoldable pub is_client_race : ℕ → ℕ → Accounts → Bool
  is_client_race replaced_by_id now db =
      if config.reuse_grace_ms == 0
      then false
      else (elim (find_refresh_token_by_id replaced_by_id db) [
        | none ↦ false
        | some r ↦ is_none r.revoked_at && leb (now - r.created_at) config.reuse_grace_ms
      ])

  unfoldable pub mint :
      (user_id family_id raw now : ℕ) → Accounts → Result (RefreshToken × Accounts)
  mint user_id family_id raw now db =
      insert_refresh_token user_id family_id (config.hash_token raw) (now + config.refresh_ttl_ms)
        now db

  -- `issue`, in a family of its own.
  unfoldable pub issue : (user_id raw now : ℕ) → Accounts → Outcome Issued
  unfolding mint build_access
  issue user_id raw now db =
      elim (mint user_id db.next_id raw now (record db { next_id = suc db.next_id })) [
        | err e ↦ (err e, db)
        | ok (row, db') ↦ build_access user_id raw db'
      ]

  -- The token was replaced, and not by a race of its own client.
  unfoldable pub is_reused : RefreshToken → ℕ → Accounts → Bool
  unfolding is_client_race
  is_reused t now db = elim t.replaced_by_id [
    | none ↦ false
    | some k ↦ not (is_client_race k now db)
  ]

  -- The end of a rotation: the next token of the family takes the place of `t`.
  unfoldable pub replace : RefreshToken → (raw now : ℕ) → Accounts → Outcome Issued
  unfolding mint build_access
  replace t raw now db = elim (mint t.user_id t.family_id raw now db) [
    | err e ↦ (err e, db)
    | ok (next, db') ↦ elim (mark_replaced t.id next.id db') [
      | err e ↦ (err e, db')
      | ok db'' ↦ build_access t.user_id raw db''
    ]
  ]

  unfoldable pub rotate_row : RefreshToken → (raw now : ℕ) → Accounts → Outcome Issued
  unfolding is_reused replace
  rotate_row t raw now db =
      if not (is_none t.revoked_at)
      then (err (unauthorized "refresh_token_revoked"), db)
      else (if is_reused t now db
          then (err (unauthorized "refresh_token_reused"), revoke_family t.family_id now db)
          else (if ltb t.expires_at now
              then (err (unauthorized "refresh_token_expired"), db)
              else replace t raw now db))

  -- `rotate`
  unfoldable pub rotate : (token raw now : ℕ) → Accounts → Outcome Issued
  unfolding rotate_row
  rotate token raw now db = elim (find_refresh_token_by_hash (config.hash_token token) db) [
    | none ↦ (err (unauthorized "invalid_refresh_token"), db)
    | some t ↦ rotate_row t raw now db
  ]

  -- `revokeFamilyByToken`
  unfoldable pub revoke_family_by_token : (token now : ℕ) → Accounts → Accounts
  revoke_family_by_token token now db =
      elim (find_refresh_token_by_hash (config.hash_token token) db) [
        | none ↦ db
        | some t ↦ revoke_family t.family_id now db
      ]
