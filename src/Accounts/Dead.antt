-- ===== src/Accounts/Dead.antt =====
-- A family of refresh tokens that was revoked, under the writes of auth.repository.ts.
use udv_shop_api.Prelude.{
  ℕ, suc, ◌≤◌, ◌<◌, ◌≡◌, refl, Bool, false, ◌&&◌, inl, inr, some, [], ◌∷◌, ◌++◌, ◌==◌, arith,
  is_none, if◌then◌else◌, Bool-cases, sum_of-append,
}
use udv_shop_api.Errors.{ok, unless-ok}
use udv_shop_api.Table.{count_where, update_many}
use udv_shop_api.Table.Keys.{count_key}
use udv_shop_api.Table.Laws.{sum_of-update_many-le}
use udv_shop_api.Table.Selected.{sum_of-update_first-same}
use udv_shop_api.Accounts.{
  Accounts, RefreshToken, new_refresh_token, insert_refresh_token, mark_replaced, revoke_family,
  revoke_all_for_user, revoke,
}

abbrev pub is_live : ℕ → RefreshToken → Bool
is_live family_id t = t.family_id == family_id && is_none t.revoked_at

abbrev pub live : ℕ → RefreshToken → ℕ
live family_id t = if is_live family_id t then 1 else 0

-- No token of the family is accepted, and the family is not one to be drawn.
pub record IsDead (family_id : ℕ) (db : Accounts) : Type 0 where
  pub dead : count_where (is_live family_id) db.refresh_tokens ≡ 0
  pub drawn : family_id < db.next_id

pub IsDead-same :
    (k : ℕ) (db db' : Accounts)
    → db'.refresh_tokens ≡ db.refresh_tokens
    → db.next_id ≤ db'.next_id
    → IsDead k db
    → IsDead k db'
IsDead-same k db db' e n d = record { dead = rw e d.dead; drawn = omega (arith, n, d.drawn) }

pub insert-IsDead :
    (k user_id family_id hash expires now : ℕ) (db db' : Accounts) (row : RefreshToken)
    → (family_id == k) ≡ false
    → insert_refresh_token user_id family_id hash expires now db ≡ ok (row, db')
    → IsDead k db
    → IsDead k db'
unfolding insert_refresh_token
insert-IsDead k user_id family_id hash expires now db db' row other h d =
    elim (Bool-cases (count_key (λ (t : RefreshToken). t.token_hash) hash db.refresh_tokens == 0)) [
      | inr t ↦ ground arith
      | inl t ↦
          let x = new_refresh_token db.next_id user_id family_id hash expires now in
          let e : record db {
            next_id = suc db.next_id;
            refresh_tokens = db.refresh_tokens ++ x ∷ [];
          }
              ≡ db' =
            ground arith in
          rw (← e) (record {
            dead = ground (arith, sum_of-append (live k) db.refresh_tokens (x ∷ []), d.dead);
            drawn = ground (arith, d.drawn);
          })
    ]

pub mark_replaced-IsDead :
    (k id by : ℕ) (db db' : Accounts) → mark_replaced id by db ≡ ok db' → IsDead k db → IsDead k db'
unfolding mark_replaced
mark_replaced-IsDead k id by db db' h d = rw (← unless-ok _ _ _ db' h) (record {
  dead = omega (
    arith,
    d.dead,
    sum_of-update_first-same (live k) (λ t. t.id == id) (λ t. record t { replaced_by_id = some by })
        db.refresh_tokens (λ t. refl),
  );
  drawn = d.drawn;
})

-- A revocation revives nothing.
revoke-IsDead :
    (k now : ℕ) (p : RefreshToken → Bool) (db : Accounts)
    → IsDead k db
    → IsDead k (record db { refresh_tokens = update_many p (revoke now) db.refresh_tokens })
revoke-IsDead k now p db d = record {
  dead = omega (
    arith,
    d.dead,
    sum_of-update_many-le (live k) p (revoke now) db.refresh_tokens (λ t h. ground arith),
  );
  drawn = d.drawn;
}

pub revoke_family-IsDead :
    (k j now : ℕ) (db : Accounts) → IsDead k db → IsDead k (revoke_family j now db)
unfolding revoke_family
revoke_family-IsDead k j now db d =
    revoke-IsDead k now (λ t. t.family_id == j && is_none t.revoked_at) db d

pub revoke_all_for_user-IsDead :
    (k j now : ℕ) (db : Accounts) → IsDead k db → IsDead k (revoke_all_for_user j now db)
unfolding revoke_all_for_user
revoke_all_for_user-IsDead k j now db d =
    revoke-IsDead k now (λ t. t.user_id == j && is_none t.revoked_at) db d
