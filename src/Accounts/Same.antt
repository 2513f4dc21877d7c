-- ===== src/Accounts/Same.antt =====
-- Writes to users and to the tokens of messages (auth.repository.ts), which leave the sessions alone.
use udv_shop_api.Prelude.{
  ℕ, ◌≤◌, ◌≡◌, refl, Option, some, none, inl, inr, arith, Bool-cases, Option-cases,
}
use udv_shop_api.Errors.{ok, Result-cases, unless-ok, when-ok}
use udv_shop_api.Accounts.{
  Accounts, User, EmailTokenType, update_user, insert_email_token, mark_email_token_used,
  find_user_by_email, find_user_by_google_id, create_user, adopt_guest_user, link_google_id,
}
use udv_shop_api.Accounts.Login.{Externals, Profile, adopt_or_create, link_or_create, account_of}
use udv_shop_api.Accounts.Tokens.{TokenConfig}

-- The refresh tokens are the same, and the identifiers go on.
pub record Same (db db' : Accounts) : Type 0 where
  pub tokens : db'.refresh_tokens ≡ db.refresh_tokens
  pub later : db.next_id ≤ db'.next_id

pub Same-refl : (db : Accounts) → Same db db
Same-refl db = record { tokens = refl; later = omega arith }

pub update_user-Same :
    (id : ℕ) (f : User → User) (db db' : Accounts) → update_user id f db ≡ ok db' → Same db db'
unfolding update_user
update_user-Same id f db db' h =
    rw (← unless-ok _ _ _ db' h) record { tokens = refl; later = omega arith }

pub insert_email_token-Same :
    (user_id : ℕ) (kind : EmailTokenType) (hash expires : ℕ) (db db' : Accounts)
    → insert_email_token user_id kind hash expires db ≡ ok db'
    → Same db db'
unfolding insert_email_token
insert_email_token-Same user_id kind hash expires db db' h =
    rw (← when-ok _ _ _ db' h) record { tokens = refl; later = omega arith }

pub mark_email_token_used-Same :
    (id now : ℕ) (db db' : Accounts) → mark_email_token_used id now db ≡ ok db' → Same db db'
unfolding mark_email_token_used
mark_email_token_used-Same id now db db' h =
    rw (← unless-ok _ _ _ db' h) record { tokens = refl; later = omega arith }

module _ (config : TokenConfig) (x : Externals) where
  pub adopt_or_create-Same :
      (existing : Option User) (email name password : ℕ) (db db' : Accounts) (u : User)
      → adopt_or_create config x existing email name password db ≡ ok (u, db')
      → Same db db'
  unfolding adopt_or_create create_user
  adopt_or_create-Same none email name password db db' u h = record {
    tokens = ground arith;
    later = ground arith;
  }
  adopt_or_create-Same (some v) email name password db db' u h =
      elim (Result-cases (update_user v.id (adopt_guest_user name password) db)) [
        | inr (e, y) ↦ ground arith
        | inl (db1, y) ↦
            let s = update_user-Same v.id (adopt_guest_user name password) db db1 y in
            record { tokens = ground (arith, s.tokens); later = ground (arith, s.later) }
      ]

  link_or_create-Same :
      (profile : Profile) (id : ℕ) (db db' : Accounts)
      → link_or_create config x profile db ≡ ok (id, db')
      → Same db db'
  unfolding link_or_create create_user
  link_or_create-Same profile id db db' h =
      elim (Option-cases (find_user_by_email profile.email db)) [
        | inl e ↦ record { tokens = ground arith; later = ground arith }
        | inr (u, e) ↦ elim (Result-cases (update_user u.id (link_google_id profile.sub) db)) [
          | inr (z, y) ↦ ground arith
          | inl (db1, y) ↦
              let s = update_user-Same u.id (link_google_id profile.sub) db db1 y in
              record { tokens = ground (arith, s.tokens); later = ground (arith, s.later) }
        ]
      ]

  pub account_of-Same :
      (profile : Profile) (id : ℕ) (db db' : Accounts)
      → account_of config x profile db ≡ ok (id, db')
      → Same db db'
  unfolding account_of
  account_of-Same profile id db db' h =
      elim (Option-cases (find_user_by_google_id profile.sub db)) [
        | inr (u, e) ↦ record { tokens = ground arith; later = ground arith }
        | inl e ↦ elim (Bool-cases profile.email_verified) [
          | inr v ↦ ground arith
          | inl v ↦ link_or_create-Same profile id db db' (ground arith)
        ]
      ]
