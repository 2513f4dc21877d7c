-- ===== src/Accounts.antt =====
-- The accounts: src/http/api/auth/auth.repository.ts and the user rows of src/lib/guest-identity.ts.
-- They share no table with the shop but the roles of the stores, so their state is one of its own.
use udv_shop_api.Prelude.{
  ℕ, suc, Bool, true, false, ◌&&◌, Option, none, some, List, [], ◌∷◌, ◌++◌, ◌==◌, if◌then◌else◌,
  is_some_of, is_none, ltb,
}
pub mod Tokens
pub mod Login
pub mod Guests
pub mod Ops
pub mod Dead
pub mod Families
pub mod Same
pub mod Kept
pub mod Ended
pub mod SameUsers
pub mod Holds
pub mod SignUps
pub mod Passwords
pub mod Phones
pub mod Resets
use udv_shop_api.Errors.{Result, ok, err, failure}
use udv_shop_api.Table.{find_first, update_first, update_many, find_many}
use udv_shop_api.Table.Keys.{count_key}
use udv_shop_api.Permissions.{RoleName}

pub record User : Type 0 where
  pub id : ℕ
  pub email : Option ℕ
  pub password_hash : Option ℕ
  pub google_id : Option ℕ
  pub name : ℕ
  pub phone : Option ℕ
  pub email_verified : Bool
  pub platform_admin : Bool

pub record RefreshToken : Type 0 where
  pub id : ℕ
  pub user_id : ℕ
  pub family_id : ℕ
  pub token_hash : ℕ
  pub expires_at : ℕ
  pub revoked_at : Option ℕ
  pub replaced_by_id : Option ℕ
  pub created_at : ℕ

pub data EmailTokenType : Type 0 where
  verify_email password_reset : EmailTokenType

pub record EmailToken : Type 0 where
  pub id : ℕ
  pub user_id : ℕ
  pub kind : EmailTokenType
  pub token_hash : ℕ
  pub expires_at : ℕ
  pub used_at : Option ℕ

pub record UserStoreRole : Type 0 where
  pub user_id : ℕ
  pub store_id : ℕ
  pub role : RoleName

pub record Accounts : Type 0 where
  pub next_id : ℕ
  pub users : List User
  pub refresh_tokens : List RefreshToken
  pub email_tokens : List EmailToken
  pub store_roles : List UserStoreRole

unfoldable pub find_user_by_email : ℕ → Accounts → Option User
find_user_by_email email db = find_first (λ u. is_some_of email u.email) db.users

unfoldable pub find_user_by_id : ℕ → Accounts → Option User
find_user_by_id id db = find_first (λ u. u.id == id) db.users

unfoldable pub find_user_by_google_id : ℕ → Accounts → Option User
find_user_by_google_id google_id db = find_first (λ u. is_some_of google_id u.google_id) db.users

unfoldable pub find_user_by_phone : ℕ → Accounts → Option User
find_user_by_phone phone db = find_first (λ u. is_some_of phone u.phone) db.users

-- A row of a user, whose unique columns are free: each caller has looked them up.
unfoldable pub create_user : (ℕ → User) → Accounts → User × Accounts
create_user row db = (
  row db.next_id,
  record db { next_id = suc db.next_id; users = db.users ++ row db.next_id ∷ [] },
)

-- `createUser` of the repository, and `create` of the guests.
abbrev pub registered : (email name : ℕ) → (password google : Option ℕ) → Bool → ℕ → User
registered email name password google verified id = record {
  id = id;
  email = some email;
  password_hash = password;
  google_id = google;
  name = name;
  phone = none;
  email_verified = verified;
  platform_admin = false;
}

abbrev pub guest : (name phone : ℕ) → Option ℕ → ℕ → User
guest name phone email id = record {
  id = id;
  email = email;
  password_hash = none;
  google_id = none;
  name = name;
  phone = some phone;
  email_verified = false;
  platform_admin = false;
}

-- `user.update`, which throws where there is no such row.
unfoldable pub update_user : ℕ → (User → User) → Accounts → Result Accounts
update_user id f db =
    if count_key (λ (u : User). u.id) id db.users == 0
    then err (failure "record_not_found")
    else ok (record db { users = update_first (λ u. u.id == id) f db.users })

abbrev pub adopt_guest_user : (name password : ℕ) → User → User
adopt_guest_user name password u = record u { name = name; password_hash = some password }

abbrev pub link_google_id : ℕ → User → User
link_google_id google_id u = record u { google_id = some google_id }

abbrev pub set_password : ℕ → User → User
set_password password u = record u { password_hash = some password }

abbrev pub mark_email_verified : User → User
mark_email_verified u = record u { email_verified = true }

abbrev pub fill_phone : ℕ → User → User
fill_phone phone u = record u { phone = some phone }

unfoldable pub roles_of : List UserStoreRole → List (ℕ × RoleName)
roles_of [] = []
roles_of (r ∷ rs) = (r.store_id, r.role) ∷ roles_of rs

unfoldable pub user_roles : ℕ → Accounts → List (ℕ × RoleName)
unfolding roles_of
user_roles user_id db = roles_of (find_many (λ r. r.user_id == user_id) db.store_roles)

abbrev pub new_refresh_token : (id user_id family_id token_hash expires_at now : ℕ) → RefreshToken
new_refresh_token id user_id family_id token_hash expires_at now = record {
  id = id;
  user_id = user_id;
  family_id = family_id;
  token_hash = token_hash;
  expires_at = expires_at;
  revoked_at = none;
  replaced_by_id = none;
  created_at = now;
}

-- `insertRefreshToken`: the hash of a token is unique.
unfoldable pub insert_refresh_token :
    (user_id family_id token_hash expires_at now : ℕ) → Accounts → Result (RefreshToken × Accounts)
insert_refresh_token user_id family_id token_hash expires_at now db =
    let row = new_refresh_token db.next_id user_id family_id token_hash expires_at now in
    if count_key (λ (t : RefreshToken). t.token_hash) token_hash db.refresh_tokens == 0
    then ok (
      row,
      record db { next_id = suc db.next_id; refresh_tokens = db.refresh_tokens ++ row ∷ [] },
    )
    else err (failure "unique_constraint")

unfoldable pub find_refresh_token_by_hash : ℕ → Accounts → Option RefreshToken
find_refresh_token_by_hash hash db = find_first (λ t. t.token_hash == hash) db.refresh_tokens

unfoldable pub find_refresh_token_by_id : ℕ → Accounts → Option RefreshToken
find_refresh_token_by_id id db = find_first (λ t. t.id == id) db.refresh_tokens

-- `markReplaced`
unfoldable pub mark_replaced : ℕ → ℕ → Accounts → Result Accounts
mark_replaced id replaced_by_id db =
    if count_key (λ (t : RefreshToken). t.id) id db.refresh_tokens == 0
    then err (failure "record_not_found")
    else ok (record db {
      refresh_tokens =
          update_first (λ t. t.id == id) (λ t. record t { replaced_by_id = some replaced_by_id })
            db.refresh_tokens;
    })

abbrev pub revoke : ℕ → RefreshToken → RefreshToken
revoke now t = record t { revoked_at = some now }

unfoldable pub revoke_family : ℕ → ℕ → Accounts → Accounts
revoke_family family_id now db = record db {
  refresh_tokens =
      update_many (λ t. t.family_id == family_id && is_none t.revoked_at) (revoke now)
        db.refresh_tokens;
}

unfoldable pub revoke_all_for_user : ℕ → ℕ → Accounts → Accounts
revoke_all_for_user user_id now db = record db {
  refresh_tokens =
      update_many (λ t. t.user_id == user_id && is_none t.revoked_at) (revoke now)
        db.refresh_tokens;
}

-- `insertEmailToken`: the hash of a token is unique here, too.
unfoldable pub insert_email_token :
    (user_id : ℕ) → EmailTokenType → (token_hash expires_at : ℕ) → Accounts → Result Accounts
insert_email_token user_id kind token_hash expires_at db =
    if count_key (λ (t : EmailToken). t.token_hash) token_hash db.email_tokens == 0
    then ok (record db {
      next_id = suc db.next_id;
      email_tokens =
          db.email_tokens
          ++ record {
            id = db.next_id;
            user_id = user_id;
            kind = kind;
            token_hash = token_hash;
            expires_at = expires_at;
            used_at = none;
          }
            ∷ [];
    })
    else err (failure "unique_constraint")

unfoldable pub find_email_token_by_hash : ℕ → Accounts → Option EmailToken
find_email_token_by_hash hash db = find_first (λ t. t.token_hash == hash) db.email_tokens

unfoldable pub mark_email_token_used : ℕ → ℕ → Accounts → Result Accounts
mark_email_token_used id now db =
    if count_key (λ (t : EmailToken). t.id) id db.email_tokens == 0
    then err (failure "record_not_found")
    else ok (record db {
      email_tokens =
          update_first (λ t. t.id == id) (λ t. record t { used_at = some now }) db.email_tokens;
    })
